-- ===== src/Scripts/Purging.antt =====
-- Which queues scripts/reset_db.py empties.
use june_2026_tictactoe_bots.Prelude.{
  ℕ, suc, ◌≡◌, refl, ap, ◌≢◌, ◌⊎◌, inl, inr, Bool, true, false, not, List, [], ◌∷◌, ◌++◌, map, keep,
  length, All, Bool-cases,
}
use june_2026_tictactoe_bots.Text.{Text, codes, starts_with}
use june_2026_tictactoe_bots.Text.Quote.{
  quote, IsAscii, quote-IsNoSlash, quote_injective, slash_injective,
}
use june_2026_tictactoe_bots.Pods.{ok, raised}
use june_2026_tictactoe_bots.Scripts.Reset.{
  QueueInfo, Management, ApiReply, replied, http_error, unreachable, broken, list_queues,
  contents_url, purge_queue, Purge, purge_next, purge_from, purge_listed, purge_rabbitmq_queues,
}

-- A queue that is not one of the broker's own.
abbrev pub is_named : QueueInfo → Bool
is_named q = not (starts_with (codes "amq") q.name)

abbrev pub is_replied : ApiReply → Bool
is_replied (replied body) = true
is_replied _ = false

-- No request to delete raises.
abbrev pub NeverRaises : (Text → ApiReply) → Type 0
NeverRaises delete = (url : Text) → purge_queue (delete url) ≢ raised

abbrev pub Purges : Management → (Text → ApiReply) → List QueueInfo → Purge → Type 0
Purges m delete queues p =
    (p.requests ≡ map (contents_url m) queues)
    × (p.purged ≡ length (keep (λ q. is_replied (delete (contents_url m q))) queues))
    × (p.finished ≡ true)

purge_queue-cases :
    (r : ApiReply)
    → purge_queue r ≢ raised
    → ((purge_queue r ≡ ok true) × (is_replied r ≡ true))
      ⊎ ((purge_queue r ≡ ok false) × (is_replied r ≡ false))
unfolding purge_queue
purge_queue-cases (replied body) h = inl (refl, refl)
purge_queue-cases (http_error code) h = inr (refl, refl)
purge_queue-cases unreachable h = absurd (h refl)
purge_queue-cases broken h = absurd (h refl)

purge_from-Purges :
    (m : Management) (delete : Text → ApiReply) (queues : List QueueInfo)
    → NeverRaises delete
    → Purges m delete (keep is_named queues) (purge_from m delete queues)
unfolding purge_from purge_next
purge_from-Purges m delete [] h = (refl, refl, refl)
purge_from-Purges m delete (q ∷ qs) h =
    let (requests, purged, finished) = purge_from-Purges m delete qs h in
    elim (Bool-cases (starts_with (codes "amq") q.name)) [
      | inl own ↦ rw own (requests, purged, finished)
      | inr named ↦ elim (purge_queue-cases (delete (contents_url m q)) (h (contents_url m q))) [
        | inl (e, f) ↦
            rw (named, e, f)
              (ap (λ t. contents_url m q ∷ t) requests, ap (λ (n : ℕ). suc n) purged, finished)
        | inr (e, f) ↦ rw (named, e, f) (ap (λ t. contents_url m q ∷ t) requests, purged, finished)
      ]
    ]

-- If no deletion raises, the script asks to empty each listed queue, of whatever virtual host, whose name
-- does not begin with amq, once and in the order of the list, and no other; it counts the requests that
-- succeed, and goes on past those that an HTTP error answers.
pub purge_rabbitmq_queues-Purges :
    (m : Management) (delete : Text → ApiReply) (queues : List QueueInfo)
    → NeverRaises delete
    → Purges m delete (keep is_named queues) (purge_rabbitmq_queues m (replied queues) delete)
unfolding purge_rabbitmq_queues list_queues purge_listed
purge_rabbitmq_queues-Purges m delete queues h = purge_from-Purges m delete queues h

append_cancel : (u s t : Text) → u ++ s ≡ u ++ t → s ≡ t
append_cancel [] s t e = e
append_cancel (c ∷ u) s t e = append_cancel u s t cc

-- Queues with ASCII names have different addresses, also if a name has a slash in it.
pub contents_url_injective :
    (m : Management) (q r : QueueInfo)
    → All IsAscii q.vhost
    → All IsAscii q.name
    → All IsAscii r.vhost
    → All IsAscii r.name
    → contents_url m q ≡ contents_url m r
    → (q.vhost ≡ r.vhost) × (q.name ≡ r.name)
contents_url_injective m q r hv hn kv kn e =
    let tails = append_cancel (codes "/api/queues/") _ _ (append_cancel m.url _ _ e) in
    let (vhosts, names) =
      slash_injective (quote q.vhost) (quote r.vhost) _ _ (quote-IsNoSlash q.vhost)
        (quote-IsNoSlash r.vhost) tails in
    let (same, rest) =
      slash_injective (quote q.name) (quote r.name) _ _ (quote-IsNoSlash q.name)
        (quote-IsNoSlash r.name) names in
    (quote_injective q.vhost r.vhost hv kv vhosts, quote_injective q.name r.name hn kn same)
