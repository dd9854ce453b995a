-- ===== src/Messaging/Publishing.antt =====
-- What reaches the broker through messaging/rabbitmq.py.
use june_2026_tictactoe_bots.Prelude.{
  ℕ, ◌≡◌, refl, sym, ap, ◌∙◌, inl, inr, Bool, true, false, Option, none, some, List, [], ◌∷◌, ◌++◌,
  append-nil, append_assoc, All, Bool-cases, ◌⊎◌, map, subst,
}
use june_2026_tictactoe_bots.Pods.{Attempt, ok, raised}
use june_2026_tictactoe_bots.Messaging.Publisher.{
  Publication, build_job, event, Publisher, new_publisher, Broker, declared, with_channel,
  connected, needs_connection, ensure_connected, target, send, send_connected, publish, publish_all,
}

-- What the broker got, by the calls' messages and by which of them returned: just one copy from a call
-- that returned, and at most one from a call that raised.
pub data Got : List Publication → List Bool → List Publication → Type 0 where
  ended : Got [] [] []
  got :
      {m : Publication} {ms sent : List Publication} {oks : List Bool} (returned : Bool)
      → Got ms oks sent
      → Got (m ∷ ms) (returned ∷ oks) (m ∷ sent)
  lost :
      {m : Publication} {ms sent : List Publication} {oks : List Bool}
      → Got ms oks sent
      → Got (m ∷ ms) (false ∷ oks) sent

-- Publisher confirms: a publish returns only once the broker has the message.
abbrev pub IsConfirmed : Broker → Type 0
IsConfirmed b = b.returns ≡ true → b.arrives ≡ true

declared-sent : (p : Publisher) (e : Attempt ℕ) → (declared p e).0.sent ≡ p.sent
unfolding declared
declared-sent p raised = refl
declared-sent p (ok e) = refl

with_channel-sent :
    (b : Broker) (p : Publisher) (ch : Attempt ℕ) → (with_channel b p ch).0.sent ≡ p.sent
unfolding with_channel
with_channel-sent b p raised = refl
with_channel-sent b p (ok ch) = elim (Bool-cases b.declares_queue) [
  | inl e ↦ rw e (declared-sent (record p { channel = some ch }) b.declare_exchange)
  | inr e ↦ rw e refl
]

connected-sent : (b : Broker) (p : Publisher) (c : Attempt ℕ) → (connected b p c).0.sent ≡ p.sent
unfolding connected
connected-sent b p raised = refl
connected-sent b p (ok c) = with_channel-sent b (record p { connection = some c }) b.open_channel

ensure_connected-sent : (b : Broker) (p : Publisher) → (ensure_connected b p).0.sent ≡ p.sent
unfolding ensure_connected
ensure_connected-sent b p = elim (Bool-cases (needs_connection b p.connection)) [
  | inl needs ↦ rw needs (connected-sent b p b.connect)
  | inr is_open ↦ rw is_open refl
]

-- One publish: it adds the message, or it adds nothing and raises.
abbrev Sends : Publisher → Publication → Publisher × Bool → Type 0
Sends p m r = (r.0.sent ≡ p.sent ++ m ∷ []) ⊎ ((r.0.sent ≡ p.sent) × (r.1 ≡ false))

send-Sends :
    (b : Broker) (p : Publisher) (m : Publication) (t : Option ℕ)
    → IsConfirmed b
    → Sends p m (send b p m t)
unfolding send
send-Sends b p m none confirmed = inr (refl, refl)
send-Sends b p m (some t) confirmed = elim (Bool-cases b.arrives) [
  | inl there ↦ inl (rw there refl)
  | inr away ↦ elim (Bool-cases b.returns) [
    | inl back ↦ cc (sym away ∙ confirmed back)
    | inr fails ↦ inr (rw away refl, fails)
  ]
]

send_connected-Sends :
    (b : Broker) (m : Publication) (r : Publisher × Bool)
    → IsConfirmed b
    → Sends r.0 m (send_connected b m r)
unfolding send_connected
send_connected-Sends b m (p, false) confirmed = inr (refl, refl)
send_connected-Sends b m (p, true) confirmed = send-Sends b p m (target p m) confirmed

publish-Sends :
    (b : Broker) (p : Publisher) (m : Publication) → IsConfirmed b → Sends p m (publish b p m)
unfolding publish
publish-Sends b p m confirmed =
    let same = ensure_connected-sent b p in
    elim (send_connected-Sends b m (ensure_connected b p) confirmed) [
      | inl added ↦ inl (added ∙ ap (λ s. s ++ m ∷ []) same)
      | inr (nothing, fails) ↦ inr (nothing ∙ same, fails)
    ]

-- Whatever else the broker does, if a publish returns only once the broker has the message: the broker
-- gets from a publisher, in the order of the calls, one copy of the message of each call that returned
-- and at most one of each call that raised, and nothing more.
pub publish_all-sent :
    (p : Publisher) (calls : List (Broker × Publication))
    → All (λ call. IsConfirmed call.0) calls
    → (new : List Publication) × ((publish_all p calls).0.sent ≡ p.sent ++ new)
      × Got (map (λ call. call.1) calls) (publish_all p calls).1 new
unfolding publish_all
publish_all-sent p [] h = ([], sym (append-nil p.sent), ended)
publish_all-sent p ((b, m) ∷ calls) h =
    let one = publish b p m in
    let (new, e, g) = publish_all-sent one.0 calls h.1 in
    elim (publish-Sends b p m h.0) [
      | inl added ↦
          (m ∷ new, e ∙ ap (λ s. s ++ new) added ∙ append_assoc p.sent (m ∷ []) new, got one.1 g)
      | inr (same, fails) ↦ (
        new,
        e ∙ ap (λ s. s ++ new) same,
        subst (λ r. Got (m ∷ map (λ call. call.1) calls) (r ∷ (publish_all one.0 calls).1) new)
            (sym fails) (lost g),
      )
    ]

-- The connection is there, and neither the channel nor the exchange.
abbrev pub IsHalfOpen : ℕ → Publisher → Type 0
IsHalfOpen c p = (p.connection ≡ some c) × (p.channel ≡ none) × (p.events_exchange ≡ none)

-- Every call fails.
abbrev pub AllFail : List Bool → Type 0
AllFail oks = All (λ done. done ≡ false) oks

target-none : (c : ℕ) (p : Publisher) (m : Publication) → IsHalfOpen c p → target p m ≡ none
target-none c p (build_job m) (e, f, g) = f
target-none c p (event m) (e, f, g) = g

publish-half_open :
    (c : ℕ) (b : Broker) (p : Publisher) (m : Publication)
    → IsHalfOpen c p
    → b.is_closed c ≡ false
    → publish b p m ≡ (p, false)
unfolding publish ensure_connected send_connected send
publish-half_open c b p m h alive =
    ap (send_connected b m) (ready b p c h.0 alive) ∙ ap (send b p m) (target-none c p m h)
  where
    ready :
        (b : Broker) (p : Publisher) (c : ℕ)
        → p.connection ≡ some c
        → b.is_closed c ≡ false
        → ensure_connected b p ≡ (p, true)
    ready b p c e alive = elim (Bool-cases (needs_connection b p.connection)) [
      | inl needs ↦ cc (rw (e, alive) at needs)
      | inr keeps ↦ rw keeps refl
    ]

publish_all-half_open :
    (c : ℕ) (p : Publisher) (calls : List (Broker × Publication))
    → IsHalfOpen c p
    → All (λ call. call.0.is_closed c ≡ false) calls
    → ((publish_all p calls).0 ≡ p) × AllFail (publish_all p calls).1
unfolding publish_all
publish_all-half_open c p [] h alive = (refl, tt)
publish_all-half_open c p ((b, m) ∷ calls) h alive =
    rw (publish-half_open c b p m h alive.0, publish_all)
      (let (same, fail) = publish_all-half_open c p calls h alive.1 in (same, (refl, fail)))

opened_half :
    (c : ℕ) (b : Broker) (m : Publication)
    → b.connect ≡ ok c
    → b.open_channel ≡ raised
    → publish b new_publisher m ≡ (record new_publisher { connection = some c }, false)
unfolding publish ensure_connected connected with_channel send_connected
opened_half c b m e f = rw (e, f) refl

-- If the first use of the publisher opens a connection but then fails to open a channel, that call and
-- every later one fails and nothing is ever sent, as long as the connection is not closed, also when the
-- broker would by then grant every request.
pub publish_all-stuck :
    (c : ℕ) (b : Broker) (m : Publication) (calls : List (Broker × Publication))
    → b.connect ≡ ok c
    → b.open_channel ≡ raised
    → All (λ call. call.0.is_closed c ≡ false) calls
    → ((publish_all new_publisher ((b, m) ∷ calls)).0.sent ≡ [])
      × AllFail (publish_all new_publisher ((b, m) ∷ calls)).1
unfolding publish_all
publish_all-stuck c b m calls e f alive =
    let half = record new_publisher { connection = some c } in
    let (same, fail) = publish_all-half_open c half calls (refl, refl, refl) alive in
    rw (opened_half c b m e f, publish_all) (ap (λ p. p.sent) same, (refl, fail))
