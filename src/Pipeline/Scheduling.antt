-- ===== src/Pipeline/Scheduling.antt =====
-- What the scheduler publishes for a bot: both orders of each pairing with a ready bot, and nothing else.
use june_2026_tictactoe_bots.Prelude.{
  Any-append_left, Any-append_right, Any-append, ℕ, ◌+◌, ◌≡◌, refl, sym, subst, ◌⊎◌, inl, inr, ◌↔◌,
  some, List, [], ◌∷◌, ◌==◌, ==_iff, if◌then◌else◌, Bool-cases, Any, here, there,
}
use june_2026_tictactoe_bots.Text.{Text}
use june_2026_tictactoe_bots.Store.{Db, Bot, ready_bots}
use june_2026_tictactoe_bots.Pipeline.{
  MatchOndeck, ondeck, pairings, enqueue_from, enqueue_matches, handle_pod_ready_message,
}

-- The match of bot `i` as X against bot `j` as O is in the queue.
abbrev pub Published : List MatchOndeck → ℕ → ℕ → Type 0
Published q i j = Any (λ m. (m.bot_x_id ≡ i) × (m.bot_o_id ≡ j)) q

abbrev pub HasId : List Bot → ℕ → Type 0
HasId bots i = Any (λ b. b.id ≡ i) bots

-- The pairs that are published for `bot_id` against some bots.
abbrev pub IsPairing : ℕ → List Bot → ℕ → ℕ → Type 0
IsPairing bot_id bots i j = ((i ≡ bot_id) × HasId bots j) ⊎ ((j ≡ bot_id) × HasId bots i)

pairings-IsPairing :
    (tokens : ℕ → Text) (bot_id n : ℕ) (b : Bot) (bs : List Bot) (i j : ℕ)
    → Published (pairings tokens bot_id n b.id) i j
    → IsPairing bot_id (b ∷ bs) i j
pairings-IsPairing tokens bot_id n b bs i j (here (ex, eo)) = inl (sym ex, here eo)
pairings-IsPairing tokens bot_id n b bs i j (there h) = elim (Bool-cases (b.id == bot_id)) [
  | inl same ↦ none_left (
      subst (λ t. Published (if t then [] else ondeck b.id bot_id (tokens (n + 1)) ∷ []) i j) same
        h)
  | inr other ↦ one_left (
      subst (λ t. Published (if t then [] else ondeck b.id bot_id (tokens (n + 1)) ∷ []) i j) other
        h)
]
  where
    none_left : Published [] i j → IsPairing bot_id (b ∷ bs) i j
    none_left h = elim h [ ]

    one_left :
        Published (ondeck b.id bot_id (tokens (n + 1)) ∷ []) i j → IsPairing bot_id (b ∷ bs) i j
    one_left (here (ex, eo)) = inr (sym eo, here ex)
    one_left (there h) = elim h [ ]

pairings-Published :
    (tokens : ℕ → Text) (bot_id n k : ℕ)
    → Published (pairings tokens bot_id n k) bot_id k
      × Published (pairings tokens bot_id n k) k bot_id
pairings-Published tokens bot_id n k = (
  here (refl, refl),
  elim (Bool-cases (k == bot_id)) [
    | inl same ↦ here (sym ((==_iff k bot_id).0 same), (==_iff k bot_id).0 same)
    | inr other ↦ there (rw other (here (refl, refl)))
  ],
)

enqueue_from-keeps :
    (tokens : ℕ → Text) (bot_id : ℕ) (bots : List Bot) (n : ℕ) (q : List MatchOndeck) (i j : ℕ)
    → Published q i j
    → Published (enqueue_from tokens bot_id q n bots).0 i j
unfolding enqueue_from
enqueue_from-keeps tokens bot_id [] n q i j h = h
enqueue_from-keeps tokens bot_id (b ∷ bs) n q i j h =
    enqueue_from-keeps tokens bot_id bs _ _ i j (Any-append_left (pairings tokens bot_id n b.id) h)

enqueue_from-covers :
    (tokens : ℕ → Text) (bot_id : ℕ) (bots : List Bot) (n : ℕ) (q : List MatchOndeck) (k : ℕ)
    → HasId bots k
    → Published (enqueue_from tokens bot_id q n bots).0 bot_id k
      × Published (enqueue_from tokens bot_id q n bots).0 k bot_id
unfolding enqueue_from
enqueue_from-covers tokens bot_id [] n q k h = elim h [ ]
enqueue_from-covers tokens bot_id (b ∷ bs) n q k (there h) =
    enqueue_from-covers tokens bot_id bs _ _ k h
enqueue_from-covers tokens bot_id (b ∷ bs) n q k (here e) =
    let (as_x, as_o) =
      subst
        (λ k.
          Published (pairings tokens bot_id n b.id) bot_id k
          × Published (pairings tokens bot_id n b.id) k bot_id)
        e (pairings-Published tokens bot_id n b.id) in
    (
      enqueue_from-keeps tokens bot_id bs _ _ bot_id k (Any-append_right q as_x),
      enqueue_from-keeps tokens bot_id bs _ _ k bot_id (Any-append_right q as_o),
    )

later :
    (bot_id : ℕ) (b : Bot) (bs : List Bot) (i j : ℕ)
    → IsPairing bot_id bs i j
    → IsPairing bot_id (b ∷ bs) i j
later bot_id b bs i j (inl (e, h)) = inl (e, there h)
later bot_id b bs i j (inr (e, h)) = inr (e, there h)

enqueue_from-only :
    (tokens : ℕ → Text) (bot_id : ℕ) (bots : List Bot) (n : ℕ) (q : List MatchOndeck) (i j : ℕ)
    → Published (enqueue_from tokens bot_id q n bots).0 i j
    → Published q i j ⊎ IsPairing bot_id bots i j
unfolding enqueue_from
enqueue_from-only tokens bot_id [] n q i j h = inl h
enqueue_from-only tokens bot_id (b ∷ bs) n q i j h =
    elim (enqueue_from-only tokens bot_id bs _ _ i j h) [
      | inr pair ↦ inr (later bot_id b bs i j pair)
      | inl before ↦ elim (Any-append q before) [
        | inl old ↦ inl old
        | inr new ↦ inr (pairings-IsPairing tokens bot_id n b bs i j new)
      ]
    ]

-- After a ready message of a bot, a match of `i` as X against `j` as O is in the queue exactly if it
-- was there before, or one of `i` and `j` is the bot of the message and the other is a ready bot.
pub handle_pod_ready_message-Published :
    (tokens : ℕ → Text) (db : Db) (q : List MatchOndeck) (bot_id i j : ℕ)
    → Published (handle_pod_ready_message tokens db q (some bot_id)) i j
      ↔ (Published q i j ⊎ IsPairing bot_id (ready_bots db) i j)
unfolding handle_pod_ready_message enqueue_matches
handle_pod_ready_message-Published tokens db q bot_id i j = (
  enqueue_from-only tokens bot_id (ready_bots db) 0 q i j,
  λ h. elim h [
    | inl old ↦ enqueue_from-keeps tokens bot_id (ready_bots db) 0 q i j old
    | inr (inl (e, r)) ↦
        subst (λ k. Published (enqueue_from tokens bot_id q 0 (ready_bots db)).0 k j) (sym e)
          (enqueue_from-covers tokens bot_id (ready_bots db) 0 q j r).0
    | inr (inr (e, r)) ↦
        subst (λ k. Published (enqueue_from tokens bot_id q 0 (ready_bots db)).0 i k) (sym e)
          (enqueue_from-covers tokens bot_id (ready_bots db) 0 q i r).1
  ],
)
