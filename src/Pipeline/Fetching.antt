-- ===== src/Pipeline/Fetching.antt =====
-- The rows of the bots that the handlers leave behind, and what `_fetch_match_bots` of
-- dispatcher/ondeck_handler.py finds in them.
use june_2026_tictactoe_bots.Prelude.{
  ℕ, suc, ◌<◌, ◌≡◌, refl, sym, ◌∙◌, subst, inl, inr, Bool, true, false, Option, none, some, List,
  [], ◌∷◌, ◌++◌, map, ◌==◌, ==_iff, Bool-cases, here, there, keep, All, All-append, All-map, any,
  arith,
}
use june_2026_tictactoe_bots.Text.{Text, text_eq}
use june_2026_tictactoe_bots.Pods.{Attempt, ok}
use june_2026_tictactoe_bots.Engine.{MatchResult}
use june_2026_tictactoe_bots.Match.{Reason}
use june_2026_tictactoe_bots.Store.Keys.{with_pod-id}
use june_2026_tictactoe_bots.Store.{
  Db, Bot, NewBot, create, bot_row, by_ids, set_pod_ready, with_pod, record_match,
}
use june_2026_tictactoe_bots.Pipeline.{get_bot, with_pods, fetch_match_bots}
use june_2026_tictactoe_bots.Pipeline.Ready.{IsReady, ReadyIn, IsReady-ReadyIn}

abbrev is_some : Option Text → Bool
is_some none = false
is_some (some name) = true

-- A bot is ready exactly when its pod's name is stored.
abbrev pub IsPodded : Bot → Type 0
IsPodded b = b.pod_ready ≡ is_some b.pod_name

abbrev pub HasOtherId : Bot → Bot → Type 0
HasOtherId b c = (c.id == b.id) ≡ false

-- No two rows have one id.
abbrev pub Distinct : List Bot → Type 0
Distinct [] = Unit
Distinct (b ∷ bs) = All (HasOtherId b) bs × Distinct bs

-- Every id is below the next one, no two rows have one id, and the ready bots are those with a pod.
pub record IsSane (db : Db) : Type 0 where
  pub below : All (λ b. b.id < db.next_bot_id) db.bots
  pub distinct : Distinct db.bots
  pub podded : All IsPodded db.bots

Distinct-append :
    (n : ℕ) (bs : List Bot) (b : Bot)
    → All (λ c. c.id < n) bs
    → b.id ≡ n
    → Distinct bs
    → Distinct (bs ++ b ∷ [])
Distinct-append n [] b h e d = (tt, tt)
Distinct-append n (x ∷ xs) b h e d = (
  All-append (HasOtherId x) xs (b ∷ []) d.0 (ground (arith, h.0, e), tt),
  Distinct-append n xs b h.1 e d.1,
)

pub create-IsSane :
    (db db' : Db) (n : NewBot) (b : Bot) → create db n ≡ ok (db', b) → IsSane db → IsSane db'
unfolding create
create-IsSane db db' n b e v =
    elim (Bool-cases (any (λ b. text_eq b.versioned_name n.versioned_name) db.bots)) [
      | inl taken ↦ cc (rw taken at e)
      | inr free ↦ subst IsSane (stored (rw free at e)) (record {
        below =
            All-append (λ c. c.id < suc db.next_bot_id) db.bots
              (bot_row db.next_bot_id db.now n ∷ [])
              (All-map (λ c. c.id < db.next_bot_id) (λ c. c.id < suc db.next_bot_id) db.bots
                (λ c h. omega arith) v.below)
              (omega arith, tt);
        distinct = Distinct-append db.next_bot_id db.bots _ v.below refl v.distinct;
        podded =
            All-append IsPodded db.bots (bot_row db.next_bot_id db.now n ∷ []) v.podded (refl, tt);
      })
    ]
  where
    stored : {x y : Db × Bot} → ◌≡◌ {A = Attempt (Db × Bot)} (ok x) (ok y) → x.0 ≡ y.0
    stored h = cc

with_pod-IsPodded : (k : ℕ) (pod : Text) (b : Bot) → IsPodded b → IsPodded (with_pod k pod b)
with_pod-IsPodded k pod b h = elim (Bool-cases (b.id == k)) [
  | inl hit ↦ rw hit refl
  | inr miss ↦ rw miss h
]

-- What holds of each row after the write holds of the written rows.
All-mapped :
    (P : Bot → Type 0) (Q : Bot → Type 0) (f : Bot → Bot) (bs : List Bot)
    → ((b : Bot) → P b → Q (f b))
    → All P bs
    → All Q (map f bs)
All-mapped P Q f [] h v = tt
All-mapped P Q f (b ∷ bs) h v = (h b v.0, All-mapped P Q f bs h v.1)

with_pod-Distinct :
    (k : ℕ) (pod : Text) (bs : List Bot) → Distinct bs → Distinct (map (with_pod k pod) bs)
with_pod-Distinct k pod [] d = tt
with_pod-Distinct k pod (b ∷ bs) d = (
  All-mapped (HasOtherId b) (HasOtherId (with_pod k pod b)) (with_pod k pod) bs
      (λ c h. rw (with_pod-id k pod b, with_pod-id k pod c) h) d.0,
  with_pod-Distinct k pod bs d.1,
)

pub set_pod_ready-IsSane :
    (db : Db) (k : ℕ) (pod : Text) → IsSane db → IsSane (set_pod_ready db k pod)
unfolding set_pod_ready
set_pod_ready-IsSane db k pod v = record {
  below =
      All-mapped (λ b. b.id < db.next_bot_id) (λ b. b.id < db.next_bot_id) (with_pod k pod) db.bots
        (λ b h. rw (with_pod-id k pod b) h) v.below;
  distinct = with_pod-Distinct k pod db.bots v.distinct;
  podded = All-mapped IsPodded IsPodded (with_pod k pod) db.bots (with_pod-IsPodded k pod) v.podded;
}

pub record_match-IsSane :
    (db : Db) (x o : ℕ) (r : MatchResult Reason) (cid : Text)
    → IsSane db
    → IsSane (record_match db x o r cid)
unfolding record_match
record_match-IsSane db x o r cid v = record {
  below = v.below;
  distinct = v.distinct;
  podded = v.podded;
}

-- The row that is found under an id among those that a test keeps, and it has a pod.
abbrev FoundIn : (Bot → Bool) → ℕ → List Bot → Type 0
FoundIn p i bs =
    (b : Bot) × ((name : Text) × (get_bot i (keep p bs) ≡ some b) × (b.pod_name ≡ some name))

named_pod : (b : Bot) → IsPodded b → b.pod_ready ≡ true → (name : Text) × (b.pod_name ≡ some name)
named_pod b h ready = by_name b.pod_name (sym h ∙ ready)
  where
    by_name : (o : Option Text) → is_some o ≡ true → (name : Text) × (o ≡ some name)
    by_name none e = cc
    by_name (some name) e = (name, refl)

-- A ready row is not behind another row of its id.
not_before :
    (b : Bot) (bs : List Bot) (i : ℕ) → All (HasOtherId b) bs → ReadyIn bs i → (b.id == i) ≡ false
not_before b [] i d h = elim h [ ]
not_before b (c ∷ bs) i d (here (ready, e)) = ground (arith, d.0, e)
not_before b (c ∷ bs) i d (there h) = not_before b bs i d.1 h

ReadyIn-FoundIn :
    (p : Bot → Bool) (i : ℕ) (bs : List Bot)
    → ((b : Bot) → b.id ≡ i → p b ≡ true)
    → Distinct bs
    → All IsPodded bs
    → ReadyIn bs i
    → FoundIn p i bs
ReadyIn-FoundIn p i [] kept d v h = elim h [ ]
ReadyIn-FoundIn p i (b ∷ bs) kept d v (here (ready, e)) =
    let (name, named) = named_pod b v.0 ready in
    (b, (name, rw (kept b e, (==_iff b.id i).1 e) refl, named))
ReadyIn-FoundIn p i (b ∷ bs) kept d v (there h) =
    let (c, (name, found, named)) = ReadyIn-FoundIn p i bs kept d.1 v.1 h in
    elim (Bool-cases (p b)) [
      | inl hit ↦ (c, (name, rw (hit, not_before b bs i d.0 h) found, named))
      | inr miss ↦ (c, (name, rw miss found, named))
    ]

with_pods-some :
    (x o : Bot) (a b : Text)
    → x.pod_name ≡ some a
    → o.pod_name ≡ some b
    → with_pods (some x) (some o) ≡ some (x, o)
unfolding with_pods
with_pods-some x o a b e f = simp (e, f)

-- Two ready bots are fetched.
pub fetch_match_bots-IsReady :
    (db : Db) (i j : ℕ)
    → IsSane db
    → IsReady db i
    → IsReady db j
    → (x : Bot) × ((o : Bot) × (fetch_match_bots db i j ≡ some (x, o)))
unfolding fetch_match_bots by_ids
fetch_match_bots-IsReady db i j v hi hj =
    let p : Bot → Bool = λ b. any (λ k. b.id == k) (i ∷ j ∷ []) in
    let (x, (a, found_x, named_x)) =
      ReadyIn-FoundIn p i db.bots (λ b e. rw ((==_iff b.id i).1 e) refl) v.distinct v.podded
        (IsReady-ReadyIn db i hi) in
    let (o, (b, found_o, named_o)) =
      ReadyIn-FoundIn p j db.bots (λ b e. ground (arith, e)) v.distinct v.podded
        (IsReady-ReadyIn db j hj) in
    (x, (o, rw (found_x, found_o) (with_pods-some x o a b named_x named_o)))
