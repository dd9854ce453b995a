-- ===== src/Pipeline/Ready.antt =====
-- The ready bots under each write to the table of bots.
use june_2026_tictactoe_bots.Prelude.{
  append-nil, ℕ, ◌≡◌, refl, sym, ap, ◌∙◌, subst, ◌⊎◌, inl, inr, ◌↔◌, Bool, true, List, [], ◌∷◌,
  ◌++◌, map, ◌==◌, ==_iff, if◌then◌else◌, Bool-cases, Any, here, there, keep, any,
}
use june_2026_tictactoe_bots.Text.{Text, text_eq}
use june_2026_tictactoe_bots.Pods.{Attempt, ok}
use june_2026_tictactoe_bots.Store.{
  Db, Bot, NewBot, create, bot_row, ready_bots, set_pod_ready, with_pod,
}
use june_2026_tictactoe_bots.Pipeline.Scheduling.{HasId}

-- The bot is in the answer of `ready_bots`.
abbrev pub IsReady : Db → ℕ → Type 0
IsReady db i = HasId (ready_bots db) i

keep-append {ℓ} :
    {A : Type ℓ} (p : A → Bool) (xs ys : List A) → keep p (xs ++ ys) ≡ keep p xs ++ keep p ys
keep-append p [] ys = refl
keep-append p (x ∷ xs) ys = elim (Bool-cases (p x)) [
  | inl hit ↦ rw hit (ap (λ zs. x ∷ zs) (keep-append p xs ys))
  | inr miss ↦ rw miss (keep-append p xs ys)
]

pub create-IsReady :
    (db db' : Db) (n : NewBot) (b : Bot) (i : ℕ)
    → create db n ≡ ok (db', b)
    → IsReady db' i ↔ IsReady db i
unfolding create ready_bots
create-IsReady db db' n b i e =
    elim (Bool-cases (any (λ b. text_eq b.versioned_name n.versioned_name) db.bots)) [
      | inl taken ↦ cc (rw taken at e)
      | inr free ↦
          let same = stored (rw free at e) in
          subst (λ d. IsReady d i ↔ IsReady db i) same
            (subst (λ bs. HasId bs i ↔ IsReady db i)
              (sym (
                keep-append (λ b. b.pod_ready) db.bots (bot_row db.next_bot_id db.now n ∷ [])
                ∙ append-nil (ready_bots db)))
              ((λ h. h), (λ h. h)))
    ]
  where
    stored : {x y : Db × Bot} → ◌≡◌ {A = Attempt (Db × Bot)} (ok x) (ok y) → x.0 ≡ y.0
    stored h = cc

-- The row of the bot is ready.
abbrev pub ReadyIn : List Bot → ℕ → Type 0
ReadyIn bots i = Any (λ b. (b.pod_ready ≡ true) × (b.id ≡ i)) bots

HasId-ReadyIn : (bots : List Bot) (i : ℕ) → HasId (keep (λ b. b.pod_ready) bots) i → ReadyIn bots i
HasId-ReadyIn [] i h = elim h [ ]
HasId-ReadyIn (b ∷ bs) i h = elim (Bool-cases b.pod_ready) [
  | inl ready ↦ head ready (HasId-ReadyIn bs i) (
      subst
        (λ t. HasId (if t then b ∷ keep (λ b. b.pod_ready) bs else keep (λ b. b.pod_ready) bs) i)
        ready h)
  | inr waits ↦ there (HasId-ReadyIn bs i (rw waits at h))
]
  where
    head :
        b.pod_ready ≡ true
        → (HasId (keep (λ b. b.pod_ready) bs) i → ReadyIn bs i)
        → HasId (b ∷ keep (λ b. b.pod_ready) bs) i
        → ReadyIn (b ∷ bs) i
    head ready rest (here e) = here (ready, e)
    head ready rest (there g) = there (rest g)

pub IsReady-ReadyIn : (db : Db) (i : ℕ) → IsReady db i → ReadyIn db.bots i
unfolding ready_bots
IsReady-ReadyIn db i h = HasId-ReadyIn db.bots i h

ReadyIn-HasId : (bots : List Bot) (i : ℕ) → ReadyIn bots i → HasId (keep (λ b. b.pod_ready) bots) i
ReadyIn-HasId [] i h = elim h [ ]
ReadyIn-HasId (b ∷ bs) i (here (ready, e)) = rw ready (here e)
ReadyIn-HasId (b ∷ bs) i (there h) = elim (Bool-cases b.pod_ready) [
  | inl ready ↦ rw ready (there (ReadyIn-HasId bs i h))
  | inr waits ↦ rw waits (ReadyIn-HasId bs i h)
]

with_pod-back :
    (k i : ℕ) (pod : Text) (b : Bot)
    → (with_pod k pod b).pod_ready ≡ true
    → (with_pod k pod b).id ≡ i
    → ((b.pod_ready ≡ true) × (b.id ≡ i)) ⊎ (k ≡ i)
with_pod-back k i pod b r e = elim (Bool-cases (b.id == k)) [
  | inl hit ↦ inr (sym ((==_iff b.id k).0 hit) ∙ (rw hit at e))
  | inr miss ↦ inl ((rw miss at r), (rw miss at e))
]

with_pod-sets :
    (k : ℕ) (pod : Text) (b : Bot)
    → b.id ≡ k
    → ((with_pod k pod b).pod_ready ≡ true) × ((with_pod k pod b).id ≡ k)
with_pod-sets k pod b e = rw ((==_iff b.id k).1 e) (refl, e)

with_pod-keeps :
    (k i : ℕ) (pod : Text) (b : Bot)
    → b.pod_ready ≡ true
    → b.id ≡ i
    → ((with_pod k pod b).pod_ready ≡ true) × ((with_pod k pod b).id ≡ i)
with_pod-keeps k i pod b r e = elim (Bool-cases (b.id == k)) [
  | inl hit ↦ rw hit (refl, e)
  | inr miss ↦ rw miss (r, e)
]

mapped_back :
    (k i : ℕ) (pod : Text) (bs : List Bot)
    → ReadyIn (map (with_pod k pod) bs) i
    → ReadyIn bs i ⊎ (k ≡ i)
mapped_back k i pod [] h = inl h
mapped_back k i pod (b ∷ bs) (here (r, e)) = elim (with_pod-back k i pod b r e) [
  | inl old ↦ inl (here old)
  | inr same ↦ inr same
]
mapped_back k i pod (b ∷ bs) (there h) = elim (mapped_back k i pod bs h) [
  | inl old ↦ inl (there old)
  | inr same ↦ inr same
]

mapped_sets :
    (k : ℕ) (pod : Text) (bs : List Bot) → HasId bs k → ReadyIn (map (with_pod k pod) bs) k
mapped_sets k pod [] h = elim h [ ]
mapped_sets k pod (b ∷ bs) (here e) = here (with_pod-sets k pod b e)
mapped_sets k pod (b ∷ bs) (there h) = there (mapped_sets k pod bs h)

mapped_keeps :
    (k i : ℕ) (pod : Text) (bs : List Bot) → ReadyIn bs i → ReadyIn (map (with_pod k pod) bs) i
mapped_keeps k i pod [] h = h
mapped_keeps k i pod (b ∷ bs) (here (r, e)) = here (with_pod-keeps k i pod b r e)
mapped_keeps k i pod (b ∷ bs) (there h) = there (mapped_keeps k i pod bs h)

-- `set_pod_ready` of a bot of the table adds that bot, and no other, to those that are ready.
pub set_pod_ready-IsReady :
    (db : Db) (k : ℕ) (pod : Text)
    → HasId db.bots k
    → (i : ℕ) → IsReady (set_pod_ready db k pod) i ↔ (IsReady db i ⊎ (k ≡ i))
unfolding set_pod_ready ready_bots
set_pod_ready-IsReady db k pod found i = (
  λ h. elim (mapped_back k i pod db.bots (HasId-ReadyIn _ i h)) [
    | inl old ↦ inl (ReadyIn-HasId db.bots i old)
    | inr same ↦ inr same
  ],
  λ h. elim h [
    | inl old ↦ ReadyIn-HasId _ i (mapped_keeps k i pod db.bots (HasId-ReadyIn db.bots i old))
    | inr same ↦
        ReadyIn-HasId _ i
          (subst (ReadyIn (map (with_pod k pod) db.bots)) same (mapped_sets k pod db.bots found))
  ],
)
