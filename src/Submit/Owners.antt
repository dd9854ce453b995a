-- ===== src/Submit/Owners.antt =====
-- A family has one owner, over any uploads.
use june_2026_tictactoe_bots.Prelude.{
  All-append, ℕ, ◌≡◌, refl, sym, ◌∙◌, ap, ◌≢◌, ◌⊎◌, inl, inr, Bool, Option, none, some, List, [],
  ◌∷◌, ◌++◌, first, All, if◌then◌else◌, Bool-cases,
}
use june_2026_tictactoe_bots.Text.{Text, text_eq}
use june_2026_tictactoe_bots.Text.Laws.{text_eq_refl}
use june_2026_tictactoe_bots.Store.{Db, Bot, owner_token}
use june_2026_tictactoe_bots.Utils.{Source}
use june_2026_tictactoe_bots.Submit.{
  World, Owned, owned_token, granted, resolve_owner_token, same_token, handle_submission,
}
use june_2026_tictactoe_bots.Submit.Effects.{grown, added_row, handle_submission-Handled}
use june_2026_tictactoe_bots.Submit.Names.{IsDigitClass}
use june_2026_tictactoe_bots.Submit.Versions.{IsNamed}

-- Every row of a family has the token of the family's first row, and no token is empty.
abbrev pub OneOwner : Db → Type 0
OneOwner db =
    All (λ b. (owner_token db b.base_name ≡ some b.owner_token) × (b.owner_token ≢ [])) db.bots

-- The token of a family's first row, by recursion on the rows.
abbrev token_in : Text → List Bot → Option Text
token_in base [] = none
token_in base (b ∷ bs) = if text_eq b.base_name base then some b.owner_token else token_in base bs

abbrev token_of_row : Option Bot → Option Text
token_of_row (some b) = some b.owner_token
token_of_row none = none

first-token_in :
    (base : Text) (bs : List Bot)
    → token_of_row (first (λ b. text_eq b.base_name base) bs) ≡ token_in base bs
first-token_in base [] = refl
first-token_in base (b ∷ bs) = elim (Bool-cases (text_eq b.base_name base)) [
  | inl hit ↦ rw hit refl
  | inr miss ↦ rw miss (first-token_in base bs)
]

owner_token-eq : (db : Db) (base : Text) → owner_token db base ≡ token_in base db.bots
unfolding owner_token
owner_token-eq db base = first-token_in base db.bots

token_in-append :
    (base token : Text) (bs : List Bot) (n : Bot)
    → token_in base bs ≡ some token
    → token_in base (bs ++ n ∷ []) ≡ some token
token_in-append base token [] n e = cc
token_in-append base token (b ∷ bs) n e = elim (Bool-cases (text_eq b.base_name base)) [
  | inl hit ↦ rw hit (rw hit at e)
  | inr miss ↦ rw miss (token_in-append base token bs n (rw miss at e))
]

token_in-append_new :
    (bs : List Bot) (n : Bot)
    → token_in n.base_name bs ≡ none
    → token_in n.base_name (bs ++ n ∷ []) ≡ some n.owner_token
token_in-append_new [] n e = rw (text_eq_refl n.base_name) refl
token_in-append_new (b ∷ bs) n e = elim (Bool-cases (text_eq b.base_name n.base_name)) [
  | inl hit ↦ cc (rw hit at e)
  | inr miss ↦ rw miss (token_in-append_new bs n (rw miss at e))
]

-- A row that is added leaves the token of a family that has one.
pub owner_token-append :
    (db db' : Db) (n : Bot) (base token : Text)
    → db'.bots ≡ db.bots ++ n ∷ []
    → owner_token db base ≡ some token
    → owner_token db' base ≡ some token
owner_token-append db db' n base token e h =
    owner_token-eq db' base
    ∙ ap (token_in base) e
    ∙ token_in-append base token db.bots n (sym (owner_token-eq db base) ∙ h)

-- The first row of a family gives it its token.
pub owner_token-append_new :
    (db db' : Db) (n : Bot)
    → db'.bots ≡ db.bots ++ n ∷ []
    → owner_token db n.base_name ≡ none
    → owner_token db' n.base_name ≡ some n.owner_token
owner_token-append_new db db' n e h =
    owner_token-eq db' n.base_name
    ∙ ap (token_in n.base_name) e
    ∙ token_in-append_new db.bots n (sym (owner_token-eq db n.base_name) ∙ h)

-- The rows of `cs` have the tokens that the rows of `bs` give their families.
abbrev Agree : List Bot → List Bot → Type 0
Agree bs cs = All (λ b. (token_in b.base_name bs ≡ some b.owner_token) × (b.owner_token ≢ [])) cs

Agree-append : (bs cs : List Bot) (n : Bot) → Agree bs cs → Agree (bs ++ n ∷ []) cs
Agree-append bs [] n h = tt
Agree-append bs (c ∷ cs) n h =
    ((token_in-append c.base_name c.owner_token bs n h.0.0, h.0.1), Agree-append bs cs n h.1)

OneOwner→Agree :
    (db : Db) (cs : List Bot)
    → All (λ b. (owner_token db b.base_name ≡ some b.owner_token) × (b.owner_token ≢ [])) cs
    → Agree db.bots cs
OneOwner→Agree db [] h = tt
OneOwner→Agree db (c ∷ cs) h =
    ((sym (owner_token-eq db c.base_name) ∙ h.0.0, h.0.1), OneOwner→Agree db cs h.1)

Agree→OneOwner :
    (db : Db) (cs : List Bot)
    → Agree db.bots cs
    → All (λ b. (owner_token db b.base_name ≡ some b.owner_token) × (b.owner_token ≢ [])) cs
Agree→OneOwner db [] h = tt
Agree→OneOwner db (c ∷ cs) h =
    ((owner_token-eq db c.base_name ∙ h.0.0, h.0.1), Agree→OneOwner db cs h.1)

-- A token that is granted is the family's own, or a new one if the family has none.
resolve_granted :
    (new_token token : Text) (held family : Option Text)
    → ((t : Text) → family ≡ some t → t ≢ [])
    → resolve_owner_token new_token held family ≡ granted token
    → (family ≡ some token) ⊎ ((family ≡ none) × (token ≡ new_token))
unfolding resolve_owner_token
resolve_granted new_token token held none n e = inr (refl, cc)
resolve_granted new_token token held (some []) n e = absurd (n [] refl refl)
resolve_granted new_token token held (some (c ∷ s)) n e =
    elim (Bool-cases (same_token held (c ∷ s))) [
      | inl same ↦ let t : (c ∷ s) ≡ token = cc (rw same at e) in inl (ap some t)
      | inr differs ↦ cc (rw differs at e)
    ]

token_in-ne-nil :
    (base t : Text) (bs cs : List Bot) → Agree cs bs → token_in base bs ≡ some t → t ≢ []
token_in-ne-nil base t [] cs h e = cc
token_in-ne-nil base t (b ∷ bs) cs h e = elim (Bool-cases (text_eq b.base_name base)) [
  | inl hit ↦ let same : b.owner_token ≡ t = cc (rw hit at e) in λ f. h.0.1 (same ∙ f)
  | inr miss ↦ token_in-ne-nil base t bs cs h.1 (rw miss at e)
]

Agree-new :
    (bs : List Bot) (n : Bot) (new_token : Text)
    → Agree bs bs
    → new_token ≢ []
    → (token_in n.base_name bs ≡ some n.owner_token)
      ⊎ ((token_in n.base_name bs ≡ none) × (n.owner_token ≡ new_token))
    → Agree (bs ++ n ∷ []) (bs ++ n ∷ [])
Agree-new bs n new_token h fresh (inl e) =
    All-append
      (λ b. (token_in b.base_name (bs ++ n ∷ []) ≡ some b.owner_token) × (b.owner_token ≢ [])) bs
      (n ∷ []) (Agree-append bs bs n h)
      (
        (
          token_in-append n.base_name n.owner_token bs n e,
          token_in-ne-nil n.base_name n.owner_token bs bs h e,
        ),
        tt,
      )
Agree-new bs n new_token h fresh (inr (e, same)) =
    All-append
      (λ b. (token_in b.base_name (bs ++ n ∷ []) ≡ some b.owner_token) × (b.owner_token ≢ [])) bs
      (n ∷ []) (Agree-append bs bs n h)
      ((token_in-append_new bs n e, λ f. fresh (sym same ∙ f)), tt)

-- Over rows that are named by family and version, of which each has the one token of its family and
-- no token is empty, the same is so after any upload by anyone, if the new token is not empty and the
-- digit class has the ASCII digits and not V.
pub handle_submission-OneOwner :
    (is_digit : ℕ → Bool) (parse : Text → Source) (w : World) (owned : Owned)
    (new_token bytes : Text)
    → IsDigitClass is_digit
    → All (IsNamed is_digit) w.db.bots
    → new_token ≢ []
    → OneOwner w.db
    → OneOwner (handle_submission is_digit parse w owned new_token bytes).0.db
handle_submission-OneOwner is_digit parse w owned new_token bytes class named fresh one =
    elim (handle_submission-Handled is_digit class w named parse owned new_token bytes) [
      | inl (e, same) ↦ rw same one
      | inr (name, (token, (key, free, known, right, stored))) ↦
          let agree = OneOwner→Agree w.db w.db.bots one in
          let db' = grown w name token key bytes in
          rw stored.0 (
            Agree→OneOwner db' db'.bots (
              Agree-new w.db.bots (added_row w name token key bytes) new_token agree fresh
                (entitled name token agree right)))
    ]
  where
    entitled :
        (name token : Text)
        → Agree w.db.bots w.db.bots
        → resolve_owner_token new_token (owned_token name owned) (owner_token w.db name)
          ≡ granted token
        → (token_in name w.db.bots ≡ some token)
          ⊎ ((token_in name w.db.bots ≡ none) × (token ≡ new_token))
    entitled name token agree right =
        resolve_granted new_token token (owned_token name owned) (token_in name w.db.bots)
          (λ t e. token_in-ne-nil name t w.db.bots w.db.bots agree e)
          (ap (resolve_owner_token new_token (owned_token name owned))
              (sym (owner_token-eq w.db name))
            ∙ right)
