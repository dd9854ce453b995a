-- ===== src/Submit/Strangers.antt =====
-- Who may add a version to a family: nobody but its owner.
use june_2026_tictactoe_bots.Prelude.{
  ℕ, ◌≡◌, refl, sym, ◌∙◌, ap, ◌≢◌, inl, inr, Bool, Option, none, some, List, [], ◌∷◌, ◌++◌, All,
  Bool-cases, keep, subst,
}
use june_2026_tictactoe_bots.Text.{Text, text_eq}
use june_2026_tictactoe_bots.Text.Laws.{text_eq_iff}
use june_2026_tictactoe_bots.Store.{Db, Bot, owner_token}
use june_2026_tictactoe_bots.Utils.{Source}
use june_2026_tictactoe_bots.Submit.{
  World, Owned, owned_token, granted, refused, resolve_owner_token, same_token, handle_submission,
}
use june_2026_tictactoe_bots.Submit.Effects.{added_row, handle_submission-Handled}
use june_2026_tictactoe_bots.Submit.Names.{IsDigitClass}
use june_2026_tictactoe_bots.Submit.Versions.{IsNamed}

-- A held token that is not the family's gets no grant.
resolve_refused :
    (new_token token : Text) (held : Option Text)
    → token ≢ []
    → held ≢ some token
    → resolve_owner_token new_token held (some token) ≡ refused
unfolding resolve_owner_token same_token
resolve_refused new_token [] held n h = absurd (n refl)
resolve_refused new_token (c ∷ s) none n h = refl
resolve_refused new_token (c ∷ s) (some t) n h = elim (Bool-cases (text_eq t (c ∷ s))) [
  | inl same ↦ absurd (h (ap some ((text_eq_iff t (c ∷ s)).0 same)))
  | inr other_token ↦ rw other_token refl
]

refused-ne-granted : {t : Text} → refused ≢ granted t
refused-ne-granted e = cc

-- The rows of a family, in the order of the table.
abbrev pub rows_of : Text → Db → List Bot
rows_of name db = keep (λ b. text_eq b.base_name name) db.bots

rows_of-append :
    (name : Text) (bs : List Bot) (b : Bot)
    → b.base_name ≢ name
    → keep (λ b. text_eq b.base_name name) (bs ++ b ∷ []) ≡ keep (λ b. text_eq b.base_name name) bs
rows_of-append name [] b n = elim (Bool-cases (text_eq b.base_name name)) [
  | inl same ↦ absurd (n ((text_eq_iff b.base_name name).0 same))
  | inr apart ↦ rw apart refl
]
rows_of-append name (c ∷ bs) b n = elim (Bool-cases (text_eq c.base_name name)) [
  | inl hit ↦ rw hit (ap (λ cs. c ∷ cs) (rows_of-append name bs b n))
  | inr miss ↦ rw miss (rows_of-append name bs b n)
]

-- Over rows that are named by family and version, with a digit class that has the ASCII digits and not
-- V: whatever file is uploaded, by a user whose cookie does not hold the token of a family, which is not
-- empty, and whether the upload is rejected, stored or raises, the rows of that family are the same
-- after it.
pub strangers_shut_out :
    (is_digit : ℕ → Bool) (parse : Text → Source) (w : World) (owned : Owned)
    (new_token bytes name token : Text)
    → IsDigitClass is_digit
    → All (IsNamed is_digit) w.db.bots
    → owner_token w.db name ≡ some token
    → token ≢ []
    → owned_token name owned ≢ some token
    → rows_of name (handle_submission is_digit parse w owned new_token bytes).0.db
      ≡ rows_of name w.db
strangers_shut_out is_digit parse w owned new_token bytes name token class named et n h =
    elim (handle_submission-Handled is_digit class w named parse owned new_token bytes) [
      | inl (e, same) ↦ rw same refl
      | inr (target, (fresh, (key, free, known, right, stored))) ↦ rw stored.0 (
          rows_of-append name w.db.bots (added_row w target fresh key bytes)
            (λ same. no_grant target fresh same right))
    ]
  where
    no_grant :
        (target fresh : Text)
        → target ≡ name
        → resolve_owner_token new_token (owned_token target owned) (owner_token w.db target)
          ≢ granted fresh
    no_grant target fresh same right =
        let mine : resolve_owner_token new_token (owned_token name owned) (owner_token w.db name)
            ≡ granted fresh =
          subst
            (λ t.
              resolve_owner_token new_token (owned_token t owned) (owner_token w.db t)
              ≡ granted fresh)
            same right in
        refused-ne-granted (
          sym (resolve_refused new_token token (owned_token name owned) n h)
          ∙ ap (resolve_owner_token new_token (owned_token name owned)) (sym et)
          ∙ mine)
