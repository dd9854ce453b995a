-- ===== src/Submit/Versions.antt =====
-- A new version is above every version of its family, and its name is free.
use june_2026_tictactoe_bots.Prelude.{
  ℕ, suc, ◌<◌, ◌≡◌, refl, sym, ◌∙◌, inl, inr, Bool, false, List, [], ◌∷◌, ◌++◌, arith, any, All,
  Bool-cases,
}
use june_2026_tictactoe_bots.Text.{Text, text_eq}
use june_2026_tictactoe_bots.Text.Laws.{text_eq_iff}
use june_2026_tictactoe_bots.Pods.{ok}
use june_2026_tictactoe_bots.Store.{Db, Bot, bot_row, create, next_version}
use june_2026_tictactoe_bots.Store.Versions.{versions_below}
use june_2026_tictactoe_bots.Utils.{versioned_name}
use june_2026_tictactoe_bots.Submit.{is_reserved, new_bot}
use june_2026_tictactoe_bots.Submit.Names.{IsDigitClass, versioned_name-injective}

-- The row has the name that its family and version give, and its family's name is not reserved.
pub record IsNamed (is_digit : ℕ → Bool) (b : Bot) : Type 0 where
  pub named : b.versioned_name ≡ versioned_name b.base_name b.version
  pub unreserved : is_reserved is_digit b.base_name ≡ false

any-false {ℓ} :
    {A : Type ℓ} (p : A → Bool) (xs : List A) → All (λ x. p x ≡ false) xs → any p xs ≡ false
any-false p [] h = refl
any-false p (x ∷ xs) h = rw (h.0) (any-false p xs h.1)

module _ (is_digit : ℕ → Bool) (class : IsDigitClass is_digit) where
  not_taken :
      (name : Text) (n : ℕ) (bs : List Bot)
      → is_reserved is_digit name ≡ false
      → All (IsNamed is_digit) bs
      → All (λ b. b.base_name ≡ name → b.version < n) bs
      → All (λ b. text_eq b.versioned_name (versioned_name name n) ≡ false) bs
  not_taken name n [] free h older = tt
  not_taken name n (b ∷ bs) free h older = (
    elim (Bool-cases (text_eq b.versioned_name (versioned_name name n))) [
      | inl same ↦
          let (base, version) =
            versioned_name-injective is_digit class b.base_name name b.version n h.0.unreserved free
              (sym h.0.named ∙ (text_eq_iff b.versioned_name (versioned_name name n)).0 same) in
          absurd (omega (arith, older.0 base, version))
      | inr differs ↦ differs
    ],
    not_taken name n bs free h.1 older.1,
  )

  -- Over rows that are named by family and version, with a digit class that has the ASCII digits and
  -- not V, the row of a new version of a name that is not reserved is inserted: its versioned name is
  -- free.
  pub create-new_bot :
      (db : Db) (name token key bytes : Text)
      → is_reserved is_digit name ≡ false
      → All (IsNamed is_digit) db.bots
      → create db (new_bot db name token key bytes)
        ≡ ok (
          record db {
            bots = db.bots ++ bot_row db.next_bot_id db.now (new_bot db name token key bytes) ∷ [];
            next_bot_id = suc db.next_bot_id;
          },
          bot_row db.next_bot_id db.now (new_bot db name token key bytes),
        )
  unfolding create
  create-new_bot db name token key bytes free h =
      rw
        (any-false
          (λ (b : Bot). text_eq b.versioned_name (versioned_name name (next_version db name)))
          db.bots (not_taken name (next_version db name) db.bots free h (versions_below db name)))
        refl
