-- ===== src/Store/Keys.antt =====
-- The keys of the tables of entities/: a new row's key, and rows that a write leaves under their keys.
use june_2026_tictactoe_bots.Prelude.{
  ℕ, ◌<◌, ◌≡◌, refl, ◌≢◌, inl, inr, List, [], ◌∷◌, ◌++◌, map, arith, All, Distinct, ◌==◌,
  Bool-cases,
}
use june_2026_tictactoe_bots.Text.{Text}
use june_2026_tictactoe_bots.Store.{Bot, with_pod}

-- A key that is above all others is new.
module _ {ℓ} {A : Type ℓ} (key : A → ℕ) where
  none_above :
      (n : ℕ) (y : A) (xs : List A)
      → All (λ x. key x < key y) xs
      → n < key y
      → All (λ k. k ≢ n) (map key xs)
      → All (λ k. k ≢ n) (map key (xs ++ y ∷ []))
  none_above n y [] h l d = ((λ e. omega arith), tt)
  none_above n y (x ∷ xs) h l d = (d.0, none_above n y xs h.1 l d.1)

  pub Distinct-append :
      (y : A) (xs : List A)
      → All (λ x. key x < key y) xs
      → Distinct (map key xs)
      → Distinct (map key (xs ++ y ∷ []))
  Distinct-append y [] h d = (tt, tt)
  Distinct-append y (x ∷ xs) h d =
      (none_above (key x) y xs h.1 h.0 d.0, Distinct-append y xs h.1 d.1)

-- Setting a pod ready changes no key.
pub with_pod-id : (k : ℕ) (pod : Text) (b : Bot) → (with_pod k pod b).id ≡ b.id
with_pod-id k pod b = elim (Bool-cases (b.id == k)) [ inl e ↦ rw e refl | inr e ↦ rw e refl ]

pub with_pod-keys :
    (k : ℕ) (pod : Text) (bs : List Bot)
    → map (λ b. b.id) (map (with_pod k pod) bs) ≡ map (λ b. b.id) bs
with_pod-keys k pod [] = refl
with_pod-keys k pod (b ∷ bs) = rw (with_pod-id k pod b, with_pod-keys k pod bs) refl

pub with_pod-ids :
    (n k : ℕ) (pod : Text) (bs : List Bot)
    → All (λ b. b.id < n) bs
    → All (λ b. b.id < n) (map (with_pod k pod) bs)
with_pod-ids n k pod [] h = tt
with_pod-ids n k pod (b ∷ bs) h = (ground (arith, h.0), with_pod-ids n k pod bs h.1)
