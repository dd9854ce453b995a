-- ===== src/Prelude/Sorting.antt =====
-- Sorting by a Boolean order: `sorted` and `ORDER BY`.
use Prim.Native.Nat.{suc}
use mathlib.Core.Path.{◌≡◌, refl, sym, ap, ◌∙◌}
use mathlib.Core.Logic.{◌⊎◌, inl, inr}
use mathlib.Core.Bool.{Bool, true, false}
use mathlib.Core.List.{List, [], ◌∷◌}
use june_2026_tictactoe_bots.Prelude.Tests.{if◌then◌else◌, Bool-cases}
use june_2026_tictactoe_bots.Prelude.Lists.{length, keep, All}

module _ {ℓ} {A : Type ℓ} (before : A → A → Bool) where
  abbrev pub insert_by : A → List A → List A
  insert_by x [] = x ∷ []
  insert_by x (y ∷ ys) = let rest = insert_by x ys in if before x y then x ∷ y ∷ ys else y ∷ rest

  abbrev pub sort_by : List A → List A
  sort_by [] = []
  sort_by (x ∷ xs) = insert_by x (sort_by xs)

  abbrev pub IsSorted : List A → Type 0
  IsSorted [] = Unit
  IsSorted (x ∷ []) = Unit
  IsSorted (x ∷ y ∷ ys) = (before x y ≡ true) × IsSorted (y ∷ ys)

  keep-insert_by :
      (p : A → Bool) (x : A) (xs : List A)
      → length (keep p (insert_by x xs)) ≡ length (keep p (x ∷ xs))
  keep-insert_by p x [] = refl
  keep-insert_by p x (y ∷ ys) = elim (Bool-cases (before x y)) [
    | inl e ↦ rw e refl
    | inr e ↦ rw e (elim (Bool-cases (p x)) [
      | inl f ↦ elim (Bool-cases (p y)) [
        | inl g ↦ rw (f, g) (ap suc (keep-insert_by p x ys ∙ rw f refl))
        | inr g ↦ rw (f, g) (keep-insert_by p x ys ∙ rw f refl)
      ]
      | inr f ↦ elim (Bool-cases (p y)) [
        | inl g ↦ rw (f, g) (ap suc (keep-insert_by p x ys ∙ rw f refl))
        | inr g ↦ rw (f, g) (keep-insert_by p x ys ∙ rw f refl)
      ]
    ])
  ]

  All-insert_by {κ} :
      (P : A → Type κ) (x : A) (xs : List A) → P x → All P xs → All P (insert_by x xs)
  All-insert_by P x [] h k = (h, tt)
  All-insert_by P x (y ∷ ys) h k = elim (Bool-cases (before x y)) [
    | inl e ↦ rw e (h, k)
    | inr e ↦ rw e (k.0, All-insert_by P x ys h k.1)
  ]

  -- Sorting keeps what holds of all elements.
  pub All-sort_by {κ} : (P : A → Type κ) (xs : List A) → All P xs → All P (sort_by xs)
  All-sort_by P [] h = tt
  All-sort_by P (x ∷ xs) h = All-insert_by P x (sort_by xs) h.0 (All-sort_by P xs h.1)

  -- Sorting keeps how many elements pass a test.
  pub keep-sort_by :
      (p : A → Bool) (xs : List A) → length (keep p (sort_by xs)) ≡ length (keep p xs)
  keep-sort_by p [] = refl
  keep-sort_by p (x ∷ xs) = keep-insert_by p x (sort_by xs) ∙ elim (Bool-cases (p x)) [
    | inl e ↦ rw e (ap suc (keep-sort_by p xs))
    | inr e ↦ rw e (keep-sort_by p xs)
  ]

  module _ (total : (x y : A) → (before x y ≡ true) ⊎ (before y x ≡ true)) where
    turned : (x y : A) → before x y ≡ false → before y x ≡ true
    turned x y e = elim (total x y) [ inl h ↦ cc (sym e ∙ h) | inr h ↦ h ]

    insert_by-IsSorted : (x : A) (xs : List A) → IsSorted xs → IsSorted (insert_by x xs)
    insert_by-IsSorted x [] h = tt
    insert_by-IsSorted x (y ∷ []) h = elim (Bool-cases (before x y)) [
      | inl e ↦ rw e (e, tt)
      | inr e ↦ rw e (turned x y e, tt)
    ]
    insert_by-IsSorted x (y ∷ z ∷ zs) h = elim (Bool-cases (before x y)) [
      | inl e ↦ rw e (e, h)
      | inr e ↦ elim (Bool-cases (before x z)) [
        | inl f ↦ rw (e, f) (turned x y e, (f, h.1))
        | inr f ↦ rw (e, f) (h.0, rw f at (insert_by-IsSorted x (z ∷ zs) h.1))
      ]
    ]

    pub sort_by-IsSorted : (xs : List A) → IsSorted (sort_by xs)
    sort_by-IsSorted [] = tt
    sort_by-IsSorted (x ∷ xs) = insert_by-IsSorted x (sort_by xs) (sort_by-IsSorted xs)
