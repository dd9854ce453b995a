-- ===== src/Messaging/Picks.antt =====
-- `pick_python_version` and `pick_runtime_key` of messaging/routing.py.
use june_2026_tictactoe_bots.Prelude.{
  ◌≡◌, ◌≢◌, refl, sym, ◌∙◌, Bool, true, false, Option, List, [], ◌∷◌, ◌++◌, ◌⊎◌, inl, inr,
  if◌then◌else◌, Bool-cases,
}
use june_2026_tictactoe_bots.Text.{Text, codes}
use june_2026_tictactoe_bots.Messaging.Routing.{
  parse_version, tuple_at_most, python_tuple, pick_key, pick_runtime_key, pick_python_version,
}

module _ {Number : Type 0} (at_most : Number → Number → Bool)
    (total : (m n : Number) → (at_most m n ≡ true) ⊎ (at_most n m ≡ true)) where
  tuple_total :
      (s t : List Number) → (tuple_at_most at_most s t ≡ true) ⊎ (tuple_at_most at_most t s ≡ true)
  unfolding tuple_at_most
  tuple_total [] t = inl refl
  tuple_total (m ∷ s) [] = inr refl
  tuple_total (m ∷ s) (n ∷ t) = elim (Bool-cases (at_most m n)) [
    | inl e ↦ elim (Bool-cases (at_most n m)) [
      | inl f ↦ elim (tuple_total s t) [ inl g ↦ inl (rw (e, f) g) | inr g ↦ inr (rw (f, e) g) ]
      | inr f ↦ inl (rw (e, f) refl)
    ]
    | inr e ↦ elim (total m n) [ inl g ↦ cc | inr g ↦ inr (rw (g, e) refl) ]
  ]

  tuple_refl : (s : List Number) → tuple_at_most at_most s s ≡ true
  tuple_refl s = elim (tuple_total s s) [ inl h ↦ h | inr h ↦ h ]

pick_key-parsed :
    {Number : Type 0} (at_most : Number → Number → Bool) (a b : Text) (s t : List Number)
    → s ≢ []
    → t ≢ []
    → pick_key at_most a b s t ≡ (if tuple_at_most at_most t s then a else b)
unfolding pick_key
pick_key-parsed at_most a b [] t h k = absurd (h refl)
pick_key-parsed at_most a b (m ∷ s) [] h k = absurd (k refl)
pick_key-parsed at_most a b (m ∷ s) (n ∷ t) h k = refl

-- The version that is picked.
abbrev pub IsHighest :
    {Number : Type 0}
    → (Text → Option Number)
    → (Number → Number → Bool)
    → Text
    → Text
    → Text
    → Type 0
IsHighest int at_most a b v =
    ((v ≡ a) ⊎ (v ≡ b))
    × (tuple_at_most at_most (parse_version int a) (parse_version int v) ≡ true)
    × (tuple_at_most at_most (parse_version int b) (parse_version int v) ≡ true)

-- Where the order of the numbers is total and both versions parse: the version that is picked is one of
-- the two, and neither is above it as a tuple; and the runtime key that is picked of the two keys with
-- these versions is that of the same version.
pub pick_python_version-IsHighest :
    {Number : Type 0} (int : Text → Option Number) (at_most : Number → Number → Bool) (a b : Text)
    → ((m n : Number) → (at_most m n ≡ true) ⊎ (at_most n m ≡ true))
    → parse_version int a ≢ []
    → parse_version int b ≢ []
    → IsHighest int at_most a b (pick_python_version int at_most a b)
      × (pick_runtime_key int at_most (codes "python-" ++ a) (codes "python-" ++ b)
          ≡ codes "python-" ++ pick_python_version int at_most a b)
unfolding pick_python_version pick_runtime_key python_tuple
pick_python_version-IsHighest int at_most a b total h k =
    elim (Bool-cases (tuple_at_most at_most (parse_version int b) (parse_version int a))) [
      | inl e ↦ rw e (
        (inl refl, tuple_refl at_most total (parse_version int a), e),
        pick_key-parsed at_most (codes "python-" ++ a) (codes "python-" ++ b) (parse_version int a)
              (parse_version int b) h k
            ∙ rw e refl,
      )
      | inr e ↦ rw e (
        (inr refl, below e, tuple_refl at_most total (parse_version int b)),
        pick_key-parsed at_most (codes "python-" ++ a) (codes "python-" ++ b) (parse_version int a)
              (parse_version int b) h k
            ∙ rw e refl,
      )
    ]
  where
    below :
        tuple_at_most at_most (parse_version int b) (parse_version int a) ≡ false
        → tuple_at_most at_most (parse_version int a) (parse_version int b) ≡ true
    below e = elim (tuple_total at_most total (parse_version int a) (parse_version int b)) [
      | inl h ↦ h
      | inr h ↦ cc (sym e ∙ h)
    ]
