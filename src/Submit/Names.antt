-- ===== src/Submit/Names.antt =====
-- Versioned names of names that are not reserved never collide.
use june_2026_tictactoe_bots.Prelude.{
  ℕ, ◌≡◌, refl, sym, ◌∙◌, ap, ◌≢◌, inl, inr, Bool, true, false, [], ◌∷◌, ◌++◌, reverse, arith, ◌==◌,
  Bool-cases, All,
}
use mathlib.Core.List.{reverse-append, reverse-reverse, append_assoc}
use june_2026_tictactoe_bots.Text.{Text, decimal}
use june_2026_tictactoe_bots.Text.Decimal.{
  decimal_injective, IsAsciiDigit, decimal-digits, decimal-ne-nil,
}
use june_2026_tictactoe_bots.Utils.{versioned_name}
use june_2026_tictactoe_bots.Submit.{ends_in_version, is_reserved, without_newline}

-- What the model assumes of `\d`: the ASCII digits match, and V does not.
pub record IsDigitClass (is_digit : ℕ → Bool) : Type 0 where
  pub ascii : (c : ℕ) → IsAsciiDigit c → is_digit c ≡ true
  pub not_v : is_digit 86 ≡ false

snoc_reverse : (c : ℕ) (s : Text) → reverse (c ∷ s) ≡ reverse s ++ c ∷ []
snoc_reverse c s = reverse-append (c ∷ []) s

All-snoc : (s : Text) (c : ℕ) → All IsAsciiDigit s → IsAsciiDigit c → All IsAsciiDigit (s ++ c ∷ [])
All-snoc [] c h d = (d, tt)
All-snoc (x ∷ s) c h d = (h.0, All-snoc s c h.1 d)

All-reverse : (s : Text) → All IsAsciiDigit s → All IsAsciiDigit (reverse s)
All-reverse [] h = tt
All-reverse (c ∷ s) h = rw (snoc_reverse c s) (All-snoc (reverse s) c (All-reverse s h.1) h.0)

reverse-ne-nil : (s : Text) → s ≢ [] → reverse s ≢ []
reverse-ne-nil s h e = h (sym (reverse-reverse s) ∙ ap reverse e)

-- A versioned name from its end: the digits, V, and the base name.
reverse-suffix : (base ds : Text) → reverse (base ++ 86 ∷ ds) ≡ reverse ds ++ 86 ∷ reverse base
reverse-suffix base ds =
    reverse-append base (86 ∷ ds)
    ∙ ap (λ s. s ++ reverse base) (snoc_reverse 86 ds)
    ∙ append_assoc (reverse ds) (86 ∷ []) (reverse base)

-- The digits before a V are determined, since no digit is a V.
split_at_v :
    (r t s u : Text)
    → All IsAsciiDigit r
    → All IsAsciiDigit t
    → r ++ 86 ∷ s ≡ t ++ 86 ∷ u
    → (r ≡ t) × (s ≡ u)
split_at_v [] [] s u hr ht e = (refl, cc)
split_at_v [] (d ∷ t) s u hr ht e = let same : 86 ≡ d = cc e in absurd (omega (arith, same))
split_at_v (c ∷ r) [] s u hr ht e = let same : c ≡ 86 = cc e in absurd (omega (arith, same))
split_at_v (c ∷ r) (d ∷ t) s u hr ht e =
    let same : c ≡ d = cc e in
    let (er, es) = split_at_v r t s u hr.1 ht.1 (cc e) in (cc (same, er), es)

module _ (is_digit : ℕ → Bool) (class : IsDigitClass is_digit) where
  after_digits :
      (r s : Text) → All IsAsciiDigit r → ends_in_version is_digit true (r ++ 86 ∷ s) ≡ true
  unfolding ends_in_version
  after_digits [] s h = rw class.not_v refl
  after_digits (c ∷ r) s h = rw (class.ascii c h.0) (after_digits r s h.1)

  digits_then_v :
      (r s : Text)
      → r ≢ []
      → All IsAsciiDigit r
      → ends_in_version is_digit false (without_newline (r ++ 86 ∷ s)) ≡ true
  unfolding ends_in_version
  digits_then_v [] s n h = absurd (n refl)
  digits_then_v (c ∷ r) s n h = elim (Bool-cases (c == 10)) [
    | inl feed ↦ absurd (ground (arith, h.0))
    | inr other_code ↦ rw other_code (rw (class.ascii c h.0) (after_digits r s h.1))
  ]

  -- A name with a version suffix is reserved.
  pub is_reserved-suffix :
      (base : Text) (v : ℕ) → is_reserved is_digit (base ++ 86 ∷ decimal v) ≡ true
  unfolding is_reserved
  is_reserved-suffix base v = rw (reverse-suffix base (decimal v)) (
      digits_then_v (reverse (decimal v)) (reverse base)
        (reverse-ne-nil (decimal v) (decimal-ne-nil v))
        (All-reverse (decimal v) (decimal-digits v)))

  suffix_injective :
      (b c : Text) (v w : ℕ) → b ++ 86 ∷ decimal v ≡ c ++ 86 ∷ decimal w → (b ≡ c) × (v ≡ w)
  suffix_injective b c v w e =
      let (digits, bases) =
        split_at_v (reverse (decimal v)) (reverse (decimal w)) (reverse b) (reverse c)
          (All-reverse (decimal v) (decimal-digits v)) (All-reverse (decimal w) (decimal-digits w))
          (sym (reverse-suffix b (decimal v)) ∙ ap reverse e ∙ reverse-suffix c (decimal w)) in
      (unreverse b c bases, decimal_injective v w (unreverse (decimal v) (decimal w) digits))
    where
      unreverse : (s t : Text) → reverse s ≡ reverse t → s ≡ t
      unreverse s t h = sym (reverse-reverse s) ∙ ap reverse h ∙ reverse-reverse t

  not_suffix : (b c : Text) (w : ℕ) → is_reserved is_digit b ≡ false → b ≢ c ++ 86 ∷ decimal w
  not_suffix b c w free e = cc (free, ap (is_reserved is_digit) e, is_reserved-suffix c w)

  -- With a digit class that has the ASCII digits and not V, two versioned names of base names that are
  -- not reserved are equal only if the base names and the versions are.
  pub versioned_name-injective :
      (b c : Text) (v w : ℕ)
      → is_reserved is_digit b ≡ false
      → is_reserved is_digit c ≡ false
      → versioned_name b v ≡ versioned_name c w
      → (b ≡ c) × (v ≡ w)
  unfolding versioned_name
  versioned_name-injective b c v w hb hc e = elim (Bool-cases (v == 1)) [
    | inl v1 ↦ elim (Bool-cases (w == 1)) [
      | inl w1 ↦ (rw (v1, w1) at e, ground (arith, v1, w1))
      | inr w2 ↦ absurd (not_suffix b c w hb (rw (v1, w2) at e))
    ]
    | inr v2 ↦ elim (Bool-cases (w == 1)) [
      | inl w1 ↦ absurd (not_suffix c b v hc (sym (rw (v2, w1) at e)))
      | inr w2 ↦ suffix_injective b c v w (rw (v2, w2) at e)
    ]
  ]
