-- ===== src/Text/Decimal.antt =====
-- The decimal text of a number, as `str` and f-strings print it, read back by its value.
use june_2026_tictactoe_bots.Prelude.{
  ℕ, zero, suc, ◌+◌, ◌-◌, ◌≤◌, ◌<◌, ◌≡◌, ◌∙◌, sym, ap, List, [], ◌∷◌, arith, ltb, if◌then◌else◌,
  All, ◌≢◌, Bool-cases, inl, inr, false,
}
use Prim.Native.Nat.{◌*◌, ◌/◌, ◌%◌}

-- The digits in front of `acc`; the number falls below the fuel in each round.
digits_to : ℕ → ℕ → List ℕ → List ℕ
digits_to zero n acc = acc
digits_to (suc fuel) n acc =
    let rest = digits_to fuel (n / 10) ((48 + n % 10) ∷ acc) in
    if ltb n 10 then (48 + n) ∷ acc else rest

-- `str(n)`
unfoldable pub decimal : ℕ → List ℕ
unfolding digits_to
decimal n = digits_to (suc n) n []

-- The number that a row of digits continues.
value_from : ℕ → List ℕ → ℕ
value_from v [] = v
value_from v (c ∷ s) = value_from (v * 10 + (c - 48)) s

quotient_below : (n fuel : ℕ) → ltb n 10 ≡ false → n < suc fuel → n / 10 < fuel
quotient_below n fuel large h = ground arith

value_from-digits_to :
    (fuel n : ℕ) (acc : List ℕ) → n < fuel → value_from 0 (digits_to fuel n acc) ≡ value_from n acc
unfolding value_from digits_to
value_from-digits_to zero n acc h = elim h [ ]
value_from-digits_to (suc fuel) n acc h = elim (Bool-cases (ltb n 10)) [
  | inl small ↦ rw small (ap (λ (v : ℕ). value_from v acc) (omega arith))
  | inr large ↦ rw large (
      value_from-digits_to fuel (n / 10) ((48 + n % 10) ∷ acc) (quotient_below n fuel large h)
      ∙ ap (λ (v : ℕ). value_from v acc) (omega arith))
]

pub decimal_injective : (m n : ℕ) → decimal m ≡ decimal n → m ≡ n
unfolding decimal value_from
decimal_injective m n e =
    sym (value_from-digits_to (suc m) m [] (omega arith))
    ∙ ap (value_from 0) e
    ∙ value_from-digits_to (suc n) n [] (omega arith)

-- The ASCII digits.
abbrev pub IsAsciiDigit : ℕ → Type 0
IsAsciiDigit c = (48 ≤ c) × (c ≤ 57)

digits_to-digits :
    (fuel n : ℕ) (acc : List ℕ) → All IsAsciiDigit acc → All IsAsciiDigit (digits_to fuel n acc)
unfolding digits_to
digits_to-digits zero n acc h = h
digits_to-digits (suc fuel) n acc h = elim (Bool-cases (ltb n 10)) [
  | inl small ↦ rw small (ground arith, h)
  | inr large ↦ rw large (digits_to-digits fuel (n / 10) ((48 + n % 10) ∷ acc) (omega arith, h))
]

digits_to-ne-nil : (fuel n : ℕ) (acc : List ℕ) → acc ≢ [] → digits_to fuel n acc ≢ []
unfolding digits_to
digits_to-ne-nil zero n acc h e = h e
digits_to-ne-nil (suc fuel) n acc h e = elim (Bool-cases (ltb n 10)) [
  | inl small ↦ cc (rw small at e)
  | inr large ↦ digits_to-ne-nil fuel (n / 10) ((48 + n % 10) ∷ acc) (λ f. cc) (rw large at e)
]

pub decimal-digits : (n : ℕ) → All IsAsciiDigit (decimal n)
unfolding decimal
decimal-digits n = digits_to-digits (suc n) n [] tt

pub decimal-ne-nil : (n : ℕ) → decimal n ≢ []
unfolding decimal digits_to
decimal-ne-nil n e = elim (Bool-cases (ltb n 10)) [
  | inl small ↦ cc (rw small at e)
  | inr large ↦ digits_to-ne-nil n (n / 10) ((48 + n % 10) ∷ []) (λ f. cc) (rw large at e)
]
