-- ===== src/Scripts/Spans.antt =====
-- The ranges of `_format_missing` in js_coverage_report.py, and the lines that they stand for.
use june_2026_tictactoe_bots.Prelude.{
  append_assoc, ℕ, suc, zero, ◌+◌, ◌-◌, ◌≤◌, ◌≡◌, ◌≢◌, refl, sym, ◌∙◌, ap, List, [], ◌∷◌, ◌++◌,
  arith, inl, inr, Bool-cases, ◌==◌, ==_iff,
}
use june_2026_tictactoe_bots.Scripts.Coverage.{spans_from, spans}

-- `n` numbers from `a` on.
count_up : ℕ → ℕ → List ℕ
count_up a zero = []
count_up a (suc n) = a ∷ count_up (suc a) n

-- The lines of ranges, each given by its first and its last line.
unfoldable pub expand : List (ℕ × ℕ) → List ℕ
unfolding count_up
expand [] = []
expand ((a, b) ∷ rest) = count_up a (suc b - a) ++ expand rest

-- No range goes on where the one before it ends.
abbrev pub AreApart : List (ℕ × ℕ) → Type 0
AreApart [] = Unit
AreApart ((a, b) ∷ []) = Unit
AreApart ((a, b) ∷ (c, d) ∷ rest) = (c ≢ b + 1) × AreApart ((c, d) ∷ rest)

count_up-last : (a n : ℕ) → count_up a (suc n) ≡ count_up a n ++ (a + n) ∷ []
unfolding count_up
count_up-last a zero = ap (λ m. m ∷ []) (omega arith)
count_up-last a (suc n) =
    ap (λ l. a ∷ l) (count_up-last (suc a) n ∙ ap (λ m. count_up (suc a) n ++ m ∷ []) (omega arith))

expand-spans_from :
    (ns : List ℕ) (start prev : ℕ)
    → start ≤ prev
    → expand (spans_from start prev ns) ≡ count_up start (suc prev - start) ++ ns
unfolding spans_from expand
expand-spans_from [] start prev h = refl
expand-spans_from (n ∷ ns) start prev h = elim (Bool-cases (n == prev + 1)) [
  | inl e ↦
      let same : n ≡ prev + 1 = (==_iff n (prev + 1)).0 e in
      let longer : suc n - start ≡ suc (suc prev - start) = omega (arith, same) in
      let last : start + (suc prev - start) ≡ n = omega (arith, same) in
      rw (e, spans_from)
        (expand-spans_from ns start n (omega (arith, same))
          ∙ ap (λ k. count_up start k ++ ns) longer
          ∙ ap (λ l. l ++ ns) (count_up-last start (suc prev - start))
          ∙ append_assoc (count_up start (suc prev - start)) ((start + (suc prev - start)) ∷ []) ns
          ∙ ap (λ m. count_up start (suc prev - start) ++ m ∷ ns) last)
  | inr e ↦
      let one : suc n - n ≡ 1 = omega arith in
      rw (e, spans_from)
        (ap (λ l. count_up start (suc prev - start) ++ l)
          (expand-spans_from ns n n (omega arith) ∙ ap (λ k. count_up n k ++ ns) one ∙ refl))
]

-- The first range starts where it was opened.
spans_from-head :
    (ns : List ℕ) (start prev : ℕ)
    → (b : ℕ) × (rest : List (ℕ × ℕ)) × (spans_from start prev ns ≡ (start, b) ∷ rest)
unfolding spans_from
spans_from-head [] start prev = (prev, [], refl)
spans_from-head (n ∷ ns) start prev = elim (Bool-cases (n == prev + 1)) [
  | inl e ↦ let (b, rest, same) = spans_from-head ns start n in (b, rest, rw (e, spans_from) same)
  | inr e ↦ (prev, spans_from n n ns, rw (e, spans_from) refl)
]

spans_from-apart : (ns : List ℕ) (start prev : ℕ) → AreApart (spans_from start prev ns)
unfolding spans_from
spans_from-apart [] start prev = tt
spans_from-apart (n ∷ ns) start prev = elim (Bool-cases (n == prev + 1)) [
  | inl e ↦ rw (e, spans_from) (spans_from-apart ns start n)
  | inr e ↦
      let (b, rest, same) = spans_from-head ns n n in
      let tail : AreApart ((n, b) ∷ rest) = rw same at (spans_from-apart ns n n) in
      rw (e, spans_from) (rw same ((λ h. cc (sym e ∙ (==_iff n (prev + 1)).1 h)), tail))
]

-- The ranges of a list of line numbers stand for these numbers in their order, whatever the list, and
-- no two neighbours could be one range.
pub spans-expand : (ns : List ℕ) → (expand (spans ns) ≡ ns) × AreApart (spans ns)
unfolding spans expand count_up
spans-expand [] = (refl, tt)
spans-expand (n ∷ ns) =
    let one : suc n - n ≡ 1 = omega arith in
    (
      expand-spans_from ns n n (omega arith) ∙ ap (λ k. count_up n k ++ ns) one,
      spans_from-apart ns n n,
    )
