-- ===== src/Scripts/Counting.antt =====
-- The loop of `_summarize` in js_coverage_report.py, and the lines that are not covered.
use june_2026_tictactoe_bots.Prelude.{
  append_assoc, append-nil, ℕ, suc, ◌+◌, ◌≡◌, refl, sym, ◌∙◌, Bool, ◌&&◌, not, List, [], ◌∷◌, ◌++◌,
  length, length-append, keep, arith, inl, inr, Bool-cases, if◌then◌else◌,
}
use june_2026_tictactoe_bots.Text.{Text, split}
use june_2026_tictactoe_bots.Scripts.Coverage.{
  Summary, is_code_line, head_covered, tail_covered, summarize_from, summarize, spans,
}
use june_2026_tictactoe_bots.Scripts.Spans.{expand, spans-expand}

-- The numbers of the lines of code that are not covered, from line `i` on.
unfoldable pub uncovered : ℕ → List Text → List Bool → List ℕ
uncovered i [] covered = []
uncovered i (line ∷ lines) covered =
    let rest = uncovered (suc i) lines (tail_covered covered) in
    if is_code_line line && not (head_covered covered) then i ∷ rest else rest

-- What the loop adds to a summary.
Adds : ℕ → Summary → List Text → List Bool → Summary → Type 0
Adds i s lines covered r =
    (r.missing ≡ s.missing ++ uncovered i lines covered)
    × (s.hit + length s.missing ≡ s.total → r.hit + length r.missing ≡ r.total)
    × (r.total ≡ s.total + length (keep is_code_line lines))

summarize_from-Adds :
    (lines : List Text) (i : ℕ) (s : Summary) (covered : List Bool)
    → Adds i s lines covered (summarize_from i s lines covered)
unfolding Adds summarize_from uncovered
summarize_from-Adds [] i s covered = (sym (append-nil s.missing), (λ h. h), omega arith)
summarize_from-Adds (line ∷ lines) i s covered = elim (Bool-cases (is_code_line line)) [
  | inr e ↦ rw (e, summarize_from) (summarize_from-Adds lines (suc i) s (tail_covered covered))
  | inl e ↦ elim (Bool-cases (head_covered covered)) [
    | inl f ↦
        let (m, h, t) =
          summarize_from-Adds lines (suc i) (record s { total = s.total + 1; hit = s.hit + 1 })
            (tail_covered covered) in
        rw (e, f, summarize_from) (m, (λ k. h (omega (arith, k))), omega (arith, t))
    | inr f ↦
        let (m, h, t) =
          summarize_from-Adds lines (suc i)
            (record s { total = s.total + 1; missing = s.missing ++ i ∷ [] })
            (tail_covered covered) in
        rw (e, f, summarize_from)
          (
            m ∙ append_assoc s.missing (i ∷ []) (uncovered (suc i) lines (tail_covered covered)),
            (λ k. h (omega (arith, k, length-append s.missing (i ∷ [])))),
            omega (arith, t),
          )
  ]
]

-- Of a source and the values of its lines: the ranges of missing lines stand for the lines of code
-- that are not covered, by number and in order; these and the covered ones make up the total; and the
-- total is the number of lines of code.
pub summarize-uncovered :
    (source : Text) (covered : List Bool)
    → (expand (spans (summarize source covered).missing) ≡ uncovered 1 (split 10 source) covered)
      × ((summarize source covered).hit + length (summarize source covered).missing
          ≡ (summarize source covered).total)
      × ((summarize source covered).total ≡ length (keep is_code_line (split 10 source)))
unfolding summarize Adds
summarize-uncovered source covered =
    let (m, h, t) =
      summarize_from-Adds (split 10 source) 1 (record { hit = 0; total = 0; missing = [] })
        covered in
    ((spans-expand (summarize source covered).missing).0 ∙ m, h refl, omega (arith, t))
