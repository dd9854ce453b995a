-- ===== src/Scripts/Lines.antt =====
-- `line_coverage` of js_coverage_report.py, and one pass over the source.
use june_2026_tictactoe_bots.Prelude.{
  ℕ, suc, ◌+◌, ◌≡◌, refl, sym, ◌∙◌, ap, Bool, true, false, ◌&&◌, ◌||◌, not, List, [], ◌∷◌, length,
  arith, inl, inr, Bool-cases, ltb, ◌==◌, if◌then◌else◌,
}
use june_2026_tictactoe_bots.Text.{Text, is_space, split, cons_line}
use june_2026_tictactoe_bots.Scripts.Coverage.{
  Range, innermost_count, line_hit, lines_covered, line_coverage,
}

-- The character at an offset of the source shows that its line was executed.
abbrev pub shows : List Range → ℕ → ℕ → Bool
shows ranges offset ch = not (is_space ch) && ltb 0 (innermost_count ranges offset)

-- One pass over the source, with its own offsets: the line's value so far, and the lines after it.
unfoldable pub scan_source : List Range → ℕ → Bool → Text → List Bool
scan_source ranges offset so_far [] = so_far ∷ []
scan_source ranges offset so_far (ch ∷ source) =
    let ended = scan_source ranges (offset + 1) false source in
    let longer = scan_source ranges (offset + 1) (so_far || shows ranges offset ch) source in
    if ch == 10 then so_far ∷ ended else longer

line_hit-shows :
    (ranges : List Range) (offset ch : ℕ) (line : Text)
    → line_hit ranges offset (ch ∷ line)
      ≡ (shows ranges offset ch || line_hit ranges (offset + 1) line)
unfolding line_hit
line_hit-shows ranges offset ch line = elim (Bool-cases (is_space ch)) [
  | inl e ↦ rw e refl
  | inr e ↦ rw e (elim (Bool-cases (ltb 0 (innermost_count ranges offset))) [
    | inl f ↦ rw f refl
    | inr f ↦ rw f refl
  ])
]

-- The lines, of which the first is partly read.
resumed : List Range → ℕ → Bool → List Text → List Bool
resumed ranges offset so_far [] = so_far ∷ []
resumed ranges offset so_far (line ∷ lines) =
    (so_far || line_hit ranges offset line)
    ∷ lines_covered ranges (offset + (length line + 1)) lines

split-step :
    (ch : ℕ) (s : Text) → (ch == 10) ≡ false → split 10 (ch ∷ s) ≡ cons_line ch (split 10 s)
split-step ch s e = rw e refl

or_assoc : (a b c : Bool) → ((a || b) || c) ≡ (a || (b || c))
or_assoc true b c = refl
or_assoc false b c = refl

or_false : (a : Bool) → (a || false) ≡ a
or_false true = refl
or_false false = refl

longer_line :
    (ranges : List Range) (offset ch : ℕ) (so_far : Bool) (line : Text)
    → ((so_far || shows ranges offset ch) || line_hit ranges (offset + 1) line)
      ≡ (so_far || line_hit ranges offset (ch ∷ line))
longer_line ranges offset ch so_far line =
    or_assoc so_far (shows ranges offset ch) (line_hit ranges (offset + 1) line)
    ∙ ap (λ b. so_far || b) (sym (line_hit-shows ranges offset ch line))

line_hit-nil :
    (ranges : List Range) (offset : ℕ) (so_far : Bool)
    → (so_far || line_hit ranges offset []) ≡ so_far
unfolding line_hit
line_hit-nil ranges offset so_far = or_false so_far

resumed-cons_line :
    (ranges : List Range) (offset ch : ℕ) (so_far : Bool) (lines : List Text)
    → resumed ranges (offset + 1) (so_far || shows ranges offset ch) lines
      ≡ resumed ranges offset so_far (cons_line ch lines)
unfolding resumed lines_covered
resumed-cons_line ranges offset ch so_far [] =
    ap (λ b. b ∷ [])
      (sym (line_hit-nil ranges (offset + 1) (so_far || shows ranges offset ch))
        ∙ longer_line ranges offset ch so_far [])
resumed-cons_line ranges offset ch so_far (line ∷ lines) =
    let there : offset + 1 + (length line + 1) ≡ offset + (suc (length line) + 1) = omega arith in
    rw (longer_line ranges offset ch so_far line, there) refl

split_some : (s : Text) → (line : Text) × (lines : List Text) × (split 10 s ≡ line ∷ lines)
split_some [] = ([], [], refl)
split_some (c ∷ s) =
    let (line, lines, e) = split_some s in
    elim (Bool-cases (c == 10)) [
      | inl new ↦ ([], split 10 s, rw new refl)
      | inr same ↦ (c ∷ line, lines, rw (same, e) refl)
    ]

resumed-split :
    (ranges : List Range) (offset : ℕ) (s : Text)
    → resumed ranges offset false (split 10 s) ≡ lines_covered ranges offset (split 10 s)
unfolding resumed lines_covered
resumed-split ranges offset s = let (line, lines, e) = split_some s in rw e refl

scan-resumed :
    (ranges : List Range) (source : Text) (offset : ℕ) (so_far : Bool)
    → scan_source ranges offset so_far source ≡ resumed ranges offset so_far (split 10 source)
unfolding scan_source resumed lines_covered
scan-resumed ranges [] offset so_far = ap (λ b. b ∷ []) (sym (line_hit-nil ranges offset so_far))
scan-resumed ranges (ch ∷ source) offset so_far = elim (Bool-cases (ch == 10)) [
  | inl e ↦
      let next =
        scan-resumed ranges source (offset + 1) false ∙ resumed-split ranges (offset + 1) source in
      rw (e, line_hit-nil ranges offset so_far) (ap (λ l. so_far ∷ l) next)
  | inr e ↦
      rw (e, scan_source)
        (scan-resumed ranges source (offset + 1) (so_far || shows ranges offset ch)
          ∙ resumed-cons_line ranges offset ch so_far (split 10 source))
]

-- The value of each line, computed line by line, is what one pass over the whole source finds: some
-- character of the line that is not white space has, at its offset in the source, an innermost range
-- with a count above 0.
pub line_coverage-scan_source :
    (source : Text) (ranges : List Range)
    → line_coverage source ranges ≡ scan_source ranges 0 false source
unfolding line_coverage
line_coverage-scan_source source ranges =
    sym (scan-resumed ranges source 0 false ∙ resumed-split ranges 0 source)
