-- ===== src/Scripts/Coverage.antt =====
-- scripts/js_coverage_report.py: from V8's ranges to the covered lines of a source, and the report.
use june_2026_tictactoe_bots.Prelude.{
  ℕ, suc, ◌+◌, ◌-◌, Bool, true, false, ◌&&◌, ◌||◌, not, Option, none, some, List, [], ◌∷◌, ◌++◌,
  map, length, ltb, leb, ◌==◌, if◌then◌else◌,
}
use june_2026_tictactoe_bots.Text.{Text, codes, starts_with, strip, is_space, split, decimal}

-- `_Range`
pub record Range : Type 0 where
  pub start : ℕ
  pub end : ℕ
  pub count : ℕ

-- `size`; it is compared for ranges that hold an offset only, where `end` is above `start`.
abbrev pub size : Range → ℕ
size r = r.end - r.start

-- A coverage entry: its `url`, its `source` where it has one, and the ranges of its functions.
pub record Entry : Type 0 where
  pub url : Text
  pub source : Option Text
  pub functions : List (List Range)

-- `_flatten_ranges`
abbrev pub flatten_ranges : List (List Range) → List Range
flatten_ranges [] = []
flatten_ranges (ranges ∷ functions) = ranges ++ flatten_ranges functions

-- `r.start <= offset < r.end`
abbrev pub contains : ℕ → Range → Bool
contains offset r = leb r.start offset && ltb offset r.end

abbrev pub better : Option Range → Range → Range
better none r = r
better (some b) r = if leb (size r) (size b) then r else b

-- The loop of `_innermost_count`, with the best range so far.
unfoldable pub innermost : ℕ → Option Range → List Range → Option Range
innermost offset best [] = best
innermost offset best (r ∷ ranges) =
    innermost offset (if contains offset r then some (better best r) else best) ranges

abbrev pub count_of : Option Range → ℕ
count_of none = 0
count_of (some r) = r.count

unfoldable pub innermost_count : List Range → ℕ → ℕ
unfolding innermost
innermost_count ranges offset = count_of (innermost offset none ranges)

-- The loop over the characters of a line that starts at `offset`.
unfoldable pub line_hit : List Range → ℕ → Text → Bool
line_hit ranges offset [] = false
line_hit ranges offset (ch ∷ line) =
    let rest = line_hit ranges (offset + 1) line in
    if is_space ch then rest else if ltb 0 (innermost_count ranges offset) then true else rest

unfoldable pub lines_covered : List Range → ℕ → List Text → List Bool
unfolding line_hit
lines_covered ranges offset [] = []
lines_covered ranges offset (line ∷ lines) =
    line_hit ranges offset line ∷ lines_covered ranges (offset + (length line + 1)) lines

-- `line_coverage`; the line feed is code point 10.
unfoldable pub line_coverage : Text → List Range → List Bool
unfolding lines_covered
line_coverage source ranges = lines_covered ranges 0 (split 10 source)

is_code : Text → Bool
is_code [] = false
is_code (c ∷ s) =
    if starts_with (codes "//") (c ∷ s)
    then false
    else not (
        starts_with (codes "/*") (c ∷ s)
        || starts_with (codes "*") (c ∷ s)
        || starts_with (codes "*/") (c ∷ s))

-- `is_code_line`
unfoldable pub is_code_line : Text → Bool
unfolding is_code
is_code_line line = is_code (strip line)

-- `(hit, total, missing)`
pub record Summary : Type 0 where
  pub hit : ℕ
  pub total : ℕ
  pub missing : List ℕ

-- `covered[i - 1]`; `line_coverage` gives a value for each line.
abbrev pub head_covered : List Bool → Bool
head_covered [] = false
head_covered (b ∷ bs) = b

abbrev pub tail_covered : List Bool → List Bool
tail_covered [] = []
tail_covered (b ∷ bs) = bs

-- One round of the loop of `_summarize`, for line `i`.
unfoldable pub count_line : ℕ → Text → Bool → Summary → Summary
count_line i line covered s =
    if is_code_line line
    then if covered
      then record s { total = s.total + 1; hit = s.hit + 1 }
      else record s { total = s.total + 1; missing = s.missing ++ i ∷ [] }
    else s

unfoldable pub summarize_from : ℕ → Summary → List Text → List Bool → Summary
unfolding count_line
summarize_from i s [] covered = s
summarize_from i s (line ∷ lines) covered =
    summarize_from (suc i) (count_line i line (head_covered covered) s) lines (tail_covered covered)

-- `_summarize`
unfoldable pub summarize : Text → List Bool → Summary
unfolding summarize_from
summarize source covered =
    summarize_from 1 (record { hit = 0; total = 0; missing = [] }) (split 10 source) covered

-- The loop of `_format_missing`, with the range that is open; a range is its first and last line.
unfoldable pub spans_from : ℕ → ℕ → List ℕ → List (ℕ × ℕ)
spans_from start prev [] = (start, prev) ∷ []
spans_from start prev (n ∷ ns) =
    let longer = spans_from start n ns in
    let fresh = spans_from n n ns in if n == prev + 1 then longer else (start, prev) ∷ fresh

unfoldable pub spans : List ℕ → List (ℕ × ℕ)
unfolding spans_from
spans [] = []
spans (n ∷ ns) = spans_from n n ns

-- `str(start) if start == prev else f"{start}-{prev}"`
abbrev pub span_text : ℕ × ℕ → Text
span_text (start, prev) =
    if start == prev then decimal start else decimal start ++ 45 ∷ decimal prev

-- `", ".join(parts)`
abbrev pub comma_join : List Text → Text
comma_join [] = []
comma_join (p ∷ []) = p
comma_join (p ∷ q ∷ ps) = p ++ codes ", " ++ comma_join (q ∷ ps)

unfoldable pub format_missing : List ℕ → Text
unfolding spans
format_missing line_numbers = comma_join (map span_text (spans line_numbers))
