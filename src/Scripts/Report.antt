-- ===== src/Scripts/Report.antt =====
-- scripts/js_coverage_report.py: the ranges of all entries by the path of their file, and the rows of
-- the report. The layout of the columns and the percentages are left out.
use june_2026_tictactoe_bots.Prelude.{
  sort_by, ℕ, ◌+◌, Bool, true, false, Option, none, some, List, [], ◌∷◌, ◌++◌, map, reverse, ◌==◌,
  ltb, if◌then◌else◌,
}
use june_2026_tictactoe_bots.Text.{Text, codes, text_eq, starts_with}
use june_2026_tictactoe_bots.Scripts.Coverage.{
  Range, Entry, flatten_ranges, line_coverage, summarize, format_missing,
}

-- The text from the first occurrence of `part` on.
unfoldable pub cut : Text → Text → Option Text
cut part [] = if starts_with part [] then some [] else none
cut part (c ∷ s) = let rest = cut part s in if starts_with part (c ∷ s) then some (c ∷ s) else rest

abbrev pub drop_scheme : Text → Text
drop_scheme (c ∷ d ∷ e ∷ s) = s
drop_scheme _ = []

-- `_url_path`
unfoldable pub url_path : Text → Text
unfolding cut
url_path url = elim (cut (codes "://") url) [
  | none ↦ url
  | some s ↦ elim (cut (codes "/") (drop_scheme s)) [ none ↦ codes "/" | some path ↦ path ]
]

abbrev pub ends_with : Text → Text → Bool
ends_with part s = starts_with (reverse part) (reverse s)

-- The key of an entry of the project's own files, with its source; `none` is the `continue`.
unfoldable pub own_file : Text → Text → Entry → Option (Text × Text)
unfolding url_path
own_file prefix suffix e = elim (cut prefix (url_path e.url)) [
  | none ↦ none
  | some normalized ↦
      if ends_with suffix (url_path e.url)
      then elim e.source [ none ↦ none | some [] ↦ none | some (c ∷ s) ↦ some (normalized, c ∷ s) ]
      else none
]

pub record Slot : Type 0 where
  pub source : Text
  pub ranges : List Range

-- `by_path.setdefault(key, …)["ranges"].extend(ranges)`
unfoldable pub extend_slot : Text → Text → List Range → List (Text × Slot) → List (Text × Slot)
extend_slot key source ranges [] = (key, record { source = source; ranges = ranges }) ∷ []
extend_slot key source ranges ((k, slot) ∷ slots) =
    let rest = extend_slot key source ranges slots in
    if text_eq k key
    then (k, record slot { ranges = slot.ranges ++ ranges }) ∷ slots
    else (k, slot) ∷ rest

abbrev pub add_entry : Option (Text × Text) → Entry → List (Text × Slot) → List (Text × Slot)
add_entry none e slots = slots
add_entry (some (key, source)) e slots = extend_slot key source (flatten_ranges e.functions) slots

-- The loop of `aggregate_entries`, over the entries of all files.
unfoldable pub aggregate : Text → Text → List (Text × Slot) → List Entry → List (Text × Slot)
unfolding own_file
aggregate prefix suffix slots [] = slots
aggregate prefix suffix slots (e ∷ entries) =
    aggregate prefix suffix (add_entry (own_file prefix suffix e) e slots) entries

-- `aggregate_entries` with its default filters.
unfoldable pub aggregate_entries : List Entry → List (Text × Slot)
unfolding aggregate
aggregate_entries entries = aggregate (codes "/static/") (codes ".mjs") [] entries

-- `s <= t` for texts.
abbrev pub text_leb : Text → Text → Bool
text_leb [] t = true
text_leb (x ∷ s) [] = false
text_leb (x ∷ s) (y ∷ t) = let rest = text_leb s t in if x == y then rest else ltb x y

-- The slots in the order of `sorted(by_path)`.
abbrev pub sorted_slots : List (Text × Slot) → List (Text × Slot)
sorted_slots slots = sort_by (λ a b. text_leb a.0 b.0) slots

-- A line of the report.
pub record ReportRow : Type 0 where
  pub path : Text
  pub hit : ℕ
  pub total : ℕ
  pub missing : Text

unfoldable pub report_row : Text × Slot → ReportRow
report_row (path, slot) =
    let s = summarize slot.source (line_coverage slot.source slot.ranges) in
    record { path = path; hit = s.hit; total = s.total; missing = format_missing s.missing }

-- `render_report`: the rows, then the totals.
abbrev pub total_row : List ReportRow → ℕ × ℕ
total_row [] = (0, 0)
total_row (r ∷ rows) = let (hit, total) = total_row rows in (r.hit + hit, r.total + total)

unfoldable pub render_report : List (Text × Slot) → List ReportRow × (ℕ × ℕ)
unfolding report_row
render_report by_path = let rows = map report_row (sorted_slots by_path) in (rows, total_row rows)
