-- ===== src/Scripts/Merging.antt =====
-- `aggregate_entries` of js_coverage_report.py, file by file.
use june_2026_tictactoe_bots.Prelude.{
  append_assoc, append-nil, ◌≡◌, refl, sym, ◌∙◌, ap, true, false, Option, none, some, List, [], ◌∷◌,
  ◌++◌, if◌then◌else◌, Bool-cases, inl, inr,
}
use june_2026_tictactoe_bots.Text.{Text, codes, text_eq}
use june_2026_tictactoe_bots.Text.Laws.{text_eq_refl, eq_of_text_eq}
use june_2026_tictactoe_bots.Scripts.Coverage.{Range, Entry, flatten_ranges}
use june_2026_tictactoe_bots.Scripts.Report.{
  own_file, Slot, extend_slot, add_entry, aggregate, aggregate_entries,
}

-- The ranges in the slot of a path.
unfoldable pub ranges_at : Text → List (Text × Slot) → List Range
ranges_at key [] = []
ranges_at key ((k, slot) ∷ slots) =
    let rest = ranges_at key slots in if text_eq k key then slot.ranges else rest

-- The ranges of an entry, where it is one of the file.
abbrev pub own_ranges : Text → Option (Text × Text) → Entry → List Range
own_ranges key none e = []
own_ranges key (some (k, source)) e = if text_eq k key then flatten_ranges e.functions else []

-- The ranges of the file in all entries, one entry after the other.
unfoldable pub ranges_of : Text → Text → Text → List Entry → List Range
ranges_of prefix suffix key [] = []
ranges_of prefix suffix key (e ∷ entries) =
    own_ranges key (own_file prefix suffix e) e ++ ranges_of prefix suffix key entries

other_key : (j k key : Text) → text_eq j k ≡ false → text_eq j key ≡ true → text_eq k key ≡ false
other_key j k key e f = elim (Bool-cases (text_eq k key)) [
  | inr g ↦ g
  | inl g ↦
      let same : j ≡ k = eq_of_text_eq j key f ∙ sym (eq_of_text_eq k key g) in
      cc (sym e ∙ ap (text_eq j) (sym same) ∙ text_eq_refl j)
]

ranges_at-extend_slot :
    (key k source : Text) (ranges : List Range) (slots : List (Text × Slot))
    → ranges_at key (extend_slot k source ranges slots)
      ≡ ranges_at key slots ++ (if text_eq k key then ranges else [])
unfolding ranges_at extend_slot
ranges_at-extend_slot key k source ranges [] = refl
ranges_at-extend_slot key k source ranges ((j, slot) ∷ slots) = elim (Bool-cases (text_eq j k)) [
  | inl e ↦
      let same = eq_of_text_eq j k e in
      elim (Bool-cases (text_eq k key)) [
        | inl f ↦ rw (e, same, f) refl
        | inr f ↦ rw (e, same, f) (sym (append-nil (ranges_at key slots)))
      ]
  | inr e ↦ elim (Bool-cases (text_eq j key)) [
    | inl f ↦
        let apart : text_eq k key ≡ false = other_key j k key e f in
        rw (e, f, apart) (sym (append-nil slot.ranges))
    | inr f ↦ rw (e, f) (ranges_at-extend_slot key k source ranges slots)
  ]
]

ranges_at-add_entry :
    (key : Text) (file : Option (Text × Text)) (e : Entry) (slots : List (Text × Slot))
    → ranges_at key (add_entry file e slots) ≡ ranges_at key slots ++ own_ranges key file e
ranges_at-add_entry key none e slots = sym (append-nil (ranges_at key slots))
ranges_at-add_entry key (some (k, source)) e slots =
    ranges_at-extend_slot key k source (flatten_ranges e.functions) slots

ranges_at-aggregate :
    (prefix suffix key : Text) (entries : List Entry) (slots : List (Text × Slot))
    → ranges_at key (aggregate prefix suffix slots entries)
      ≡ ranges_at key slots ++ ranges_of prefix suffix key entries
unfolding aggregate ranges_of
ranges_at-aggregate prefix suffix key [] slots = sym (append-nil (ranges_at key slots))
ranges_at-aggregate prefix suffix key (e ∷ entries) slots =
    let file : Option (Text × Text) = own_file prefix suffix e in
    ranges_at-aggregate prefix suffix key entries (add_entry file e slots)
    ∙ ap (λ l. l ++ ranges_of prefix suffix key entries) (ranges_at-add_entry key file e slots)
    ∙ append_assoc (ranges_at key slots) (own_ranges key file e)
        (ranges_of prefix suffix key entries)

-- The slot of a file holds the ranges of all entries of this file, in the order of the entries, and
-- those of no other file; an entry that is filtered out adds none.
pub aggregate_entries-ranges_of :
    (key : Text) (entries : List Entry)
    → ranges_at key (aggregate_entries entries)
      ≡ ranges_of (codes "/static/") (codes ".mjs") key entries
unfolding aggregate_entries ranges_at
aggregate_entries-ranges_of key entries =
    ranges_at-aggregate (codes "/static/") (codes ".mjs") key entries []
