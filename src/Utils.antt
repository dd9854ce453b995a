-- ===== src/Utils.antt =====
-- web/utils.py and web/runtimes.py: the fields of a bot's docstring, versioned names, and the grouping
-- of matches. `ast.parse` and the cookie's JSON codec are arguments.
pub mod Fields
pub mod Grouping
mod Tests
use june_2026_tictactoe_bots.Prelude.{
  ℕ, zero, suc, ◌+◌, Bool, true, false, ◌&&◌, ◌||◌, not, Option, none, some, List, [], ◌∷◌, ◌++◌,
  map, reverse, length, keep, first, any, leb, ◌==◌, if◌then◌else◌,
}
use june_2026_tictactoe_bots.Text.{Text, text_eq, codes, strip, splitlines, starts_with, decimal}

-- The first statement of a module: a bare string, or anything else.
pub data Statement : Type 0 where
  string_expr : Text → Statement
  other_statement : Statement

-- What `ast.parse` gives for a source.
pub data Source : Type 0 where
  syntax_error : Source
  body : List Statement → Source

-- The string that a module begins with.
unfoldable pub docstring : Source → Option Text
docstring syntax_error = none
docstring (body []) = none
docstring (body (string_expr s ∷ rest)) = some s
docstring (body (other_statement ∷ rest)) = none

abbrev pub lower_code : ℕ → ℕ
lower_code c = if leb 65 c && leb c 90 then c + 32 else c

-- `s.lower().startswith(prefix)` for a prefix of small letters and a colon: no code point beyond
-- ASCII has one of their letters as its lower case.
abbrev pub starts_with_lower : Text → Text → Bool
starts_with_lower prefix s = starts_with prefix (map lower_code s)

abbrev pub drop : ℕ → Text → Text
drop zero s = s
drop (suc n) [] = []
drop (suc n) (c ∷ s) = drop n s

-- `stripped[len(prefix):].strip()`
abbrev pub field_value : Text → Text → Text
field_value prefix line = strip (drop (length prefix) (strip line))

abbrev pub has_field : Text → Text → Bool
has_field prefix line = starts_with_lower prefix (strip line)

abbrev pub non_empty : Text → Option Text
non_empty [] = none
non_empty (c ∷ s) = some (c ∷ s)

-- The loop of `extract_bot_name` returns at the first line with the field.
unfoldable pub name_in : List Text → Option Text
name_in [] = none
name_in (line ∷ lines) =
    if has_field (codes "name:") line
    then non_empty (field_value (codes "name:") line)
    else name_in lines

unfoldable pub extract_bot_name : Source → Option Text
unfolding name_in docstring
extract_bot_name source = elim (docstring source) [ none ↦ none | some s ↦ name_in (splitlines s) ]

-- The keys of `RUNTIMES`, in its order.
abbrev pub runtime_keys : List Text
runtime_keys =
    codes "python-3.10"
    ∷ codes "python-3.11"
    ∷ codes "python-3.12"
    ∷ codes "python-3.13"
    ∷ codes "python-3.14"
    ∷ []

abbrev pub default_runtime_key : Text
default_runtime_key = codes "python-3.14"

abbrev pub in_runtimes : Text → Bool
in_runtimes key = any (text_eq key) runtime_keys

-- The two variables of the loop in `extract_runtime_key`.
pub record Declared : Type 0 where
  pub language_key : Option Text
  pub python_ver : Option Text

unfoldable pub declare_line : Declared → Text → Declared
declare_line d line =
    if has_field (codes "language:") line
    then record d { language_key = some (field_value (codes "language:") line) }
    else if has_field (codes "python:") line
    then record d { python_ver = some (field_value (codes "python:") line) }
    else d

unfoldable pub declared_in : Declared → List Text → Declared
unfolding declare_line
declared_in d [] = d
declared_in d (line ∷ lines) = declared_in (declare_line d line) lines

abbrev pub if_known : Text → Option Text
if_known key = if in_runtimes key then some key else none

-- The tests behind the loop.
unfoldable pub choose_runtime : Option Text → Option Text → Option Text
choose_runtime (some key) python_ver = if_known key
choose_runtime none (some ver) = if_known (codes "python-" ++ ver)
choose_runtime none none = some default_runtime_key

unfoldable pub extract_runtime_key : Source → Option Text
unfolding docstring declared_in choose_runtime
extract_runtime_key source = elim (docstring source) [
  | none ↦ none
  | some s ↦
      let d = declared_in (record { language_key = none; python_ver = none }) (splitlines s) in
      choose_runtime d.language_key d.python_ver
]

-- `_python_version_from_runtime_key`
unfoldable pub python_version_from_runtime_key : Text → Text
python_version_from_runtime_key key = if starts_with (codes "python-") key then drop 7 key else key

-- `extract_python_version`
unfoldable pub extract_python_version : Source → Option Text
extract_python_version source = elim (extract_runtime_key source) [
  | none ↦ none
  | some key ↦ if starts_with (codes "python-") key then some (drop 7 key) else none
]

-- `versioned_name`
unfoldable pub versioned_name : Text → ℕ → Text
versioned_name base_name version =
    if version == 1 then base_name else base_name ++ 86 ∷ decimal version

-- The columns of a match row that `group_matches_by_version` reads, with a tag for the rest.
pub record NamedMatch : Type 0 where
  pub bot_x : Text
  pub bot_o : Text
  pub match_id : ℕ

abbrev pub Groups : Type 0
Groups = List (Text × List NamedMatch)

-- `grouped[name].append(m)` for a name that is a key.
unfoldable pub append_to : Text → NamedMatch → Groups → Groups
append_to name m [] = []
append_to name m ((key, ms) ∷ rest) =
    if text_eq key name then (key, ms ++ m ∷ []) ∷ rest else (key, ms) ∷ append_to name m rest

unfoldable pub group_one : List Text → Groups → NamedMatch → Groups
unfolding append_to
group_one names grouped m =
    let first_side = if any (text_eq m.bot_x) names then append_to m.bot_x m grouped else grouped in
    if any (text_eq m.bot_o) names && not (text_eq m.bot_o m.bot_x)
    then append_to m.bot_o m first_side
    else first_side

unfoldable pub group_all : List Text → Groups → List NamedMatch → Groups
unfolding group_one
group_all names grouped [] = grouped
group_all names grouped (m ∷ ms) = group_all names (group_one names grouped m) ms

-- `group_matches_by_version`, on the distinct versioned names of a family.
unfoldable pub group_matches_by_version : List Text → List NamedMatch → Groups
unfolding group_all
group_matches_by_version names ms = group_all names (map (λ name. (name, [])) names) ms
