-- ===== src/Messaging/Routing.antt =====
-- messaging/routing.py: the runtime of a match between two bots, and the queue of a version. `int` of a
-- text is an argument, with its numbers and their order; it raises where it gives `none`.
use june_2026_tictactoe_bots.Prelude.{
  Bool, true, false, Option, none, some, List, [], ◌∷◌, ◌++◌, keep, not, ◌==◌, if◌then◌else◌,
}
use june_2026_tictactoe_bots.Text.{Text, codes, starts_with, split}
use june_2026_tictactoe_bots.Utils.{drop}

module _ {Number : Type 0} (at_most : Number → Number → Bool) where
  -- `s <= t` of tuples.
  unfoldable pub tuple_at_most : List Number → List Number → Bool
  tuple_at_most [] t = true
  tuple_at_most (m ∷ s) [] = false
  tuple_at_most (m ∷ s) (n ∷ t) =
      let rest = tuple_at_most s t in
      if at_most m n then if at_most n m then rest else true else false

  unfoldable pub pick_key : Text → Text → List Number → List Number → Text
  unfolding tuple_at_most
  pick_key a b [] tb = a
  pick_key a b (m ∷ s) [] = a
  pick_key a b (m ∷ s) (n ∷ t) = if tuple_at_most (n ∷ t) (m ∷ s) then a else b

module _ {Number : Type 0} (int : Text → Option Number) where
  abbrev consed : Option Number → Option (List Number) → Option (List Number)
  consed (some n) (some ns) = some (n ∷ ns)
  consed _ _ = none

  -- `tuple(int(x) for x in parts)`
  abbrev numbers : List Text → Option (List Number)
  numbers [] = some []
  numbers (p ∷ ps) = consed (int p) (numbers ps)

  abbrev or_empty : Option (List Number) → List Number
  or_empty none = []
  or_empty (some ns) = ns

  -- `parse` of `pick_python_version`; the full stop is code point 46.
  unfoldable pub parse_version : Text → List Number
  parse_version v = or_empty (numbers (split 46 v))

  -- `python_tuple` of `pick_runtime_key`
  unfoldable pub python_tuple : Text → List Number
  unfolding parse_version
  python_tuple key = if starts_with (codes "python-") key then parse_version (drop 7 key) else []

module _ {Number : Type 0} (int : Text → Option Number) (at_most : Number → Number → Bool) where
  -- `pick_runtime_key`
  unfoldable pub pick_runtime_key : Text → Text → Text
  unfolding pick_key python_tuple
  pick_runtime_key a b = pick_key at_most a b (python_tuple int a) (python_tuple int b)

  -- `pick_python_version`: `max` takes the second only if its key is greater.
  unfoldable pub pick_python_version : Text → Text → Text
  unfolding parse_version tuple_at_most
  pick_python_version a b =
      if tuple_at_most at_most (parse_version int b) (parse_version int a) then a else b

-- `turn_queue_for`
unfoldable pub turn_queue_for : Text → Text
turn_queue_for python_version =
    codes "turn.py" ++ keep (λ c. not (c == 46)) python_version ++ codes ".requests"
