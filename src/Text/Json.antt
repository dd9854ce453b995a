-- ===== src/Text/Json.antt =====
-- JSON objects as `json.loads` gives them, as far as the program reads them.
use june_2026_tictactoe_bots.Prelude.{Option, none, some, List, [], ◌∷◌, if◌then◌else◌}
use june_2026_tictactoe_bots.Text.{Text, text_eq}

-- What `json.loads` makes of a body. The values of an object are strings or null (`none`).
pub data Json : Type 0 where
  object : List (Text × Option Text) → Json
  other_value : Json

-- `payload[key]`; `none` is the KeyError.
unfoldable pub item : Text → List (Text × Option Text) → Option (Option Text)
item key [] = none
item key ((k, v) ∷ items) = if text_eq k key then some v else item key items
