-- ===== src/Runner/Serving.antt =====
-- A turn through the server and its client: what of the bot's output reaches the match.
use june_2026_tictactoe_bots.Prelude.{◌≡◌, some, ◌∷◌, ◌++◌}
use june_2026_tictactoe_bots.Text.{Text, strip}
use june_2026_tictactoe_bots.Engine.{Player, Board, board_to_str, parse_board}
use june_2026_tictactoe_bots.Engine.Judging.{IsMove}
use june_2026_tictactoe_bots.Runner.{Process, finished, symbol_text}

-- The standard input of the bot.
abbrev pub turn_input : Player → Board → Text
turn_input p board = symbol_text p ++ 10 ∷ board_to_str board

-- What the bot must print for its turn to be accepted as `new`.
abbrev pub Prints : Board → Board → Player → Process → Type 0
Prints board new p r =
    (out : Text) × (err : Text) × (r ≡ finished out err)
    × (parse_board (strip out) ≡ some new)
    × IsMove board new p
