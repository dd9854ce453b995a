-- ===== src/Play.antt =====
-- web/bot_client.py and the turn of web/play.py: a bot's turn against a human. The HTTP call and the
-- pod lookup are arguments.
pub mod Agreement
pub mod Pages
mod Tests
use june_2026_tictactoe_bots.Prelude.{
  ℕ, Bool, true, false, ◌&&◌, not, Option, none, some, List, [], ◌∷◌, if◌then◌else◌,
}
use june_2026_tictactoe_bots.Text.{Text, strip, splitlines}
use june_2026_tictactoe_bots.Pods.{Attempt, ok, raised, PodStatus}
use june_2026_tictactoe_bots.Engine.{
  Player, Cell, dot, mark, Coords, Board, cell, cell_eq, board_of_rows, changes,
}
use june_2026_tictactoe_bots.Store.{Db, Bot, by_id}

-- `TurnRequest`; its pattern admits just the two symbols.
pub record TurnRequest : Type 0 where
  pub bot_id : ℕ
  pub bot_symbol : Player
  pub board : Text

-- What the body of a reply is: `json.loads` fails on it, it is no object, or an object with the string
-- under "board", if there is one.
pub data Payload : Type 0 where
  not_json : Payload
  not_object : Payload
  object : Option Text → Payload

-- How the HTTP call ends: with a body, with one of the two exceptions that are caught, or with another.
pub data HttpReply : Type 0 where
  body : Payload → HttpReply
  timeout_error : HttpReply
  url_error : HttpReply
  other_error : HttpReply

-- The reasons of `BotForfeit`.
pub data ForfeitReason : Type 0 where
  too_long : ForfeitReason
  unavailable : ForfeitReason
  invalid_move : ForfeitReason

-- The new board's text, a `BotForfeit`, or another exception.
pub data BotTurn : Type 0 where
  new_board : Text → BotTurn
  forfeit : ForfeitReason → BotTurn
  crashed : BotTurn

-- `get_pod_ip` of web/bot_client.py; the lookup raises an ApiException or answers.
unfoldable pub get_pod_ip : (Text → Attempt PodStatus) → Text → Option Text
get_pod_ip read name = elim (read name) [ ok pod ↦ ip_or_none pod.pod_ip | raised ↦ none ]
  where
    ip_or_none : Option Text → Option Text
    ip_or_none none = none
    ip_or_none (some []) = none
    ip_or_none (some (c ∷ s)) = some (c ∷ s)

-- `_parse_board_strict`, which repeats the code of `parse_board`.
unfoldable pub parse_board_strict : Text → Option Board
parse_board_strict text = board_of_rows (splitlines (strip text))

placed : Board → Board → Player → List Coords → Bool
placed old new symbol [] = false
placed old new symbol ((r, c) ∷ []) =
    cell_eq (cell old r c) dot && cell_eq (cell new r c) (mark symbol)
placed old new symbol (k ∷ l ∷ ks) = false

-- `_validate_one_symbol_placed`
unfoldable pub validate_one_symbol_placed : Board → Board → Player → Bool
unfolding placed
validate_one_symbol_placed old new symbol = placed old new symbol (changes old new)

compare_boards : Player → Text → Option Board → Option Board → BotTurn
compare_boards symbol text (some old) (some new) =
    if validate_one_symbol_placed old new symbol then new_board text else forfeit invalid_move
compare_boards symbol text _ _ = forfeit invalid_move

-- `request_bot_turn`, after the HTTP call.
unfoldable pub request_bot_turn : Player → Text → HttpReply → BotTurn
unfolding compare_boards
request_bot_turn symbol board timeout_error = forfeit too_long
request_bot_turn symbol board url_error = forfeit unavailable
request_bot_turn symbol board other_error = crashed
request_bot_turn symbol board (body not_json) = forfeit invalid_move
request_bot_turn symbol board (body not_object) = crashed
request_bot_turn symbol board (body (object none)) = forfeit invalid_move
request_bot_turn symbol board (body (object (some text))) =
    compare_boards symbol text (parse_board_strict board) (parse_board_strict text)

-- The responses of `handle_play_turn`; `server_error` is an exception that leaves it.
pub data PlayResponse : Type 0 where
  not_found : PlayResponse
  json_board : Text → PlayResponse
  json_error : ForfeitReason → PlayResponse
  server_error : PlayResponse

call_bot : (Text → Player → Text → HttpReply) → TurnRequest → Option Text → BotTurn
call_bot post payload none = forfeit unavailable
call_bot post payload (some ip) =
    request_bot_turn payload.bot_symbol payload.board (post ip payload.bot_symbol payload.board)

respond : BotTurn → PlayResponse
respond (new_board text) = json_board text
respond (forfeit reason) = json_error reason
respond crashed = server_error

with_ready_pod :
    (Text → Attempt PodStatus)
    → (Text → Player → Text → HttpReply)
    → TurnRequest
    → Option Text
    → PlayResponse
unfolding call_bot respond
with_ready_pod read post payload none = not_found
with_ready_pod read post payload (some name) =
    respond (call_bot post payload (get_pod_ip read name))

play_with :
    (Text → Attempt PodStatus)
    → (Text → Player → Text → HttpReply)
    → TurnRequest
    → Option Bot
    → PlayResponse
unfolding with_ready_pod
play_with read post payload none = not_found
play_with read post payload (some bot) =
    if not bot.pod_ready then not_found else with_ready_pod read post payload bot.pod_name

-- `handle_play_turn`
unfoldable pub handle_play_turn :
    (Text → Attempt PodStatus)
    → (Text → Player → Text → HttpReply)
    → Db
    → TurnRequest
    → PlayResponse
unfolding play_with
handle_play_turn read post db payload = play_with read post payload (by_id db payload.bot_id)
