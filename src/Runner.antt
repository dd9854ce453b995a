-- ===== src/Runner.antt =====
-- bot-runner-images/python/turn_server.py: the HTTP server of a bot's pod, from the request to the
-- reply; and `request_turn` of dispatcher/pods.py, which calls it.
pub mod Serving
mod Tests
use june_2026_tictactoe_bots.Prelude.{
  ℕ, ◌++◌, Bool, true, false, ◌&&◌, Option, none, some, List, [], ◌∷◌, ltb, leb, if◌then◌else◌,
}
use june_2026_tictactoe_bots.Text.{Text, codes, text_eq, strip, decimal}
use june_2026_tictactoe_bots.Text.Base64.{b64decode}
use june_2026_tictactoe_bots.Text.Json.{Json, object, other_value, item}
use june_2026_tictactoe_bots.Pods.{TurnResponse}
use june_2026_tictactoe_bots.Engine.{Player, cross, nought, Board, board_to_str}
use june_2026_tictactoe_bots.Match.{Call, answered, url_error, failed, Turn, play_turn}

-- How `subprocess.run` ends: with both outputs, after its ten seconds, or with another exception.
pub data Process : Type 0 where
  finished : Text → Text → Process
  timeout_expired : Process
  broken : Text → Process

-- A reply; the body is `none` where it is not JSON.
pub record Reply : Type 0 where
  pub status : ℕ
  pub phrase : Text
  pub body : Option Json

-- `{key: value}`
abbrev pub just : Text → Text → Json
just key value = object ((key, some value) ∷ [])

-- `f": {stderr}" if stderr else ""`
detail : Text → Text
detail [] = []
detail (c ∷ s) = codes ": " ++ c ∷ s

read_output : Text → Text → Json
unfolding detail
read_output [] stderr =
    just (codes "error") (codes "invalid output: empty response" ++ detail stderr)
read_output (c ∷ s) stderr = just (codes "board") (c ∷ s)

unfoldable pub result_of : Process → Json
unfolding read_output
result_of (finished stdout stderr) = read_output (strip stdout) (strip stderr)
result_of timeout_expired = just (codes "error") (codes "timeout after 10s")
result_of (broken exc) = just (codes "error") (codes "runtime error: " ++ exc)

-- `_run_bot`, where `execute` runs the bot's source on the text of its standard input.
unfoldable pub run_bot : (Text → Process) → Text → Text → Json
unfolding result_of
run_bot execute symbol board = result_of (execute (symbol ++ 10 ∷ board))

abbrev pub success : Option Json → Reply
success body = record { status = 200; phrase = codes "OK"; body = body }

abbrev pub not_found : Reply
not_found = record { status = 404; phrase = codes "Not Found"; body = none }

-- The body "ok" of the health check is not JSON.
unfoldable pub do_get : Text → Reply
do_get path = if text_eq path (codes "/health") then success none else not_found

-- What an f-string prints of a value.
abbrev pub printed : Option Text → Text
printed none = codes "None"
printed (some s) = s

bad_request : Text → Reply
bad_request exc = record {
  status = 400;
  phrase = codes "Bad Request";
  body = some (just (codes "error") (codes "bad request: " ++ exc));
}

run_for : (Text → Process) → Text → Option (Option Text) → Option (Option Text) → Reply
unfolding bad_request
run_for execute exc (some symbol) (some board) =
    success (some (run_bot execute (printed symbol) (printed board)))
run_for execute exc _ _ = bad_request exc

-- The payload of a turn; `exc` is the text of the exception that the parsing raised, if it did.
serve_turn : (Text → Process) → Text → Option Json → Reply
unfolding run_for
serve_turn execute exc (some (object items)) =
    run_for execute exc (item (codes "symbol") items) (item (codes "board") items)
serve_turn execute exc _ = bad_request exc

unfoldable pub do_post : (Text → Process) → Text → Text → Option Json → Reply
unfolding serve_turn
do_post execute exc path body =
    if text_eq path (codes "/turn") then serve_turn execute exc body else not_found

abbrev pub symbol_text : Player → Text
symbol_text cross = codes "X"
symbol_text nought = codes "O"

-- The body of `request_turn`'s request.
abbrev pub turn_payload : Player → Text → Json
turn_payload p board =
    object ((codes "symbol", some (symbol_text p)) ∷ (codes "board", some board) ∷ [])

-- How the HTTP exchange ends: with a reply, a `URLError` before it, or another exception.
pub data Exchange : Type 0 where
  replied : Reply → Exchange
  unreachable : Text → Exchange
  broken_off : Exchange

-- `data.get(key)`
abbrev pub get_item : Text → List (Text × Option Text) → Option Text
get_item key items = elim (item key items) [ none ↦ none | some v ↦ v ]

read_turn : Option Json → Call
read_turn (some (object items)) =
    answered
      (record { board = get_item (codes "board") items; error = get_item (codes "error") items })
read_turn _ = failed

-- `request_turn`, after the request: `urlopen` raises an `HTTPError`, which is a `URLError`, for a
-- status outside of 200 to 299.
unfoldable pub request_turn : Exchange → Call
unfolding read_turn
request_turn (replied r) =
    if leb 200 r.status && ltb r.status 300
    then read_turn r.body
    else url_error (codes "HTTP Error " ++ decimal r.status ++ codes ": " ++ r.phrase)
request_turn (unreachable exc) = url_error exc
request_turn broken_off = failed

-- The turn of a match whose bot is served by this server: `execute` is the bot.
unfoldable pub served_turn : (Text → Process) → Board → Player → Turn
served_turn execute board p = play_turn board p (
    request_turn
      (replied (do_post execute [] (codes "/turn") (some (turn_payload p (board_to_str board))))))

unfoldable pub decoded : Text → Option Text
decoded [] = some []
decoded (c ∷ s) = b64decode (c ∷ s)

-- `main`: the source that the server runs, from the variables of its process; `none` is the exception
-- of the decoding, with which the server does not start.
unfoldable pub startup_source : (Text → Option Text) → Option Text
unfolding decoded
startup_source environ =
    decoded (elim (environ (codes "SOURCE_B64")) [ none ↦ [] | some value ↦ value ])
