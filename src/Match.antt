-- ===== src/Match.antt =====
-- dispatcher/match_runner.py: one turn, and the game loop over the bots' answers.
pub mod Turns
pub mod Rules
pub mod Legal
mod Tests
use june_2026_tictactoe_bots.Prelude.{
  ℕ, zero, suc, ◌≡◌, Bool, true, false, ◌||◌, not, Option, none, some, List, [], ◌∷◌, ◌++◌,
  if◌then◌else◌,
}
use june_2026_tictactoe_bots.Text.{Text}
use june_2026_tictactoe_bots.Pods.{
  TurnResponse, is_truthy, Attempt, ok, raised, PodStatus, get_pod_ip,
}
use june_2026_tictactoe_bots.Engine.{
  Player, cross, nought, other, Board, empty_board, MatchOutcome, x_forfeit, o_forfeit, MoveError,
  Move, MatchResult, board_to_str, parse_board, check_winner, validate_move,
}

-- The forfeit messages of `_play_turn`, with the values that they print.
pub data Reason : Type 0 where
  bot_error : Text → Reason
  no_output : Reason
  unparseable : Text → Reason
  illegal : MoveError → Reason
  http_error : Text → Reason

-- How a call of `request_turn` ends: with a reply, with a `URLError`, or with any other exception,
-- which `_play_turn` does not catch.
pub data Call : Type 0 where
  answered : TurnResponse → Call
  url_error : Text → Call
  failed : Call

-- `(new_board, None)`, `(None, forfeit_error)`, or the exception that leaves the function.
pub data Turn : Type 0 where
  accepted : Board → Turn
  forfeited : Reason → Turn
  crashed : Turn

abbrev pub forfeit_label : Player → MatchOutcome
forfeit_label cross = x_forfeit
forfeit_label nought = o_forfeit

-- `error or "no output"`
abbrev error_or_no_output : Option Text → Reason
error_or_no_output none = no_output
error_or_no_output (some []) = no_output
error_or_no_output (some (c ∷ s)) = bot_error (c ∷ s)

judged : Board → Option MoveError → Turn
judged new (some e) = forfeited (illegal e)
judged new none = accepted new

parsed : Board → Player → Text → Option Board → Turn
unfolding judged
parsed board symbol text none = forfeited (unparseable text)
parsed board symbol text (some new) = judged new (validate_move board new symbol)

read_reply : Board → Player → Option Text → Option Text → Turn
unfolding parsed
read_reply board symbol error none = forfeited (error_or_no_output error)
read_reply board symbol error (some text) =
    if is_truthy error || not (is_truthy (some text))
    then forfeited (error_or_no_output error)
    else parsed board symbol text (parse_board text)

-- `_play_turn`, after the call to the pod.
unfoldable pub play_turn : Board → Player → Call → Turn
unfolding read_reply
play_turn board symbol (answered r) = read_reply board symbol r.error r.board
play_turn board symbol (url_error exc) = forfeited (http_error exc)
play_turn board symbol failed = crashed

-- `n` turns of `itertools.cycle(turns)`, numbered by `enumerate`.
abbrev pub turns_from : ℕ → Player → ℕ → List (ℕ × Player)
turns_from number p zero = []
turns_from number p (suc n) = (number, p) ∷ turns_from (suc number) (other p) n

-- How a match ends; `no_result` is the None of a loop that runs out of turns.
pub data Run : Type 0 where
  returned : MatchResult Reason → Run
  no_result : Run
  crashed : Run

-- The bots' answers: by the number of the move, the pod's address, the symbol and the text sent.
abbrev pub Bots : Type 0
Bots = ℕ → Text → Player → Text → Call

abbrev pub played : ℕ → Player → Board → Move Reason
played number p b = record {
  move_number = number;
  player = p;
  board = board_to_str b;
  error = none;
}

abbrev pub refused : ℕ → Player → Board → Reason → Move Reason
refused number p b e = record {
  move_number = number;
  player = p;
  board = board_to_str b;
  error = some e;
}

abbrev pub ip_of : Text → Text → Player → Text
ip_of ip_x ip_o cross = ip_x
ip_of ip_x ip_o nought = ip_o

-- The game loop over the turns that are left, from a board and the moves so far.
unfoldable pub game_loop :
    Bots → (Player → Text) → List (ℕ × Player) → Board → List (Move Reason) → Run
game_loop bots ip [] board moves = no_result
game_loop bots ip ((number, p) ∷ turns) board moves =
    elim (play_turn board p (bots number (ip p) p (board_to_str board))) [
      | crashed ↦ crashed
      | forfeited e ↦
          returned
            (record { result = forfeit_label p; moves = moves ++ refused number p board e ∷ [] })
      | accepted new ↦ elim (check_winner new) [
        | some outcome ↦
            returned (record { result = outcome; moves = moves ++ played number p new ∷ [] })
        | none ↦ game_loop bots ip turns new (moves ++ played number p new ∷ [])
      ]
    ]

-- Both addresses are looked up before the first turn.
unfoldable pub run_match_from_pods : (Text → Attempt PodStatus) → Bots → Text → Text → Run
unfolding game_loop
run_match_from_pods read bots pod_x pod_o = elim (get_pod_ip read pod_x) [
  | raised ↦ crashed
  | ok ip_x ↦ elim (get_pod_ip read pod_o) [
    | raised ↦ crashed
    | ok ip_o ↦ game_loop bots (ip_of ip_x ip_o) (turns_from 1 cross 9) empty_board []
  ]
]
