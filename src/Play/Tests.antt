-- ===== src/Play/Tests.antt =====
-- Runs of the play page.
use june_2026_tictactoe_bots.Prelude.{◌≡◌, refl, true, none, some, [], ◌∷◌}
use june_2026_tictactoe_bots.Text.{Text, codes, is_space, is_break}
use june_2026_tictactoe_bots.Pods.{Attempt, ok, PodStatus}
use june_2026_tictactoe_bots.Engine.{
  Player, cross, Board, empty_board, i1, set_cell, mark, parse_row, board_of_rows, changes,
}
use june_2026_tictactoe_bots.Store.{Bot, Db, by_id}
use june_2026_tictactoe_bots.Play.{
  TurnRequest, HttpReply, body, object, new_board, get_pod_ip, parse_board_strict, placed,
  validate_one_symbol_placed, compare_boards, request_bot_turn, json_board, call_bot, respond,
  with_ready_pod, play_with, handle_play_turn,
}
use june_2026_tictactoe_bots.Play.Agreement.{
  IsLegalReply, request_bot_turn-IsLegalReply, handle_play_turn-IsLegalReply,
}

-- X in the centre.
abbrev centre : Board
centre = set_cell empty_board i1 i1 (mark cross)

abbrev centre_reply : HttpReply
centre_reply = body (object (some (codes ".|.|.\n.|X|.\n.|.|.")))

abbrev alice : Bot
alice = record {
  id = 1;
  base_name = codes "alice";
  versioned_name = codes "alice";
  version = 1;
  owner_token = codes "a1";
  source = none;
  python_version = codes "3.12";
  runtime_key = codes "python-3.12";
  pod_name = some (codes "bot-1");
  pod_ready = true;
  submitted_at = 0;
}

abbrev db : Db
db = record {
  bots = alice ∷ [];
  matches = [];
  moves = [];
  next_bot_id = 2;
  next_match_id = 1;
  now = 0;
}

abbrev running : Text → Attempt PodStatus
running name = ok (record {
  phase = codes "Running";
  container_ready = true ∷ [];
  pod_ip = some (codes "10.0.0.1");
})

abbrev post : Text → Player → Text → HttpReply
post ip symbol board = centre_reply

abbrev turn : TurnRequest
turn = record { bot_id = 1; bot_symbol = cross; board = codes ".|.|.\n.|.|.\n.|.|." }

request_bot_turn_runs :
    request_bot_turn cross turn.board centre_reply ≡ new_board (codes ".|.|.\n.|X|.\n.|.|.")
unfolding request_bot_turn compare_boards parse_board_strict board_of_rows parse_row is_space
    is_break validate_one_symbol_placed placed changes
request_bot_turn_runs = refl

request_bot_turn-IsLegalReply_example : IsLegalReply cross turn.board (codes ".|.|.\n.|X|.\n.|.|.")
request_bot_turn-IsLegalReply_example =
    request_bot_turn-IsLegalReply cross turn.board (codes ".|.|.\n.|X|.\n.|.|.") centre_reply
      request_bot_turn_runs

handle_play_turn_runs :
    handle_play_turn running post db turn ≡ json_board (codes ".|.|.\n.|X|.\n.|.|.")
unfolding handle_play_turn play_with with_ready_pod by_id call_bot respond get_pod_ip
    request_bot_turn compare_boards parse_board_strict board_of_rows parse_row is_space is_break
    validate_one_symbol_placed placed changes
handle_play_turn_runs = refl

handle_play_turn-IsLegalReply_example :
    ((bot : Bot) × ((name : Text) × (by_id db 1 ≡ some bot)
        × (bot.pod_ready ≡ true)
        × (bot.pod_name ≡ some name)))
    × IsLegalReply cross turn.board (codes ".|.|.\n.|X|.\n.|.|.")
handle_play_turn-IsLegalReply_example =
    handle_play_turn-IsLegalReply running post db turn (codes ".|.|.\n.|X|.\n.|.|.")
      handle_play_turn_runs

alice_found : by_id db 1 ≡ some alice
unfolding by_id
alice_found = refl
