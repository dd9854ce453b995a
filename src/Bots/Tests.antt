-- ===== src/Bots/Tests.antt =====
-- Runs of the bots.
use june_2026_tictactoe_bots.Prelude.{◌≡◌, refl, true, none, some, [], ◌∷◌, here, there}
use june_2026_tictactoe_bots.Text.{Text, codes}
use june_2026_tictactoe_bots.Pods.{Attempt, ok, PodStatus, require_ip, get_pod_ip}
use june_2026_tictactoe_bots.Engine.{
  check_winner, scan_lines, cross, nought, Board, empty_board, i0, i2, set_cell, mark,
}
use june_2026_tictactoe_bots.Engine.Winning.{check_winner-empty_board, IsOpen-board}
use june_2026_tictactoe_bots.Engine.Judging.{IsMove}
use june_2026_tictactoe_bots.Match.{accepted, play_turn, run_match_from_pods}
use june_2026_tictactoe_bots.Bots.{defense_only, offense_only, reply}
use june_2026_tictactoe_bots.Bots.Legality.{
  defense_only-PlaysFree, offense_only-PlaysFree, honest_bots-IsMove,
}
use june_2026_tictactoe_bots.Bots.Perfect.{minimax}
use june_2026_tictactoe_bots.Bots.Value.{is_nonneg, is_safe, minimax-is_safe}
use june_2026_tictactoe_bots.Bots.Unbeaten.{perfect_against, IsNotLost, perfect_v2-IsNotLost}
use june_2026_tictactoe_bots.Bots.Honest.{bots_of, EndsOnTheBoard, honest_match}

-- X has two cells of the first row.
abbrev two_marks : Board
two_marks = set_cell (set_cell empty_board i0 i0 (mark cross)) i0 i2 (mark cross)

two_marks-open : check_winner two_marks ≡ none
unfolding check_winner scan_lines
two_marks-open = refl

honest_bots-IsMove_example :
    (new : Board) × (play_turn empty_board cross
        (reply cross empty_board (offense_only cross empty_board))
      ≡ accepted new)
    × IsMove empty_board new cross
honest_bots-IsMove_example =
    honest_bots-IsMove offense_only (there (here refl)) cross empty_board
      (IsOpen-board empty_board check_winner-empty_board)

abbrev running : Text → Attempt PodStatus
running name = ok (record {
  phase = codes "Running";
  container_ready = true ∷ [];
  pod_ip = some (codes "10.0.0.1");
})

running_ip : get_pod_ip running (codes "bot-1") ≡ ok (codes "10.0.0.1")
unfolding get_pod_ip require_ip
running_ip = refl

running_ip_2 : get_pod_ip running (codes "bot-2") ≡ ok (codes "10.0.0.1")
unfolding get_pod_ip require_ip
running_ip_2 = refl

honest_match_example : EndsOnTheBoard (
    run_match_from_pods running (bots_of defense_only offense_only) (codes "bot-1") (codes "bot-2"))
honest_match_example =
    honest_match defense_only offense_only defense_only-PlaysFree offense_only-PlaysFree running
      (codes "bot-1") (codes "bot-2") running_ip running_ip_2

perfect_v2-IsNotLost_example : IsNotLost nought (
    run_match_from_pods running
      (perfect_against nought (bots_of offense_only offense_only))
      (codes "bot-1")
      (codes "bot-2"))
perfect_v2-IsNotLost_example =
    perfect_v2-IsNotLost nought (bots_of offense_only offense_only) running (codes "bot-1")
      (codes "bot-2")

minimax-is_safe_example :
    is_nonneg (minimax true 9 nought two_marks cross).0 ≡ is_safe 9 nought two_marks cross
minimax-is_safe_example = minimax-is_safe 9 nought two_marks cross
