-- ===== src/Match/Tests.antt =====
-- Runs of dispatcher/match_runner.py.
use june_2026_tictactoe_bots.Prelude.{
  ℕ, ◌≡◌, ◌≢◌, refl, true, Option, none, some, [], ◌∷◌, ◌==◌, if◌then◌else◌,
}
use june_2026_tictactoe_bots.Text.{Text, codes}
use june_2026_tictactoe_bots.Pods.{Attempt, ok, PodStatus, require_ip, get_pod_ip}
use june_2026_tictactoe_bots.Engine.{
  Player, cross, Board, empty_board, x_forfeit, Coords, i0, i1, i2, set_cell, mark, parse_board,
}
use june_2026_tictactoe_bots.Match.{
  Reason, http_error, Call, url_error, failed, turns_from, Bots, refused, run_match_from_pods,
}
use june_2026_tictactoe_bots.Match.Turns.{reply_with}
use june_2026_tictactoe_bots.Match.Rules.{Game, forfeits, Game-turns}
use june_2026_tictactoe_bots.Match.Legal.{
  IsSound, HasResult, run_match_from_pods-IsSound, run_match_from_pods-HasResult,
}

abbrev running : Text → Attempt PodStatus
running name = ok (record {
  phase = codes "Running";
  container_ready = true ∷ [];
  pod_ip = some (codes "10.0.0.1");
})

-- X takes the first column and O the second one, by the number of the move.
abbrev script : ℕ → Coords
script number =
    if number == 1
    then (i0, i0)
    else if number == 2
    then (i0, i1)
    else if number == 3
    then (i1, i0)
    else if number == 4
    then (i1, i1)
    else (i2, i0)

abbrev scripted_move : ℕ → Player → Option Board → Call
scripted_move number p none = url_error (codes "bad board")
scripted_move number p (some b) =
    reply_with (set_cell b (script number).0 (script number).1 (mark p))

abbrev scripted : Bots
scripted number address p text = scripted_move number p (parse_board text)

scripted_calm : (b : Option Board) (number : ℕ) (p : Player) → scripted_move number p b ≢ failed
scripted_calm none number p e = cc
scripted_calm (some b) number p e = cc

running_ip : get_pod_ip running (codes "bot-1") ≡ ok (codes "10.0.0.1")
unfolding get_pod_ip require_ip
running_ip = refl

running_ip_2 : get_pod_ip running (codes "bot-2") ≡ ok (codes "10.0.0.1")
unfolding get_pod_ip require_ip
running_ip_2 = refl

run_match_from_pods-IsSound_example :
    IsSound (run_match_from_pods running scripted (codes "bot-1") (codes "bot-2"))
run_match_from_pods-IsSound_example =
    run_match_from_pods-IsSound running scripted (codes "bot-1") (codes "bot-2")

run_match_from_pods-HasResult_example :
    HasResult (run_match_from_pods running scripted (codes "bot-1") (codes "bot-2"))
run_match_from_pods-HasResult_example =
    run_match_from_pods-HasResult running scripted (codes "bot-1") (codes "bot-2") running_ip
      running_ip_2 (λ k address q text. scripted_calm (parse_board text) k q)

-- X makes no reply in the first turn.
abbrev timeout : Reason
timeout = http_error (codes "timed out")

first_turn : Game 1 cross empty_board (refused 1 cross empty_board timeout ∷ []) x_forfeit
first_turn = forfeits timeout

Game-turns_example : (1, cross) ∷ [] ≡ turns_from 1 cross 1
Game-turns_example = Game-turns first_turn
