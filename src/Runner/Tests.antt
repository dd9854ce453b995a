-- ===== src/Runner/Tests.antt =====
-- A run of the turn server.
use june_2026_tictactoe_bots.Prelude.{◌≡◌, refl, Option, [], ◌∷◌, ◌++◌}
use june_2026_tictactoe_bots.Text.{Text, codes}
use june_2026_tictactoe_bots.Engine.{Board, cross, empty_board, i1, mark, set_cell, board_to_str}
use june_2026_tictactoe_bots.Runner.{Process, finished, do_get, success}

abbrev centre_taken : Board
centre_taken = set_cell empty_board i1 i1 (mark cross)

-- A bot that always prints this board, and a line feed.
abbrev centre_bot : Text → Process
centre_bot input = finished (board_to_str centre_taken ++ 10 ∷ []) []

health_run : do_get (codes "/health") ≡ success Option.none
unfolding do_get
health_run = refl
