-- ===== src/Engine/Tests.antt =====
-- Runs of runner/engine.py.
use june_2026_tictactoe_bots.Prelude.{◌≡◌, refl, some, none, ◌↔◌, here}
use june_2026_tictactoe_bots.Text.{codes, is_space, is_break}
use june_2026_tictactoe_bots.Engine.{
  Board, parse_board, parse_row, empty_board, cross, nought, x_wins, check_winner, set_cell, mark,
  i0, i1, i2, validate_move, board_to_str,
}
use june_2026_tictactoe_bots.Engine.Parsing.{parse_board-board_to_str}
use june_2026_tictactoe_bots.Engine.Lines.{IsInLine, HasLine-IsInLine}
use june_2026_tictactoe_bots.Engine.Winning.{
  Describes, check_winner-Describes, check_winner_complete, HasLine, set_cell-no_line, no_line,
  check_winner-empty_board,
}
use june_2026_tictactoe_bots.Engine.Judging.{IsMove, validate_move_iff}

parse_board_lines : parse_board (codes "\n.|.|.\n.|.|.\r\n.|.|. \n") ≡ some empty_board
unfolding parse_board parse_row is_space is_break
parse_board_lines = refl

board_to_str_empty : board_to_str empty_board ≡ codes ".|.|.\n.|.|.\n.|.|."
unfolding board_to_str
board_to_str_empty = refl

-- X has the first row.
abbrev first_row : Board
first_row =
    set_cell (set_cell (set_cell empty_board i0 i0 (mark cross)) i0 i1 (mark cross)) i0 i2
      (mark cross)

first_row-no_line : ¬ HasLine first_row nought
first_row-no_line =
    set_cell-no_line (set_cell (set_cell empty_board i0 i0 (mark cross)) i0 i1 (mark cross)) i0 i2
      cross
      (set_cell-no_line (set_cell empty_board i0 i0 (mark cross)) i0 i1 cross (
        set_cell-no_line empty_board i0 i0 cross
          (no_line empty_board nought check_winner-empty_board)))

parse_board-board_to_str_example : parse_board (board_to_str first_row) ≡ some first_row
parse_board-board_to_str_example = parse_board-board_to_str first_row

check_winner-Describes_example : Describes first_row (check_winner first_row)
check_winner-Describes_example = check_winner-Describes first_row

check_winner_complete_example : check_winner first_row ≡ some x_wins
check_winner_complete_example =
    check_winner_complete first_row cross (here (refl, refl, refl)) first_row-no_line

first_row-IsInLine : IsInLine first_row cross
first_row-IsInLine = (HasLine-IsInLine first_row cross).0 (here (refl, refl, refl))

validate_move_iff_example :
    (validate_move empty_board (set_cell empty_board i0 i1 (mark cross)) cross ≡ none)
    ↔ IsMove empty_board (set_cell empty_board i0 i1 (mark cross)) cross
validate_move_iff_example =
    validate_move_iff empty_board (set_cell empty_board i0 i1 (mark cross)) cross
