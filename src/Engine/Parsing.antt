-- ===== src/Engine/Parsing.antt =====
-- `parse_board` reads back what `board_to_str` prints.
use june_2026_tictactoe_bots.Prelude.{◌≡◌, refl, some, none, false, true, ◌==◌}
use june_2026_tictactoe_bots.Text.{is_space, is_break}
use june_2026_tictactoe_bots.Engine.{
  Cell, dot, mark, cross, nought, Board, cell_code, parse_cell, parse_board, parse_row, row_text,
  board_of_rows, Row, board_to_str,
}
use june_2026_tictactoe_bots.Prelude.{◌∷◌, []}

is_space-cell_code : (v : Cell) → is_space (cell_code v) ≡ false
unfolding is_space
is_space-cell_code dot = refl
is_space-cell_code (mark cross) = refl
is_space-cell_code (mark nought) = refl

is_break-cell_code : (v : Cell) → is_break (cell_code v) ≡ false
unfolding is_break
is_break-cell_code dot = refl
is_break-cell_code (mark cross) = refl
is_break-cell_code (mark nought) = refl

bar-cell_code : (v : Cell) → (cell_code v == 124) ≡ false
bar-cell_code dot = refl
bar-cell_code (mark cross) = refl
bar-cell_code (mark nought) = refl

parse_cell-cell_code : (v : Cell) → parse_cell (cell_code v ∷ []) ≡ some v
parse_cell-cell_code dot = refl
parse_cell-cell_code (mark cross) = refl
parse_cell-cell_code (mark nought) = refl

parse_row-row_text : (w : Row) → parse_row (row_text w) ≡ some w
unfolding parse_row
parse_row-row_text w = simp (bar-cell_code, parse_cell-cell_code)

is_break-bar : is_break 124 ≡ false
unfolding is_break
is_break-bar = refl

is_break-newline : is_break 10 ≡ true
unfolding is_break
is_break-newline = refl

-- Reading the text of a board gives the board back.
pub parse_board-board_to_str : (b : Board) → parse_board (board_to_str b) ≡ some b
unfolding parse_board board_to_str
parse_board-board_to_str b =
    simp
      (is_space-cell_code, is_break-cell_code, is_break-bar, is_break-newline, parse_row-row_text)

pub parse_board-nil : parse_board [] ≡ none
unfolding parse_board board_of_rows
parse_board-nil = refl
