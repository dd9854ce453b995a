-- ===== src/Engine.antt =====
-- runner/engine.py: the board, its text form, the winner test and the move test.
pub mod Cells
pub mod Parsing
pub mod Lines
pub mod Winning
pub mod Judging
mod Tests
use june_2026_tictactoe_bots.Prelude.{
  ℕ, Bool, true, false, ◌&&◌, not, Option, none, some, List, [], ◌∷◌, map, arith, length, all, keep,
  if◌then◌else◌,
}
use june_2026_tictactoe_bots.Text.{Text, text_eq, strip, splitlines, split, join}

-- The two sides; `turn.player` is "x" or "o", `turn.symbol` is "X" or "O".
pub data Player : Type 0 where
  cross nought : Player

abbrev pub other : Player → Player
other cross = nought
other nought = cross

-- What a cell of a parsed board holds: "." or a symbol.
pub data Cell : Type 0 where
  dot : Cell
  mark : Player → Cell

-- The rows and the columns: `range(3)`.
pub data Index : Type 0 where
  i0 i1 i2 : Index

abbrev pub Coords : Type 0
Coords = Index × Index

-- `Board = list[list[str]]`: `parse_board` and `EMPTY_BOARD` give three rows of three cells.
pub record Row : Type 0 where
  pub c0 : Cell
  pub c1 : Cell
  pub c2 : Cell

pub record Board : Type 0 where
  pub r0 : Row
  pub r1 : Row
  pub r2 : Row

abbrev pub entry : Row → Index → Cell
entry w i0 = w.c0
entry w i1 = w.c1
entry w i2 = w.c2

abbrev pub row : Board → Index → Row
row b i0 = b.r0
row b i1 = b.r1
row b i2 = b.r2

-- `board[r][c]`
abbrev pub cell : Board → Index → Index → Cell
cell b r c = entry (row b r) c

abbrev pub set_entry : Row → Index → Cell → Row
set_entry w i0 v = record w { c0 = v }
set_entry w i1 v = record w { c1 = v }
set_entry w i2 v = record w { c2 = v }

-- `board[r][c] = v`
abbrev pub set_cell : Board → Index → Index → Cell → Board
set_cell b i0 c v = record b { r0 = set_entry b.r0 c v }
set_cell b i1 c v = record b { r1 = set_entry b.r1 c v }
set_cell b i2 c v = record b { r2 = set_entry b.r2 c v }

abbrev pub player_eq : Player → Player → Bool
player_eq cross cross = true
player_eq nought nought = true
player_eq _ _ = false

abbrev pub cell_eq : Cell → Cell → Bool
cell_eq dot dot = true
cell_eq (mark p) (mark q) = player_eq p q
cell_eq _ _ = false

-- `for r in range(3) for c in range(3)`
abbrev pub all_coords : List Coords
all_coords =
    (i0, i0)
    ∷ (i0, i1)
    ∷ (i0, i2)
    ∷ (i1, i0)
    ∷ (i1, i1)
    ∷ (i1, i2)
    ∷ (i2, i0)
    ∷ (i2, i1)
    ∷ (i2, i2)
    ∷ []

pub data MatchOutcome : Type 0 where
  x_wins o_wins x_forfeit o_forfeit cat : MatchOutcome

abbrev empty_row : Row
empty_row = record { c0 = dot; c1 = dot; c2 = dot }

abbrev pub empty_board : Board
empty_board = record { r0 = empty_row; r1 = empty_row; r2 = empty_row }

abbrev pub Line : Type 0
Line = Coords × Coords × Coords

abbrev pub winning_lines : List Line
winning_lines =
    ((i0, i0), (i0, i1), (i0, i2))
    ∷ ((i1, i0), (i1, i1), (i1, i2))
    ∷ ((i2, i0), (i2, i1), (i2, i2))
    ∷ ((i0, i0), (i1, i0), (i2, i0))
    ∷ ((i0, i1), (i1, i1), (i2, i1))
    ∷ ((i0, i2), (i1, i2), (i2, i2))
    ∷ ((i0, i0), (i1, i1), (i2, i2))
    ∷ ((i0, i2), (i1, i1), (i2, i0))
    ∷ []

-- The cells that `parse_board` admits: "X", "O" and ".".
abbrev pub parse_cell : Text → Option Cell
parse_cell s =
    if text_eq s (88 ∷ [])
    then some (mark cross)
    else if text_eq s (79 ∷ [])
    then some (mark nought)
    else if text_eq s (46 ∷ [])
    then some dot
    else none

row_of : Option Cell → Option Cell → Option Cell → Option Row
row_of (some a) (some b) (some c) = some (record { c0 = a; c1 = b; c2 = c })
row_of _ _ _ = none

row_of_cells : List Text → Option Row
unfolding row_of
row_of_cells (a ∷ b ∷ c ∷ []) = row_of (parse_cell a) (parse_cell b) (parse_cell c)
row_of_cells _ = none

-- One round of the loop over the rows; `|` is code point 124.
unfoldable pub parse_row : Text → Option Row
unfolding row_of_cells
parse_row line = row_of_cells (split 124 line)

board_of : Option Row → Option Row → Option Row → Option Board
board_of (some a) (some b) (some c) = some (record { r0 = a; r1 = b; r2 = c })
board_of _ _ _ = none

unfoldable pub board_of_rows : List Text → Option Board
unfolding board_of
board_of_rows (a ∷ b ∷ c ∷ []) = board_of (parse_row a) (parse_row b) (parse_row c)
board_of_rows _ = none

unfoldable pub parse_board : Text → Option Board
unfolding board_of_rows
parse_board text = board_of_rows (splitlines (strip text))

abbrev pub cell_code : Cell → ℕ
cell_code dot = 46
cell_code (mark cross) = 88
cell_code (mark nought) = 79

abbrev pub row_text : Row → Text
row_text w = join 124 ((cell_code w.c0 ∷ []) ∷ (cell_code w.c1 ∷ []) ∷ (cell_code w.c2 ∷ []) ∷ [])

unfoldable pub board_to_str : Board → Text
board_to_str b = join 10 (row_text b.r0 ∷ row_text b.r1 ∷ row_text b.r2 ∷ [])

-- `values == [v, v, v]` for the values of a line.
abbrev pub line_is : Board → Cell → Line → Bool
line_is b v ((r, c), (s, d), (t, e)) =
    cell_eq (cell b r c) v && cell_eq (cell b s d) v && cell_eq (cell b t e) v

abbrev pub wins : Player → MatchOutcome
wins cross = x_wins
wins nought = o_wins

-- The loop over `WINNING_LINES`, which returns at the first full line.
unfoldable pub scan_lines : Board → List Line → Option MatchOutcome
scan_lines b [] = none
scan_lines b (l ∷ ls) =
    if line_is b (mark cross) l
    then some x_wins
    else if line_is b (mark nought) l
    then some o_wins
    else scan_lines b ls

abbrev pub is_taken : Board → Coords → Bool
is_taken b (r, c) = not (cell_eq (cell b r c) dot)

full_or_open : Board → Option MatchOutcome → Option MatchOutcome
full_or_open b (some outcome) = some outcome
full_or_open b none = if all (is_taken b) all_coords then some cat else none

unfoldable pub check_winner : Board → Option MatchOutcome
unfolding full_or_open
check_winner b = full_or_open b (scan_lines b winning_lines)

-- The messages of `validate_move`, with the values that they print.
pub data MoveError : Type 0 where
  no_move : MoveError
  cells_changed : ℕ → MoveError
  occupied : Index → Index → MoveError
  wrong_symbol : Cell → Player → MoveError

abbrev pub differs : Board → Board → Coords → Bool
differs old new (r, c) = not (cell_eq (cell old r c) (cell new r c))

unfoldable pub changes : Board → Board → List Coords
changes old new = keep (differs old new) all_coords

unfoldable pub judge : Board → Board → Player → List Coords → Option MoveError
judge old new symbol [] = some no_move
judge old new symbol ((r, c) ∷ []) =
    if not (cell_eq (cell old r c) dot)
    then some (occupied r c)
    else if not (cell_eq (cell new r c) (mark symbol))
    then some (wrong_symbol (cell new r c) symbol)
    else none
judge old new symbol (k ∷ l ∷ ks) = some (cells_changed (length (k ∷ l ∷ ks)))

unfoldable pub validate_move : Board → Board → Player → Option MoveError
unfolding judge
validate_move old new symbol = judge old new symbol (changes old new)

-- The move record of a match; `error` is `none` for a move that was played.
pub record Move {ℓ} (Error : Type ℓ) : Type ℓ where
  pub move_number : ℕ
  pub player : Player
  pub board : Text
  pub error : Option Error

pub record MatchResult {ℓ} (Error : Type ℓ) : Type ℓ where
  pub result : MatchOutcome
  pub moves : List (Move Error)
