-- ===== src/Bots.antt =====
-- example_bots/*.py: how each bot picks its move, on the board that the turn request holds. The
-- bots read their input with `strip`, `splitlines` and `split`, as `parse_board` does, with no test.
pub mod Search
pub mod Legality
pub mod Cheats
pub mod Honest
pub mod Perfect
pub mod Minimax
pub mod Fuel
pub mod Value
pub mod Holding
pub mod Unbeaten
mod Tests
use june_2026_tictactoe_bots.Prelude.{
  ℕ, zero, suc, ◌+◌, Bool, true, false, ◌&&◌, Option, none, some, List, [], ◌∷◌, length, keep,
  first, take, ltb, ◌==◌, if◌then◌else◌,
}
use june_2026_tictactoe_bots.Text.{Text, codes}
use june_2026_tictactoe_bots.Pods.{TurnResponse}
use june_2026_tictactoe_bots.Engine.{
  Player, cross, nought, other, Cell, dot, mark, i0, i1, i2, Coords, Board, cell, set_cell, cell_eq,
  all_coords, Line, winning_lines, board_to_str,
}
use june_2026_tictactoe_bots.Match.{Call, answered}

abbrev pub is_free : Board → Coords → Bool
is_free b (r, c) = cell_eq (cell b r c) dot

abbrev pub holds : Board → Cell → Coords → Bool
holds b v (r, c) = cell_eq (cell b r c) v

abbrev pub cells_of : Line → List Coords
cells_of (k, l, m) = k ∷ l ∷ m ∷ []

-- `marks.count(v)`
abbrev pub count : Board → Cell → List Coords → ℕ
count b v ks = length (keep (holds b v) ks)

-- `marks.count(who) == 2 and marks.count(".") == 1`
abbrev pub is_threat : Board → Player → Line → Bool
is_threat b who l = (count b (mark who) (cells_of l) == 2) && (count b dot (cells_of l) == 1)

abbrev pub or_else : Option Coords → Option Coords → Option Coords
or_else none other_move = other_move
or_else (some k) other_move = some k

-- `find_block`, `find_completion` and `find_win`: the free cell of the first line that the player
-- threatens.
unfoldable pub find_line : Board → Player → List Line → Option Coords
find_line b who [] = none
find_line b who (l ∷ ls) =
    if is_threat b who l
    then or_else (first (is_free b) (cells_of l)) (find_line b who ls)
    else find_line b who ls

abbrev pub passive_order : List Coords
passive_order =
    (i0, i1)
    ∷ (i1, i0)
    ∷ (i1, i2)
    ∷ (i2, i1)
    ∷ (i1, i1)
    ∷ (i0, i0)
    ∷ (i0, i2)
    ∷ (i2, i0)
    ∷ (i2, i2)
    ∷ []

-- `PREFERRED`, and `AGGRESSIVE_ORDER` of the offense bot.
abbrev pub preferred : List Coords
preferred =
    (i1, i1)
    ∷ (i0, i0)
    ∷ (i0, i2)
    ∷ (i2, i0)
    ∷ (i2, i2)
    ∷ (i0, i1)
    ∷ (i1, i0)
    ∷ (i1, i2)
    ∷ (i2, i1)
    ∷ []

-- A bot's move on a board; `none` is the exception of unpacking None.
abbrev pub Strategy : Type 0
Strategy = Player → Board → Option Coords

unfoldable pub defense_only : Strategy
defense_only symbol b =
    or_else (find_line b (other symbol) winning_lines) (first (is_free b) passive_order)

-- The three blind bots differ in their lines.
unfoldable pub completing : List Line → Strategy
completing lines symbol b =
    or_else (find_line b symbol lines)
      (or_else (find_line b (other symbol) lines) (first (is_free b) preferred))

abbrev pub rows_and_columns : List Line
rows_and_columns =
    ((i0, i0), (i0, i1), (i0, i2))
    ∷ ((i1, i0), (i1, i1), (i1, i2))
    ∷ ((i2, i0), (i2, i1), (i2, i2))
    ∷ ((i0, i0), (i1, i0), (i2, i0))
    ∷ ((i0, i1), (i1, i1), (i2, i1))
    ∷ ((i0, i2), (i1, i2), (i2, i2))
    ∷ []

abbrev pub columns_and_diagonals : List Line
columns_and_diagonals =
    ((i0, i0), (i1, i0), (i2, i0))
    ∷ ((i0, i1), (i1, i1), (i2, i1))
    ∷ ((i0, i2), (i1, i2), (i2, i2))
    ∷ ((i0, i0), (i1, i1), (i2, i2))
    ∷ ((i0, i2), (i1, i1), (i2, i0))
    ∷ []

abbrev pub rows_and_diagonals : List Line
rows_and_diagonals =
    ((i0, i0), (i0, i1), (i0, i2))
    ∷ ((i1, i0), (i1, i1), (i1, i2))
    ∷ ((i2, i0), (i2, i1), (i2, i2))
    ∷ ((i0, i0), (i1, i1), (i2, i2))
    ∷ ((i0, i2), (i1, i1), (i2, i0))
    ∷ []

unfoldable pub diagonal_blind : Strategy
unfolding completing
diagonal_blind = completing rows_and_columns

unfoldable pub horizontal_blind : Strategy
unfolding completing
horizontal_blind = completing columns_and_diagonals

unfoldable pub vertical_blind : Strategy
unfolding completing
vertical_blind = completing rows_and_diagonals

abbrev count_threats : Board → Player → List Line → ℕ
count_threats b symbol [] = 0
count_threats b symbol (l ∷ ls) =
    let rest = count_threats b symbol ls in if is_threat b symbol l then suc rest else rest

-- `score_move` writes the mark, counts the threats and takes the mark back.
unfoldable pub score_move : Board → Player → Coords → ℕ
score_move b symbol (r, c) = count_threats (set_cell b r c (mark symbol)) symbol winning_lines

-- `t > best_threats`, where `none` is the -1 at the start.
abbrev beats : ℕ → Option ℕ → Bool
beats t none = true
beats t (some best) = ltb best t

-- The loop over `AGGRESSIVE_ORDER`, with `best_threats` and `move`.
unfoldable pub best_threat : Board → Player → Option ℕ → Option Coords → List Coords → Option Coords
best_threat b symbol best move [] = move
best_threat b symbol best move (k ∷ ks) =
    let t = score_move b symbol k in
    let improves = is_free b k && beats t best in
    best_threat b symbol (if improves then some t else best) (if improves then some k else move) ks

unfoldable pub offense_only : Strategy
offense_only symbol b =
    or_else (find_line b symbol winning_lines) (best_threat b symbol none none preferred)

-- py310.py to py314.py: the first free cell in row order.
unfoldable pub first_free : Strategy
first_free symbol b = first (is_free b) all_coords

-- The five scripts have the same code.
abbrev pub py310 : Strategy
py310 = first_free

abbrev pub py311 : Strategy
py311 = first_free

abbrev pub py312 : Strategy
py312 = first_free

abbrev pub py313 : Strategy
py313 = first_free

abbrev pub py314 : Strategy
py314 = first_free

abbrev pub place : Board → Player → List Coords → Board
place b symbol [] = b
place b symbol ((r, c) ∷ ks) = place (set_cell b r c (mark symbol)) symbol ks

-- The board that double_mover_bot.py prints.
unfoldable pub double_mover : Player → Board → Board
double_mover symbol b = place b symbol (take 2 (keep (is_free b) all_coords))

-- overwriter_bot.py: an opponent's cell, or else a free one.
unfoldable pub overwriter : Strategy
overwriter symbol b =
    or_else (first (holds b (mark (other symbol))) all_coords) (first (is_free b) all_coords)

-- What the turn server answers for a bot that prints a board.
abbrev pub prints : Board → Call
prints new = answered (record { board = some (board_to_str new); error = none })

-- A bot that raises, or prints nothing, leaves no standard output: the server reports an error.
unfoldable pub reply : Player → Board → Option Coords → Call
reply symbol b (some (r, c)) = prints (set_cell b r c (mark symbol))
reply symbol b none =
    answered (record { board = none; error = some (codes "invalid output: empty response") })
