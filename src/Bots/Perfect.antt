-- ===== src/Bots/Perfect.antt =====
-- perfect_bot_v1.py and perfect_bot_v2.py: minimax. The two differ in one branch of the loop.
use june_2026_tictactoe_bots.Prelude.{
  ℕ, zero, suc, ◌-◌, Bool, true, false, Option, none, some, List, [], ◌∷◌, length, keep, ltb,
  if◌then◌else◌,
}
use june_2026_tictactoe_bots.Engine.{
  Player, cross, nought, other, player_eq, Cell, mark, Coords, Board, cell, set_cell, all_coords,
  is_taken, Line, winning_lines,
}
use june_2026_tictactoe_bots.Bots.{is_free, Strategy}

-- The scores: `pos n` is n, and `negsuc n` is -(n + 1).
pub data ℤ : Type 0 where
  pos : ℕ → ℤ
  negsuc : ℕ → ℤ

abbrev pub less : ℤ → ℤ → Bool
less (pos m) (pos n) = ltb m n
less (pos m) (negsuc n) = false
less (negsuc m) (pos n) = true
less (negsuc m) (negsuc n) = ltb n m

-- `a if a != "." and a == b == c`
abbrev pub holder : Cell → Cell → Cell → Option Player
holder (mark cross) (mark cross) (mark cross) = some cross
holder (mark nought) (mark nought) (mark nought) = some nought
holder _ _ _ = none

-- The loop of `winner` over the lines.
unfoldable pub winner : Board → List Line → Option Player
winner b [] = none
winner b ((k, l, m) ∷ ls) = elim (holder (cell b k.0 k.1) (cell b l.0 l.1) (cell b m.0 m.1)) [
  | some p ↦ some p
  | none ↦ winner b ls
]

abbrev pub empties : Board → List Coords
empties b = keep (is_free b) all_coords

abbrev pub marks_on : Board → ℕ
marks_on b = length (keep (is_taken b) all_coords)

-- The score of a board with a winner; a board has nine marks at most.
abbrev pub won_score : Board → Player → Player → ℤ
won_score b me p = if player_eq p me then pos (10 - marks_on b) else negsuc (9 - marks_on b)

-- What the loop makes of one move's score. Version 2 has the branch that lowers the best score in the
-- opponent's turn, version 1 has not.
abbrev pub consider : Bool → Bool → Coords → ℤ → ℤ × Coords → ℤ × Coords
consider lowers mine k score (best_score, best_move) =
    if mine
    then if less best_score score then (score, k) else (best_score, best_move)
    else if lowers
    then if less score best_score then (score, k) else (best_score, best_move)
    else (best_score, best_move)

-- The loop over the moves; `search` is the recursive call.
unfoldable pub try_moves :
    Bool
    → (Board → Player → ℤ × Option Coords)
    → Board
    → Player
    → Player
    → ℤ × Coords
    → List Coords
    → ℤ × Coords
try_moves lowers search b to_move me best [] = best
try_moves lowers search b to_move me best (k ∷ ks) =
    let score = (search (set_cell b k.0 k.1 (mark to_move)) (other to_move)).0 in
    try_moves lowers search b to_move me (consider lowers (player_eq to_move me) k score best) ks

abbrev pub start_score : Bool → ℤ
start_score mine = if mine then negsuc 998 else pos 999

unfoldable pub best_of :
    Bool
    → (Board → Player → ℤ × Option Coords)
    → Board
    → Player
    → Player
    → List Coords
    → ℤ × Option Coords
unfolding try_moves
best_of lowers search b to_move me [] = (pos 0, none)
best_of lowers search b to_move me (k ∷ ks) =
    let best =
      try_moves lowers search b to_move me (start_score (player_eq to_move me), k) (k ∷ ks) in
    (best.0, some best.1)

-- `minimax`, on fuel above the number of free cells.
unfoldable pub minimax : Bool → ℕ → Player → Board → Player → ℤ × Option Coords
unfolding best_of
minimax lowers zero me b to_move = (pos 0, none)
minimax lowers (suc fuel) me b to_move = elim (winner b winning_lines) [
  | some p ↦ (won_score b me p, none)
  | none ↦ best_of lowers (minimax lowers fuel me) b to_move me (empties b)
]

unfoldable pub perfect_v1 : Strategy
perfect_v1 symbol b = (minimax false 10 symbol b symbol).1

unfoldable pub perfect_v2 : Strategy
perfect_v2 symbol b = (minimax true 10 symbol b symbol).1
