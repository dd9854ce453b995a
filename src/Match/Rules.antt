-- ===== src/Match/Rules.antt =====
-- The rules of the match, apart from the code: which records of moves are games, and how each ends.
use june_2026_tictactoe_bots.Prelude.{
  ℕ, suc, ◌+◌, ◌≤◌, ◌≡◌, refl, ap, Bool, List, [], ◌∷◌, map, arith, length, if◌then◌else◌,
}
use june_2026_tictactoe_bots.Engine.{
  Player, other, dot, mark, Index, i0, i1, i2, Coords, Board, cell, set_cell, cell_eq, all_coords,
  MatchOutcome, cat, wins, Move,
}
use june_2026_tictactoe_bots.Engine.Winning.{HasLine, IsFull, IsOpen}
use june_2026_tictactoe_bots.Match.{Reason, played, refused, forfeit_label, turns_from}

-- The board after a mark in a cell.
abbrev pub after : Board → Coords → Player → Board
after b k p = set_cell b k.0 k.1 (mark p)

-- A record of moves that continues a match from move `number`, player and board, and its result:
-- the player forfeits, completes a line, fills the board with no line, or the game goes on.
pub data Game : ℕ → Player → Board → List (Move Reason) → MatchOutcome → Type 0 where
  forfeits :
      {number : ℕ} {p : Player} {b : Board} (e : Reason)
      → Game number p b (refused number p b e ∷ []) (forfeit_label p)
  completes :
      {number : ℕ} {p : Player} {b : Board} (k : Coords)
      → cell b k.0 k.1 ≡ dot
      → HasLine (after b k p) p
      → Game number p b (played number p (after b k p) ∷ []) (wins p)
  draws :
      {number : ℕ} {p : Player} {b : Board} (k : Coords)
      → cell b k.0 k.1 ≡ dot
      → ¬ HasLine (after b k p) p
      → IsFull (after b k p)
      → Game number p b (played number p (after b k p) ∷ []) cat
  goes_on :
      {number : ℕ} {p : Player} {b : Board} {ms : List (Move Reason)} {o : MatchOutcome}
      (k : Coords)
      → cell b k.0 k.1 ≡ dot
      → ¬ HasLine (after b k p) p
      → IsOpen (after b k p)
      → Game (suc number) (other p) (after b k p) ms o
      → Game number p b (played number p (after b k p) ∷ ms) o

abbrev pub one_if : Bool → ℕ
one_if b = if b then 1 else 0

abbrev pub dots_at : Board → List Coords → ℕ
dots_at b [] = 0
dots_at b (k ∷ ks) = one_if (cell_eq (cell b k.0 k.1) dot) + dots_at b ks

-- How many cells are free.
unfoldable pub free_cells : Board → ℕ
free_cells b = dots_at b all_coords

-- A move takes one free cell.
pub free_cells-after :
    (b : Board) (r c : Index) (p : Player)
    → cell b r c ≡ dot
    → free_cells b ≡ suc (free_cells (set_cell b r c (mark p)))
unfolding free_cells
free_cells-after b i0 i0 p e = rw e (omega arith)
free_cells-after b i1 i0 p e = rw e (omega arith)
free_cells-after b i2 i0 p e = rw e (omega arith)
free_cells-after b _ _ p e = rw e (omega arith)

free_cells-pos : (b : Board) (r c : Index) → cell b r c ≡ dot → 1 ≤ free_cells b
unfolding free_cells
free_cells-pos b i0 i0 e = rw e (omega arith)
free_cells-pos b i1 i0 e = rw e (omega arith)
free_cells-pos b i2 i0 e = rw e (omega arith)
free_cells-pos b _ _ e = rw e (omega arith)

pub IsOpen→pos : (b : Board) → IsOpen b → 1 ≤ free_cells b
IsOpen→pos b (k, e) = free_cells-pos b k.0 k.1 e

-- A game has a move, and from an open board no more moves than free cells.
pub Game-length :
    {number : ℕ} {p : Player} {b : Board} {ms : List (Move Reason)} {o : MatchOutcome}
    → Game number p b ms o
    → IsOpen b
    → (1 ≤ length ms) × (length ms ≤ free_cells b)
Game-length (forfeits {b = b} e) open_b = (omega arith, IsOpen→pos b open_b)
Game-length (completes {b = b} k e h) open_b = (omega arith, IsOpen→pos b open_b)
Game-length (draws {b = b} k e n f) open_b = (omega arith, IsOpen→pos b open_b)
Game-length (goes_on {p = p} {b = b} k e n f g) open_b =
    omega (arith, Game-length g f, free_cells-after b k.0 k.1 p e)

-- The moves of a game are numbered upwards, and the players alternate.
pub Game-turns :
    {number : ℕ} {p : Player} {b : Board} {ms : List (Move Reason)} {o : MatchOutcome}
    → Game number p b ms o
    → map (λ m. (m.move_number, m.player)) ms ≡ turns_from number p (length ms)
Game-turns (forfeits e) = refl
Game-turns (completes k e h) = refl
Game-turns (draws k e n f) = refl
Game-turns (goes_on {number = number} {p = p} k e n f g) =
    ap (λ ts. (number, p) ∷ ts) (Game-turns g)
