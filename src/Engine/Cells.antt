-- ===== src/Engine/Cells.antt =====
-- Reading and writing the cells of a board, and the Boolean tests on cells.
use june_2026_tictactoe_bots.Prelude.{◌≡◌, ◌≢◌, true, ◌↔◌, ◌⊎◌, arith, All}
use june_2026_tictactoe_bots.Engine.{
  Player, other, Cell, mark, Index, i0, i1, i2, Coords, Board, cell, set_cell, cell_eq, all_coords,
}

pub cell_eq_iff : (a b : Cell) → (cell_eq a b ≡ true) ↔ (a ≡ b)
cell_eq_iff a b = ground arith

pub cell_eq_refl : (a : Cell) → cell_eq a a ≡ true
cell_eq_refl a = ground arith

pub mark_ne_other : (p : Player) → mark p ≢ mark (other p)
mark_ne_other p = ground arith

pub cell-set_cell_self : (b : Board) (r c : Index) (v : Cell) → cell (set_cell b r c v) r c ≡ v
cell-set_cell_self b r c v = ground arith

-- Two coordinates are one, or a write at the first leaves the second.
pub cell-set_cell_ne :
    (b : Board) (r c s d : Index) (v : Cell)
    → ◌≢◌ {A = Coords} (r, c) (s, d)
    → cell (set_cell b r c v) s d ≡ cell b s d
cell-set_cell_ne b i0 i0 s d v h = ground arith
cell-set_cell_ne b _ _ s d v h = ground arith

pub set_cell-cases :
    (b : Board) (r c s d : Index) (v : Cell)
    → ((s ≡ r) × (d ≡ c)) ⊎ (cell (set_cell b r c v) s d ≡ cell b s d)
set_cell-cases b i0 i0 s d v = ground arith
set_cell-cases b _ _ s d v = ground arith

-- A board is its cells.
pub Board-ext : (a b : Board) → ((r c : Index) → cell a r c ≡ cell b r c) → a ≡ b
Board-ext a b h =
    cc (h i0 i0, h i0 i1, h i0 i2, h i1 i0, h i1 i1, h i1 i2, h i2 i0, h i2 i1, h i2 i2)

-- A property of every coordinate pair of the list holds at every row and column.
pub All-coords : (P : Coords → Type 0) → All P all_coords → (r c : Index) → P (r, c)
All-coords P h i0 i0 = h.0
All-coords P h i0 i1 = h.1.0
All-coords P h i0 i2 = h.1.1.0
All-coords P h i1 i0 = h.1.1.1.0
All-coords P h i1 i1 = h.1.1.1.1.0
All-coords P h i1 i2 = h.1.1.1.1.1.0
All-coords P h i2 i0 = h.1.1.1.1.1.1.0
All-coords P h i2 i1 = h.1.1.1.1.1.1.1.0
All-coords P h i2 i2 = h.1.1.1.1.1.1.1.1.0
