-- ===== src/Bots/Fuel.antt =====
-- The fuel of minimax is enough.
use june_2026_tictactoe_bots.Prelude.{
  All-map, ℕ, zero, suc, ◌<◌, ◌≡◌, refl, ap, inl, inr, arith, Bool, Option, some, List, [], ◌∷◌,
  All, Option-cases,
}
use june_2026_tictactoe_bots.Engine.{
  Player, other, player_eq, dot, mark, Coords, Board, cell, set_cell, winning_lines,
}
use june_2026_tictactoe_bots.Match.Rules.{free_cells, free_cells-after}
use june_2026_tictactoe_bots.Bots.Perfect.{
  ℤ, winner, empties, consider, try_moves, start_score, best_of, minimax,
}
use june_2026_tictactoe_bots.Bots.Minimax.{empties-free}

try_moves_eq :
    (lowers : Bool) (s t : Board → Player → ℤ × Option Coords) (b : Board) (to_move me : Player)
    (ks : List Coords) (best : ℤ × Coords)
    → All
        (λ k.
          s (set_cell b k.0 k.1 (mark to_move)) (other to_move)
          ≡ t (set_cell b k.0 k.1 (mark to_move)) (other to_move))
        ks
    → try_moves lowers s b to_move me best ks ≡ try_moves lowers t b to_move me best ks
unfolding try_moves
try_moves_eq lowers s t b to_move me [] best h = refl
try_moves_eq lowers s t b to_move me (k ∷ ks) best h = rw (h.0) (
    try_moves_eq lowers s t b to_move me ks
      (consider lowers (player_eq to_move me) k
        (t (set_cell b k.0 k.1 (mark to_move)) (other to_move)).0 best)
      h.1)

best_of_eq :
    (lowers : Bool) (s t : Board → Player → ℤ × Option Coords) (b : Board) (to_move me : Player)
    (ks : List Coords)
    → All
        (λ k.
          s (set_cell b k.0 k.1 (mark to_move)) (other to_move)
          ≡ t (set_cell b k.0 k.1 (mark to_move)) (other to_move))
        ks
    → best_of lowers s b to_move me ks ≡ best_of lowers t b to_move me ks
unfolding best_of
best_of_eq lowers s t b to_move me [] h = refl
best_of_eq lowers s t b to_move me (k ∷ ks) h =
    ap (λ best. (best.0, some best.1))
      (try_moves_eq lowers s t b to_move me (k ∷ ks) (start_score (player_eq to_move me), k) h)

-- Any two amounts of fuel above the number of free cells give the search the same result, so that the
-- fuel never runs out.
pub minimax_fuel :
    (lowers : Bool) (me : Player) (m n : ℕ) (b : Board) (to_move : Player)
    → free_cells b < m
    → free_cells b < n
    → minimax lowers m me b to_move ≡ minimax lowers n me b to_move
unfolding minimax
minimax_fuel lowers me zero n b to_move h k = absurd (omega (arith, h))
minimax_fuel lowers me (suc m) zero b to_move h k = absurd (omega (arith, k))
minimax_fuel lowers me (suc m) (suc n) b to_move h k =
    elim (Option-cases (winner b winning_lines)) [
      | inr (p, won) ↦ rw (won, minimax) refl
      | inl going ↦
          rw (going, minimax)
            (best_of_eq lowers (minimax lowers m me) (minimax lowers n me) b to_move me (empties b)
              (All-map (λ j. cell b j.0 j.1 ≡ dot)
                (λ j.
                  minimax lowers m me (set_cell b j.0 j.1 (mark to_move)) (other to_move)
                  ≡ minimax lowers n me (set_cell b j.0 j.1 (mark to_move)) (other to_move))
                (empties b)
                (λ j e.
                  minimax_fuel lowers me m n (set_cell b j.0 j.1 (mark to_move)) (other to_move)
                    (omega (arith, h, free_cells-after b j.0 j.1 to_move e))
                    (omega (arith, k, free_cells-after b j.0 j.1 to_move e)))
                (empties-free b)))
    ]
