-- ===== src/Bots/Cheats.antt =====
-- The bots that are there to lose: when their reply is refused.
use june_2026_tictactoe_bots.Prelude.{
  ℕ, suc, ◌≤◌, ◌≡◌, refl, sym, ◌∙◌, ap, ◌≢◌, inl, inr, Bool, true, false, arith, none, List, [],
  ◌∷◌, first, keep, take, Bool-cases, Option-cases, subst, All, length, ◌↔◌,
}
use june_2026_tictactoe_bots.Engine.{
  Player, other, Cell, dot, mark, Coords, Board, cell, all_coords, i0, i1, i2,
}
use june_2026_tictactoe_bots.Engine.Cells.{
  cell_eq_iff, set_cell-cases, cell-set_cell_self, All-coords,
}
use june_2026_tictactoe_bots.Engine.Judging.{IsMove}
use june_2026_tictactoe_bots.Match.{accepted, play_turn}
use june_2026_tictactoe_bots.Match.Turns.{play_turn-reply_with, reply_with-accepted}
use june_2026_tictactoe_bots.Match.Rules.{after, dots_at, free_cells}
use june_2026_tictactoe_bots.Bots.{is_free, holds, overwriter, double_mover, place, reply, prints}
use june_2026_tictactoe_bots.Bots.Search.{first-holds, mark_stays}

-- A move's cell reads as the player's mark on the new board.
moved_cell : (b new : Board) (p : Player) (m : IsMove b new p) → cell new m.at.0 m.at.1 ≡ mark p
moved_cell b new p m =
    ap (λ (x : Board). cell x m.at.0 m.at.1) m.result ∙ cell-set_cell_self b m.at.0 m.at.1 (mark p)

-- A mark written on an occupied cell is no move.
set_occupied-IsMove :
    (b : Board) (k : Coords) (p q : Player) → cell b k.0 k.1 ≡ mark q → ¬ IsMove b (after b k p) p
set_occupied-IsMove b k p q occ m = elim (set_cell-cases b k.0 k.1 m.at.0 m.at.1 (mark p)) [
  | inl (er, ec) ↦ cc (m.was_free, er, ec, occ)
  | inr same ↦ cc (moved_cell b (after b k p) p m, same, m.was_free)
]

first-none : (p : Coords → Bool) (ks : List Coords) → first p ks ≡ none → All (λ k. p k ≡ false) ks
first-none p [] e = tt
first-none p (k ∷ ks) e = elim (Bool-cases (p k)) [
  | inl hit ↦ cc (rw hit at e)
  | inr miss ↦ (miss, first-none p ks (rw miss at e))
]

holds_complete :
    (b : Board) (k : Coords) (v : Cell) → cell b k.0 k.1 ≡ v → first (holds b v) all_coords ≢ none
holds_complete b k v e n = cc (
  All-coords (λ j. holds b v j ≡ false) (first-none (holds b v) all_coords n) k.0 k.1,
  (cell_eq_iff (cell b k.0 k.1) v).1 e,
)

-- As soon as the opponent has a mark on the board, no reply of the overwriter is accepted.
pub overwriter-refused :
    (b new : Board) (p : Player) (k : Coords)
    → cell b k.0 k.1 ≡ mark (other p)
    → play_turn b p (reply p b (overwriter p b)) ≢ accepted new
unfolding overwriter reply
overwriter-refused b new p j marked e =
    elim (Option-cases (first (holds b (mark (other p))) all_coords)) [
      | inl n ↦ holds_complete b j (mark (other p)) marked n
      | inr (k, f) ↦
          let (same, m) = reply_with-accepted b (after b k p) new p (rw f at e) in
          set_occupied-IsMove b k p (other p)
            ((cell_eq_iff (cell b k.0 k.1) (mark (other p))).0
              (first-holds (holds b (mark (other p))) all_coords k f))
            (rw (← same) at m)
    ]

-- Where the cells stand in row order.
abbrev rank : Coords → ℕ
rank (i0, i0) = 0
rank (i0, i1) = 1
rank (i0, i2) = 2
rank (i1, i0) = 3
rank (i1, i1) = 4
rank (i1, i2) = 5
rank (i2, i0) = 6
rank (i2, i1) = 7
rank (i2, i2) = 8

abbrev Rising : ℕ → List Coords → Type 0
Rising n [] = Unit
Rising n (k ∷ ks) = (n ≤ rank k) × Rising (suc (rank k)) ks

Rising-weaken : (m n : ℕ) (ks : List Coords) → m ≤ n → Rising n ks → Rising m ks
Rising-weaken m n [] h r = tt
Rising-weaken m n (k ∷ ks) h r = (omega arith, r.1)

Rising-keep : (p : Coords → Bool) (n : ℕ) (ks : List Coords) → Rising n ks → Rising n (keep p ks)
Rising-keep p n [] r = tt
Rising-keep p n (k ∷ ks) r = elim (Bool-cases (p k)) [
  | inl hit ↦ rw hit (r.0, Rising-keep p (suc (rank k)) ks r.1)
  | inr miss ↦ rw miss (
      Rising-weaken n (suc (rank k)) (keep p ks) (omega arith)
        (Rising-keep p (suc (rank k)) ks r.1))
]

all_coords-Rising : Rising 0 all_coords
all_coords-Rising = omega arith

-- Two cells of a search in row order are two cells.
keep-ne :
    (p : Coords → Bool) (k l : Coords) (rest : List Coords)
    → keep p all_coords ≡ k ∷ l ∷ rest
    → k ≢ l
keep-ne p k l rest e same =
    let r : Rising 0 (k ∷ l ∷ rest) =
      subst (Rising 0) e (Rising-keep p 0 all_coords all_coords-Rising) in
    absurd (omega (arith, r.1.0, ap rank same))

keep-head :
    (p : Coords → Bool) (ks : List Coords) (k : Coords) (rest : List Coords)
    → keep p ks ≡ k ∷ rest
    → p k ≡ true
keep-head p [] k rest e = cc
keep-head p (j ∷ ks) k rest e = elim (Bool-cases (p j)) [
  | inl hit ↦ let same : j ≡ k = cc (rw hit at e) in subst (λ i. p i ≡ true) same hit
  | inr miss ↦ keep-head p ks k rest (rw miss at e)
]

-- The cell of the first of two marks still reads as a mark when the second is set.
first_mark :
    (b : Board) (k l : Coords) (p : Player) → cell (after (after b k p) l p) k.0 k.1 ≡ mark p
first_mark b k l p = mark_stays (after b k p) l k p (cell-set_cell_self b k.0 k.1 (mark p))

-- A cell that was free and holds a mark after a move is the cell of the move.
is_moved_cell :
    (b new : Board) (p : Player) (m : IsMove b new p) (k : Coords)
    → cell b k.0 k.1 ≡ dot
    → cell new k.0 k.1 ≡ mark p
    → k ≡ m.at
is_moved_cell b new p m k free marked = elim (set_cell-cases b m.at.0 m.at.1 k.0 k.1 (mark p)) [
  | inl (er, ec) ↦ cc (er, ec)
  | inr same ↦ cc (free, marked, same, ap (λ (x : Board). cell x k.0 k.1) m.result)
]

two_marks-IsMove :
    (b : Board) (k l : Coords) (p : Player)
    → cell b k.0 k.1 ≡ dot
    → cell b l.0 l.1 ≡ dot
    → k ≢ l
    → ¬ IsMove b (after (after b k p) l p) p
two_marks-IsMove b k l p fk fl ne m = ne (
    is_moved_cell b (after (after b k p) l p) p m k fk (first_mark b k l p)
    ∙ sym (
        is_moved_cell b (after (after b k p) l p) p m l fl
          (cell-set_cell_self (after b k p) l.0 l.1 (mark p))))

no_mark-IsMove : (b : Board) (p : Player) → ¬ IsMove b b p
no_mark-IsMove b p m = cc (m.was_free, moved_cell b b p m)

free_of_keep :
    (b : Board) (k : Coords) (rest : List Coords)
    → keep (is_free b) all_coords ≡ k ∷ rest
    → cell b k.0 k.1 ≡ dot
free_of_keep b k rest e =
    (cell_eq_iff (cell b k.0 k.1) dot).0 (keep-head (is_free b) all_coords k rest e)

All-kept : (p : Coords → Bool) (ks : List Coords) → All (λ k. p k ≡ true) (keep p ks)
All-kept p [] = tt
All-kept p (k ∷ ks) = elim (Bool-cases (p k)) [
  | inl hit ↦ rw hit (hit, All-kept p ks)
  | inr miss ↦ rw miss (All-kept p ks)
]

second_free :
    (b : Board) (k l : Coords) (rest : List Coords)
    → keep (is_free b) all_coords ≡ k ∷ l ∷ rest
    → cell b l.0 l.1 ≡ dot
second_free b k l rest e =
    let kept : All (λ j. is_free b j ≡ true) (k ∷ l ∷ rest) =
      subst (All (λ j. is_free b j ≡ true)) e (All-kept (is_free b) all_coords) in
    (cell_eq_iff (cell b l.0 l.1) dot).0 kept.1.0

length-keep : (b : Board) (ks : List Coords) → length (keep (is_free b) ks) ≡ dots_at b ks
length-keep b [] = refl
length-keep b (k ∷ ks) = elim (Bool-cases (is_free b k)) [
  | inl hit ↦ rw hit (omega (arith, length-keep b ks))
  | inr miss ↦ rw miss (omega (arith, length-keep b ks))
]

-- What the double mover prints, by the free cells that it finds.
double_mover-IsMove :
    (b : Board) (p : Player) (ks : List Coords)
    → keep (is_free b) all_coords ≡ ks
    → IsMove b (place b p (take 2 ks)) p ↔ (length ks ≡ 1)
double_mover-IsMove b p [] e = (λ m. absurd (no_mark-IsMove b p m), λ h. absurd (omega arith))
double_mover-IsMove b p (k ∷ []) e =
    (λ m. refl, λ h. record { at = k; was_free = free_of_keep b k [] e; result = refl })
double_mover-IsMove b p (k ∷ l ∷ rest) e = (
  λ m. absurd (
      two_marks-IsMove b k l p (free_of_keep b k (l ∷ rest) e) (second_free b k l rest e)
        (keep-ne (is_free b) k l rest e) m),
  λ h. absurd (omega arith),
)

-- The double mover's reply is accepted exactly when one cell alone is free.
pub double_mover_iff :
    (b : Board) (p : Player)
    → (play_turn b p (prints (double_mover p b)) ≡ accepted (double_mover p b)) ↔ (free_cells b ≡ 1)
unfolding double_mover free_cells
double_mover_iff b p =
    let found = double_mover-IsMove b p (keep (is_free b) all_coords) refl in
    let legal = play_turn-reply_with b (double_mover p b) p in
    let counted = length-keep b all_coords in
    (λ e. sym counted ∙ found.0 (legal.0 e), λ e. legal.1 (found.1 (counted ∙ e)))
