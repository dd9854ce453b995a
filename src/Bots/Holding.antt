-- ===== src/Bots/Holding.antt =====
-- One move of perfect_bot_v2.py, and one of its rival, from boards on which a loss can be avoided.
use june_2026_tictactoe_bots.Prelude.{
  ℕ, suc, ◌<◌, ◌≡◌, ◌≢◌, refl, sym, ap, ◌∙◌, subst, inl, inr, ◌⊎◌, arith, Bool, true, false, Option,
  none, some, List, [], ◌∷◌, keep, All, Any, here, there, Bool-cases, Option-cases, both,
}
use june_2026_tictactoe_bots.Engine.{
  Player, cross, nought, other, player_eq, Cell, dot, mark, Coords, Index, i0, i1, i2, Board, cell,
  set_cell, all_coords, empty_board, check_winner, Line, winning_lines,
}
use june_2026_tictactoe_bots.Engine.Cells.{cell_eq_iff}
use june_2026_tictactoe_bots.Engine.Winning.{Fills, HasLine, IsOpen-board}
use june_2026_tictactoe_bots.Match.Rules.{after, free_cells, free_cells-after}
use june_2026_tictactoe_bots.Bots.{is_free}
use june_2026_tictactoe_bots.Bots.Perfect.{
  ℤ, less, holder, winner, empties, consider, try_moves, start_score, best_of, minimax, perfect_v2,
}
use june_2026_tictactoe_bots.Bots.Minimax.{
  winner-none, winner-Fills, empties-free, empties-ne-nil, try_moves-free,
}
use june_2026_tictactoe_bots.Bots.Fuel.{minimax_fuel}
use june_2026_tictactoe_bots.Bots.Value.{
  is_nonneg, worth, every_move, every_move-true, try_moves-lowers, is_safe-empty_board,
  minimax-is_safe, won_score-is_nonneg,
}

-- The score that the loop keeps for its best move is that move's score, unless it is negative.
consider-worth :
    (search : Board → Player → ℤ × Option Coords) (b : Board) (t : Player) (k : Coords)
    (best : ℤ × Coords)
    → (is_nonneg best.0 ≡ true → worth search b t best.1 ≡ true)
    → is_nonneg (consider true true k (search (set_cell b k.0 k.1 (mark t)) (other t)).0 best).0
      ≡ true
    → worth search b t
        (consider true true k (search (set_cell b k.0 k.1 (mark t)) (other t)).0 best).1
      ≡ true
consider-worth search b t k (s, j) keeps =
    let score = (search (set_cell b k.0 k.1 (mark t)) (other t)).0 in
    elim (Bool-cases (less s score)) [ inl up ↦ rw up (λ h. h) | inr down ↦ rw down keeps ]

try_moves-worth :
    (search : Board → Player → ℤ × Option Coords) (b : Board) (t me : Player) (ks : List Coords)
    (best : ℤ × Coords)
    → player_eq t me ≡ true
    → (is_nonneg best.0 ≡ true → worth search b t best.1 ≡ true)
    → is_nonneg (try_moves true search b t me best ks).0 ≡ true
    → worth search b t (try_moves true search b t me best ks).1 ≡ true
unfolding try_moves
try_moves-worth search b t me [] best e keeps = keeps
try_moves-worth search b t me (k ∷ ks) best e keeps =
    let score = (search (set_cell b k.0 k.1 (mark t)) (other t)).0 in
    subst
      (λ v.
        is_nonneg (try_moves true search b t me (consider true v k score best) ks).0 ≡ true
        → worth search b t (try_moves true search b t me (consider true v k score best) ks).1
          ≡ true)
      (sym e)
      (try_moves-worth search b t me ks (consider true true k score best) e
        (consider-worth search b t k best keeps))

-- The move of a search in the player's own turn, when its score is not negative.
best_of-worth :
    (search : Board → Player → ℤ × Option Coords) (b : Board) (t me : Player) (ks : List Coords)
    → player_eq t me ≡ true
    → ks ≢ []
    → All (λ k. cell b k.0 k.1 ≡ dot) ks
    → is_nonneg (best_of true search b t me ks).0 ≡ true
    → (k : Coords) × ((best_of true search b t me ks).1 ≡ some k)
      × (cell b k.0 k.1 ≡ dot)
      × (worth search b t k ≡ true)
unfolding best_of
best_of-worth search b t me [] e n h good = absurd (n refl)
best_of-worth search b t me (k ∷ ks) e n h good =
    let start : ℤ × Coords = (start_score (player_eq t me), k) in
    (
      (try_moves true search b t me start (k ∷ ks)).1,
      refl,
      try_moves-free true search b t me (k ∷ ks) start h h.0,
      try_moves-worth search b t me (k ∷ ks) start e (λ g. absurd (started g)) good,
    )
  where
    started : is_nonneg (start_score (player_eq t me)) ≢ true
    started g = cc (rw e at g)

all_coords-Any : (r c : Index) → Any (λ j. j ≡ (r, c)) all_coords
all_coords-Any i0 i0 = here refl
all_coords-Any i0 i1 = there (here refl)
all_coords-Any i0 i2 = there (there (here refl))
all_coords-Any i1 i0 = there (there (there (here refl)))
all_coords-Any i1 i1 = there (there (there (there (here refl))))
all_coords-Any i1 i2 = there (there (there (there (there (here refl)))))
all_coords-Any i2 i0 = there (there (there (there (there (there (here refl))))))
all_coords-Any i2 i1 = there (there (there (there (there (there (there (here refl)))))))
all_coords-Any i2 i2 = there (there (there (there (there (there (there (there (here refl))))))))

every_move-Any :
    (f : Coords → Bool) (p : Coords → Bool) (xs : List Coords) (k : Coords)
    → Any (λ j. j ≡ k) xs
    → p k ≡ true
    → every_move f (keep p xs) ≡ true
    → f k ≡ true
unfolding every_move
every_move-Any f p [] k h hit good = elim h [ ]
every_move-Any f p (x ∷ xs) k (here e) hit good =
    subst (λ y. f y ≡ true) e
      (both (f x) (every_move f (keep p xs)) (
        sym (every_move-true f x (keep p xs))
        ∙ (rw (subst (λ y. p y ≡ true) (sym e) hit) at good))).0
every_move-Any f p (x ∷ xs) k (there h) hit good = elim (Bool-cases (p x)) [
  | inl kept ↦
      every_move-Any f p xs k h hit
        (both (f x) (every_move f (keep p xs))
          (sym (every_move-true f x (keep p xs)) ∙ (rw kept at good))).1
  | inr dropped ↦ every_move-Any f p xs k h hit (rw dropped at good)
]

pub other-other : (p : Player) → other (other p) ≡ p
other-other cross = refl
other-other nought = refl

pub player_eq_refl : (p : Player) → player_eq p p ≡ true
player_eq_refl cross = refl
player_eq_refl nought = refl

pub player_eq-other : (p : Player) → player_eq (other p) p ≡ false
player_eq-other cross = refl
player_eq-other nought = refl

pub Player-cases : (p me : Player) → (p ≡ me) ⊎ (p ≡ other me)
Player-cases cross cross = inl refl
Player-cases nought nought = inl refl
Player-cases cross nought = inr refl
Player-cases nought cross = inr refl

-- With the player `p` to move, the search of `me` has a score that is not negative.
abbrev pub Safe : Player → Board → Player → Type 0
Safe me b p = is_nonneg (minimax true 10 me b p).0 ≡ true

pub Safe-empty_board : (me : Player) → Safe me empty_board cross
Safe-empty_board me = minimax-is_safe 10 me empty_board cross ∙ is_safe-empty_board me

-- One more round of fuel makes no difference after a move.
Safe-after :
    (me p : Player) (b : Board) (k : Coords)
    → cell b k.0 k.1 ≡ dot
    → free_cells b < 10
    → worth (minimax true 9 me) b p k ≡ true
    → Safe me (after b k p) (other p)
Safe-after me p b k e small good =
    ap (λ r. is_nonneg r.0)
      (minimax_fuel true me 10 9 (after b k p) (other p)
        (omega (arith, free_cells-after b k.0 k.1 p e))
        (omega (arith, free_cells-after b k.0 k.1 p e)))
    ∙ good

-- A search of a board without a winner is the loop over the moves.
minimax-best_of :
    (fuel : ℕ) (me : Player) (b : Board) (t : Player)
    → winner b winning_lines ≡ none
    → minimax true (suc fuel) me b t ≡ best_of true (minimax true fuel me) b t me (empties b)
unfolding minimax
minimax-best_of fuel me b t e = rw (e, minimax)

minimax-winner :
    (fuel : ℕ) (me : Player) (b : Board) (t p : Player)
    → winner b winning_lines ≡ some p
    → is_nonneg (minimax true (suc fuel) me b t).0 ≡ player_eq p me
unfolding minimax
minimax-winner fuel me b t p e = rw (e, minimax) (won_score-is_nonneg b me p)

pub perfect_v2-Safe :
    (me : Player) (b : Board)
    → check_winner b ≡ none
    → free_cells b < 10
    → Safe me b me
    → (k : Coords) × (perfect_v2 me b ≡ some k)
      × (cell b k.0 k.1 ≡ dot)
      × Safe me (after b k me) (other me)
unfolding perfect_v2
perfect_v2-Safe me b e small safe =
    let step = minimax-best_of 9 me b me (winner-none b e) in
    let (k, move, free, good) =
      best_of-worth (minimax true 9 me) b me me (empties b) (player_eq_refl me)
        (empties-ne-nil b (IsOpen-board b e)) (empties-free b)
        (sym (ap (λ r. is_nonneg r.0) step) ∙ safe) in
    (k, ap (λ r. r.1) step ∙ move, free, Safe-after me me b k free small good)

best_of-every_move :
    (search : Board → Player → ℤ × Option Coords) (b : Board) (t me : Player) (ks : List Coords)
    → player_eq t me ≡ false
    → is_nonneg (best_of true search b t me ks).0 ≡ true
    → every_move (worth search b t) ks ≡ true
unfolding best_of every_move
best_of-every_move search b t me [] e h = refl
best_of-every_move search b t me (k ∷ ks) e h =
    sym (try_moves-lowers search b t me (k ∷ ks) (start_score (player_eq t me), k) e ∙ rw e refl)
    ∙ h

pub rival-Safe :
    (me : Player) (b : Board) (k : Coords)
    → check_winner b ≡ none
    → free_cells b < 10
    → Safe me b (other me)
    → cell b k.0 k.1 ≡ dot
    → Safe me (after b k (other me)) (other (other me))
rival-Safe me b k e small safe free =
    let step = minimax-best_of 9 me b (other me) (winner-none b e) in
    Safe-after me (other me) b k free small (
      every_move-Any (worth (minimax true 9 me) b (other me)) (is_free b) all_coords k
        (all_coords-Any k.0 k.1) ((cell_eq_iff (cell b k.0 k.1) dot).1 free)
        (best_of-every_move (minimax true 9 me) b (other me) me (empties b) (player_eq-other me)
          (sym (ap (λ r. is_nonneg r.0) step) ∙ safe)))

holder-some :
    (p : Player) (x y z : Cell) → x ≡ mark p → y ≡ mark p → z ≡ mark p → holder x y z ≡ some p
holder-some cross x y z e f g = rw (e, f, g) refl
holder-some nought x y z e f g = rw (e, f, g) refl

winner-ne-none : (b : Board) (p : Player) (ls : List Line) → Any (Fills b p) ls → winner b ls ≢ none
unfolding winner
winner-ne-none b p [] h n = elim h [ ]
winner-ne-none b p ((k, l, m) ∷ ls) (here (x, y, z)) n =
    cc (rw (holder-some p (cell b k.0 k.1) (cell b l.0 l.1) (cell b m.0 m.1) x y z, winner) at n)
winner-ne-none b p ((k, l, m) ∷ ls) (there h) n =
    elim (Option-cases (holder (cell b k.0 k.1) (cell b l.0 l.1) (cell b m.0 m.1))) [
      | inl going ↦ winner-ne-none b p ls h (rw (going, winner) at n)
      | inr (q, e) ↦ cc (rw (e, winner) at n)
    ]

-- A board that the rival alone has won is not safe.
pub Safe-ne-lost :
    (me : Player) (b : Board) (t : Player) → Safe me b t → ¬ HasLine b me → ¬ HasLine b (other me)
Safe-ne-lost me b t safe n h = elim (Option-cases (winner b winning_lines)) [
  | inl none_won ↦ winner-ne-none b (other me) winning_lines h none_won
  | inr (q, e) ↦ elim (Player-cases q me) [
    | inl mine ↦ n (subst (HasLine b) mine (winner-Fills b winning_lines q e))
    | inr theirs ↦
        let lost : player_eq q me ≡ false = ap (λ p. player_eq p me) theirs ∙ player_eq-other me in
        cc (sym safe ∙ minimax-winner 9 me b t q e ∙ lost)
  ]
]
