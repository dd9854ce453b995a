-- ===== src/Bots/Minimax.antt =====
-- The moves of the two perfect bots, and the value that version 1 gives to the opponent's turns.
use june_2026_tictactoe_bots.Prelude.{
  All-map, ℕ, suc, ◌≡◌, ◌≢◌, refl, ap, ◌∙◌, inl, inr, ◌⊎◌, Bool, true, false, Option, none, some,
  List, [], ◌∷◌, keep, first, All, All-member, Any, here, there, Bool-cases, Option-cases,
}
use june_2026_tictactoe_bots.Engine.{
  Player, cross, nought, other, player_eq, Cell, dot, mark, Coords, Board, cell, set_cell,
  all_coords, check_winner, Line, winning_lines,
}
use june_2026_tictactoe_bots.Engine.Cells.{cell_eq_iff}
use june_2026_tictactoe_bots.Engine.Winning.{Fills, IsOpen, no_line, IsOpen-board}
use june_2026_tictactoe_bots.Engine.Judging.{IsMove}
use june_2026_tictactoe_bots.Match.{accepted, play_turn}
use june_2026_tictactoe_bots.Match.Turns.{play_turn-reply_with}
use june_2026_tictactoe_bots.Match.Rules.{after}
use june_2026_tictactoe_bots.Bots.{Strategy, is_free, reply}
use june_2026_tictactoe_bots.Bots.Search.{all_coords_complete}
use june_2026_tictactoe_bots.Bots.Perfect.{
  ℤ, pos, less, holder, winner, empties, consider, try_moves, start_score, best_of, minimax,
  perfect_v1, perfect_v2,
}

pub holder-mark :
    (x y z : Cell) (p : Player) → holder x y z ≡ some p → (x ≡ mark p) × (y ≡ mark p) × (z ≡ mark p)
holder-mark (mark cross) (mark cross) (mark cross) p h =
    let same : cross ≡ p = cc h in (ap mark same, ap mark same, ap mark same)
holder-mark (mark nought) (mark nought) (mark nought) p h =
    let same : nought ≡ p = cc h in (ap mark same, ap mark same, ap mark same)
holder-mark dot y z p h = cc
holder-mark (mark cross) dot z p h = cc
holder-mark (mark cross) (mark nought) z p h = cc
holder-mark (mark cross) (mark cross) dot p h = cc
holder-mark (mark cross) (mark cross) (mark nought) p h = cc
holder-mark (mark nought) dot z p h = cc
holder-mark (mark nought) (mark cross) z p h = cc
holder-mark (mark nought) (mark nought) dot p h = cc
holder-mark (mark nought) (mark nought) (mark cross) p h = cc

pub winner-Fills :
    (b : Board) (ls : List Line) (p : Player) → winner b ls ≡ some p → Any (Fills b p) ls
unfolding winner
winner-Fills b [] p h = cc
winner-Fills b ((k, l, m) ∷ ls) p h =
    elim (Option-cases (holder (cell b k.0 k.1) (cell b l.0 l.1) (cell b m.0 m.1))) [
      | inl n ↦ there (winner-Fills b ls p (rw (n, winner) at h))
      | inr (q, e) ↦
          let same : q ≡ p = cc (rw (e, winner) at h) in
          here (holder-mark (cell b k.0 k.1) (cell b l.0 l.1) (cell b m.0 m.1) p (e ∙ ap some same))
    ]

-- On an undecided board `winner` finds nobody.
pub winner-none : (b : Board) → check_winner b ≡ none → winner b winning_lines ≡ none
winner-none b e = elim (Option-cases (winner b winning_lines)) [
  | inl n ↦ n
  | inr (p, h) ↦ absurd (no_line b p e (winner-Fills b winning_lines p h))
]

keep-All {ℓ} : {A : Type ℓ} (p : A → Bool) (xs : List A) → All (λ x. p x ≡ true) (keep p xs)
keep-All p [] = tt
keep-All p (x ∷ xs) = elim (Bool-cases (p x)) [
  | inl hit ↦ rw hit (hit, keep-All p xs)
  | inr miss ↦ rw miss (keep-All p xs)
]

pub empties-free : (b : Board) → All (λ k. cell b k.0 k.1 ≡ dot) (empties b)
empties-free b =
    All-map (λ k. is_free b k ≡ true) (λ k. cell b k.0 k.1 ≡ dot) (empties b)
      (λ k e. (cell_eq_iff (cell b k.0 k.1) dot).0 e) (keep-All (is_free b) all_coords)

keep-first {ℓ} : {A : Type ℓ} (p : A → Bool) (xs : List A) → keep p xs ≡ [] → first p xs ≡ none
keep-first p [] e = refl
keep-first p (x ∷ xs) e = elim (Bool-cases (p x)) [
  | inl hit ↦ cc (rw hit at e)
  | inr miss ↦ rw miss (keep-first p xs (rw miss at e))
]

List-cases {ℓ} :
    {A : Type ℓ} (xs : List A) → (xs ≡ []) ⊎ ((x : A) × ((ys : List A) × (xs ≡ x ∷ ys)))
List-cases [] = inl refl
List-cases (x ∷ xs) = inr (x, (xs, refl))

consider-free :
    (b : Board) (lowers mine : Bool) (k : Coords) (score : ℤ) (best : ℤ × Coords)
    → cell b k.0 k.1 ≡ dot
    → cell b best.1.0 best.1.1 ≡ dot
    → cell b (consider lowers mine k score best).1.0 (consider lowers mine k score best).1.1 ≡ dot
consider-free b lowers true k score (s, j) e f = elim (Bool-cases (less s score)) [
  | inl up ↦ rw up e
  | inr down ↦ rw down f
]
consider-free b true false k score (s, j) e f = elim (Bool-cases (less score s)) [
  | inl up ↦ rw up e
  | inr down ↦ rw down f
]
consider-free b false false k score (s, j) e f = f

pub try_moves-free :
    (lowers : Bool) (search : Board → Player → ℤ × Option Coords) (b : Board) (to_move me : Player)
    (ks : List Coords) (best : ℤ × Coords)
    → All (λ k. cell b k.0 k.1 ≡ dot) ks
    → cell b best.1.0 best.1.1 ≡ dot
    → cell b
        (try_moves lowers search b to_move me best ks).1.0
        (try_moves lowers search b to_move me best ks).1.1
      ≡ dot
unfolding try_moves
try_moves-free lowers search b to_move me [] best h f = f
try_moves-free lowers search b to_move me (k ∷ ks) best h f =
    try_moves-free lowers search b to_move me ks
      (consider lowers (player_eq to_move me) k
        (search (set_cell b k.0 k.1 (mark to_move)) (other to_move)).0 best)
      h.1
      (consider-free b lowers (player_eq to_move me) k
        (search (set_cell b k.0 k.1 (mark to_move)) (other to_move)).0 best h.0 f)

best_of-free :
    (lowers : Bool) (search : Board → Player → ℤ × Option Coords) (b : Board) (to_move me : Player)
    (ks : List Coords)
    → ks ≢ []
    → All (λ k. cell b k.0 k.1 ≡ dot) ks
    → (k : Coords) × ((best_of lowers search b to_move me ks).1 ≡ some k) × (cell b k.0 k.1 ≡ dot)
unfolding best_of
best_of-free lowers search b to_move me [] n h = absurd (n refl)
best_of-free lowers search b to_move me (k ∷ ks) n h = (
  (try_moves lowers search b to_move me (start_score (player_eq to_move me), k) (k ∷ ks)).1,
  refl,
  try_moves-free lowers search b to_move me (k ∷ ks) (start_score (player_eq to_move me), k) h h.0,
)

pub empties-ne-nil : (b : Board) → IsOpen b → empties b ≢ []
empties-ne-nil b (k, e) n = all_coords_complete b k.0 k.1 e (keep-first (is_free b) all_coords n)

minimax-free :
    (lowers : Bool) (fuel : ℕ) (me : Player) (b : Board) (to_move : Player)
    → check_winner b ≡ none
    → (k : Coords) × ((minimax lowers (suc fuel) me b to_move).1 ≡ some k) × (cell b k.0 k.1 ≡ dot)
unfolding minimax
minimax-free lowers fuel me b to_move e =
    rw (winner-none b e, minimax)
      (best_of-free lowers (minimax lowers fuel me) b to_move me (empties b)
        (empties-ne-nil b (IsOpen-board b e)) (empties-free b))

abbrev pub perfect_bots : List Strategy
perfect_bots = perfect_v1 ∷ perfect_v2 ∷ []

placed-IsMove :
    (p : Player) (b : Board) (move : Option Coords)
    → ((k : Coords) × (move ≡ some k) × (cell b k.0 k.1 ≡ dot))
    → (new : Board) × (play_turn b p (reply p b move) ≡ accepted new) × IsMove b new p
unfolding reply
placed-IsMove p b move (k, e, d) =
    let m : IsMove b (after b k p) p = record { at = k; was_free = d; result = refl } in
    (after b k p, rw e ((play_turn-reply_with b (after b k p) p).1 m), m)

-- On a board that is not decided, each version of the perfect bot has its reply accepted as a legal
-- move.
pub perfect_bots-IsMove :
    (f : Strategy)
    → Any (λ g. g ≡ f) perfect_bots
    → (p : Player) (b : Board) → check_winner b ≡ none
    → (new : Board) × (play_turn b p (reply p b (f p b)) ≡ accepted new) × IsMove b new p
unfolding perfect_v1 perfect_v2
perfect_bots-IsMove f listed p b e =
    All-member
      (λ (g : Strategy).
        (new : Board) × (play_turn b p (reply p b (g p b)) ≡ accepted new) × IsMove b new p)
      perfect_bots listed
      (
        placed-IsMove p b (minimax false 10 p b p).1 (minimax-free false 9 p b p e),
        (placed-IsMove p b (minimax true 10 p b p).1 (minimax-free true 9 p b p e), tt),
      )

try_moves-others :
    (search : Board → Player → ℤ × Option Coords) (b : Board) (to_move me : Player)
    (ks : List Coords) (best : ℤ × Coords)
    → player_eq to_move me ≡ false
    → try_moves false search b to_move me best ks ≡ best
unfolding try_moves
try_moves-others search b to_move me [] best e = refl
try_moves-others search b to_move me (k ∷ ks) best e =
    rw e (try_moves-others search b to_move me ks best e)

best_of-others :
    (search : Board → Player → ℤ × Option Coords) (b : Board) (to_move me : Player)
    (ks : List Coords)
    → player_eq to_move me ≡ false
    → ks ≢ []
    → (best_of false search b to_move me ks).0 ≡ pos 999
unfolding best_of
best_of-others search b to_move me [] e n = absurd (n refl)
best_of-others search b to_move me (k ∷ ks) e n =
    ap (λ r. r.0)
      (try_moves-others search b to_move me (k ∷ ks) (start_score (player_eq to_move me), k) e)
    ∙ ap start_score e

-- Version 1 gives every undecided board on which the opponent moves the value 999, whatever the
-- opponent's replies lead to.
pub minimax-others :
    (fuel : ℕ) (me : Player) (b : Board) (to_move : Player)
    → check_winner b ≡ none
    → player_eq to_move me ≡ false
    → (minimax false (suc fuel) me b to_move).0 ≡ pos 999
unfolding minimax
minimax-others fuel me b to_move e opponent =
    rw (winner-none b e, minimax)
      (best_of-others (minimax false fuel me) b to_move me (empties b) opponent
        (empties-ne-nil b (IsOpen-board b e)))
