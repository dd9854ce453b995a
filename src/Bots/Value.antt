-- ===== src/Bots/Value.antt =====
-- The scores of `minimax` in example_bots/perfect_bot_v2.py, and a specification of their sign.
use june_2026_tictactoe_bots.Prelude.{
  ℕ, zero, suc, ◌≡◌, refl, sym, ap, ◌∙◌, inl, inr, arith, Bool, true, false, ◌&&◌, ◌||◌, Option,
  none, some, List, [], ◌∷◌, Bool-cases, Option-cases,
}
use mathlib.Core.Path.{fun_ext}
use june_2026_tictactoe_bots.Engine.{
  Player, cross, nought, other, player_eq, mark, Coords, Board, set_cell, empty_board,
  winning_lines,
}
use june_2026_tictactoe_bots.Bots.Perfect.{
  ℤ, pos, negsuc, winner, empties, won_score, consider, try_moves, start_score, best_of, minimax,
}

abbrev pub is_nonneg : ℤ → Bool
is_nonneg (pos n) = true
is_nonneg (negsuc n) = false

-- `any` and `all` that stop at the first answer.
some_move : (Coords → Bool) → List Coords → Bool
some_move f [] = false
some_move f (k ∷ ks) = elim (f k) [ true ↦ true | false ↦ some_move f ks ]

unfoldable pub every_move : (Coords → Bool) → List Coords → Bool
every_move f [] = true
every_move f (k ∷ ks) = elim (f k) [ true ↦ every_move f ks | false ↦ false ]

-- The player can avoid a loss with some move of her own and whatever the opponent moves; a full board
-- is no loss.
holds_on : (Coords → Bool) → Bool → List Coords → Bool
unfolding some_move every_move
holds_on f mine [] = true
holds_on f mine (k ∷ ks) = elim mine [ true ↦ some_move f (k ∷ ks) | false ↦ every_move f (k ∷ ks) ]

unfoldable pub is_safe : ℕ → Player → Board → Player → Bool
unfolding holds_on
is_safe zero me b to_move = true
is_safe (suc fuel) me b to_move = elim (winner b winning_lines) [
  | some p ↦ player_eq p me
  | none ↦
      holds_on (λ k. is_safe fuel me (set_cell b k.0 k.1 (mark to_move)) (other to_move))
        (player_eq to_move me) (empties b)
]

-- The empty board is safe for either player, by a search of the tree.
pub is_safe-empty_board : (me : Player) → is_safe 10 me empty_board cross ≡ true
unfolding is_safe winner
is_safe-empty_board cross = refl
is_safe-empty_board nought = refl

consider-raises :
    (k : Coords) (score : ℤ) (best : ℤ × Coords)
    → is_nonneg (consider true true k score best).0 ≡ (is_nonneg best.0 || is_nonneg score)
consider-raises k (pos m) (pos n, j) = ground arith
consider-raises k (pos m) (negsuc n, j) = refl
consider-raises k (negsuc m) (pos n, j) = refl
consider-raises k (negsuc m) (negsuc n, j) = ground arith

consider-lowers :
    (k : Coords) (score : ℤ) (best : ℤ × Coords)
    → is_nonneg (consider true false k score best).0 ≡ (is_nonneg best.0 && is_nonneg score)
consider-lowers k (pos m) (pos n, j) = ground arith
consider-lowers k (pos m) (negsuc n, j) = refl
consider-lowers k (negsuc m) (pos n, j) = refl
consider-lowers k (negsuc m) (negsuc n, j) = ground arith

-- The value of a move to the loop of `minimax`.
abbrev pub worth : (Board → Player → ℤ × Option Coords) → Board → Player → Coords → Bool
worth search b to_move k = is_nonneg (search (set_cell b k.0 k.1 (mark to_move)) (other to_move)).0

some_move-true :
    (f : Coords → Bool) (k : Coords) (ks : List Coords)
    → some_move f (k ∷ ks) ≡ (f k || some_move f ks)
unfolding some_move
some_move-true f k ks = ground arith

pub every_move-true :
    (f : Coords → Bool) (k : Coords) (ks : List Coords)
    → every_move f (k ∷ ks) ≡ (f k && every_move f ks)
unfolding every_move
every_move-true f k ks = ground arith

or_assoc : (a b c : Bool) → ((a || b) || c) ≡ (a || (b || c))
or_assoc true b c = refl
or_assoc false b c = refl

and_assoc : (a b c : Bool) → ((a && b) && c) ≡ (a && (b && c))
and_assoc true b c = refl
and_assoc false b c = refl

or_false : (a : Bool) → (a || false) ≡ a
or_false true = refl
or_false false = refl

and_true : (a : Bool) → (a && true) ≡ a
and_true true = refl
and_true false = refl

try_moves-raises :
    (search : Board → Player → ℤ × Option Coords) (b : Board) (t me : Player) (ks : List Coords)
    (best : ℤ × Coords)
    → player_eq t me ≡ true
    → is_nonneg (try_moves true search b t me best ks).0
      ≡ (is_nonneg best.0 || some_move (worth search b t) ks)
unfolding try_moves some_move
try_moves-raises search b t me [] best e = sym (or_false (is_nonneg best.0))
try_moves-raises search b t me (k ∷ ks) best e =
    let score = (search (set_cell b k.0 k.1 (mark t)) (other t)).0 in
    ap (λ v. is_nonneg (try_moves true search b t me (consider true v k score best) ks).0) e
    ∙ (try_moves-raises search b t me ks (consider true true k score best) e
        ∙ ap (λ v. v || some_move (worth search b t) ks) (consider-raises k score best)
        ∙ or_assoc (is_nonneg best.0) (is_nonneg score) (some_move (worth search b t) ks)
        ∙ ap (λ v. is_nonneg best.0 || v) (sym (some_move-true (worth search b t) k ks)))

pub try_moves-lowers :
    (search : Board → Player → ℤ × Option Coords) (b : Board) (t me : Player) (ks : List Coords)
    (best : ℤ × Coords)
    → player_eq t me ≡ false
    → is_nonneg (try_moves true search b t me best ks).0
      ≡ (is_nonneg best.0 && every_move (worth search b t) ks)
unfolding try_moves every_move
try_moves-lowers search b t me [] best e = sym (and_true (is_nonneg best.0))
try_moves-lowers search b t me (k ∷ ks) best e =
    let score = (search (set_cell b k.0 k.1 (mark t)) (other t)).0 in
    ap (λ v. is_nonneg (try_moves true search b t me (consider true v k score best) ks).0) e
    ∙ (try_moves-lowers search b t me ks (consider true false k score best) e
        ∙ ap (λ v. v && every_move (worth search b t) ks) (consider-lowers k score best)
        ∙ and_assoc (is_nonneg best.0) (is_nonneg score) (every_move (worth search b t) ks)
        ∙ ap (λ v. is_nonneg best.0 && v) (sym (every_move-true (worth search b t) k ks)))

best_of-holds_on :
    (search : Board → Player → ℤ × Option Coords) (b : Board) (t me : Player) (ks : List Coords)
    → is_nonneg (best_of true search b t me ks).0 ≡ holds_on (worth search b t) (player_eq t me) ks
unfolding best_of holds_on
best_of-holds_on search b t me [] = refl
best_of-holds_on search b t me (k ∷ ks) = elim (Bool-cases (player_eq t me)) [
  | inl mine ↦
      try_moves-raises search b t me (k ∷ ks) (start_score (player_eq t me), k) mine ∙ rw mine refl
  | inr theirs ↦
      try_moves-lowers search b t me (k ∷ ks) (start_score (player_eq t me), k) theirs
      ∙ rw theirs refl
]

pub won_score-is_nonneg :
    (b : Board) (me p : Player) → is_nonneg (won_score b me p) ≡ player_eq p me
won_score-is_nonneg b me p = elim (Bool-cases (player_eq p me)) [
  | inl same ↦ rw same refl
  | inr differs ↦ rw differs refl
]

-- The search finds a score that is not negative exactly where the player can avoid a loss.
pub minimax-is_safe :
    (fuel : ℕ) (me : Player) (b : Board) (to_move : Player)
    → is_nonneg (minimax true fuel me b to_move).0 ≡ is_safe fuel me b to_move
unfolding minimax is_safe
minimax-is_safe zero me b to_move = refl
minimax-is_safe (suc fuel) me b to_move = elim (Option-cases (winner b winning_lines)) [
  | inr (p, won) ↦ rw (won, minimax, is_safe) (won_score-is_nonneg b me p)
  | inl going ↦
      rw (going, minimax, is_safe)
        (best_of-holds_on (minimax true fuel me) b to_move me (empties b)
          ∙ ap (λ f. holds_on f (player_eq to_move me) (empties b))
              (fun_ext
                (λ k. minimax-is_safe fuel me (set_cell b k.0 k.1 (mark to_move)) (other to_move))))
]
