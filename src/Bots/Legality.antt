-- ===== src/Bots/Legality.antt =====
-- The bots that play by the rules: on a board with a free cell their reply is accepted.
use june_2026_tictactoe_bots.Prelude.{
  Any, All-member, ℕ, ◌≡◌, refl, ◌≢◌, inl, inr, true, ◌&&◌, Option, none, some, List, [], ◌∷◌, All,
  first, Bool-cases, both, subst,
}
use june_2026_tictactoe_bots.Engine.{
  Player, other, dot, Coords, Board, cell, all_coords, Line, winning_lines,
}
use june_2026_tictactoe_bots.Engine.Cells.{cell_eq_iff}
use june_2026_tictactoe_bots.Engine.Winning.{IsOpen}
use june_2026_tictactoe_bots.Engine.Judging.{IsMove}
use june_2026_tictactoe_bots.Match.{accepted, play_turn}
use june_2026_tictactoe_bots.Match.Turns.{play_turn-reply_with}
use june_2026_tictactoe_bots.Match.Rules.{after}
use june_2026_tictactoe_bots.Bots.{
  Strategy, is_free, or_else, find_line, passive_order, preferred, defense_only, completing,
  diagonal_blind, horizontal_blind, vertical_blind, rows_and_columns, columns_and_diagonals,
  rows_and_diagonals, best_threat, beats, score_move, offense_only, first_free, py310, py311, py312,
  py313, py314, reply,
}
use june_2026_tictactoe_bots.Bots.Search.{
  first-free, or_else-free, find_line-free, passive_order_complete, preferred_complete,
  all_coords_complete,
}

-- On a board with a free cell the strategy names a free cell.
abbrev pub PlaysFree : Strategy → Type 0
PlaysFree f =
    (p : Player) (b : Board) → IsOpen b → (k : Coords) × (f p b ≡ some k) × (cell b k.0 k.1 ≡ dot)

-- On a board with a free cell the dispatcher accepts the bot's reply, as a legal move.
abbrev pub PlaysLegal : Strategy → Type 0
PlaysLegal f =
    (p : Player) (b : Board)
    → IsOpen b
    → (new : Board) × (play_turn b p (reply p b (f p b)) ≡ accepted new) × IsMove b new p

pub PlaysFree→PlaysLegal : (f : Strategy) → PlaysFree f → PlaysLegal f
unfolding reply
PlaysFree→PlaysLegal f free p b open_b =
    let (k, e, d) = free p b open_b in
    let m : IsMove b (after b k p) p = record { at = k; was_free = d; result = refl } in
    (after b k p, rw e ((play_turn-reply_with b (after b k p) p).1 m), m)

-- A search that ends, and ends at free cells, is a strategy that plays free cells.
found :
    (b : Board) (m : Option Coords)
    → m ≢ none
    → ((k : Coords) → m ≡ some k → cell b k.0 k.1 ≡ dot)
    → (k : Coords) × (m ≡ some k) × (cell b k.0 k.1 ≡ dot)
found b none n h = absurd (n refl)
found b (some k) n h = (k, refl, h k refl)

or_else-ne-none : (m n : Option Coords) → n ≢ none → or_else m n ≢ none
or_else-ne-none none n h e = h e
or_else-ne-none (some k) n h e = cc

pub defense_only-PlaysFree : PlaysFree defense_only
unfolding defense_only
defense_only-PlaysFree p b (k, e) =
    found b (defense_only p b)
      (or_else-ne-none (find_line b (other p) winning_lines) (first (is_free b) passive_order)
        (passive_order_complete b k.0 k.1 e))
      (or_else-free b (find_line b (other p) winning_lines) (first (is_free b) passive_order)
        (find_line-free b (other p) winning_lines) (first-free b passive_order))

pub completing-PlaysFree : (lines : List Line) → PlaysFree (completing lines)
unfolding completing
completing-PlaysFree lines p b (k, e) =
    found b (completing lines p b)
      (or_else-ne-none (find_line b p lines) (or_else blocks last)
        (or_else-ne-none blocks last (preferred_complete b k.0 k.1 e)))
      (or_else-free b (find_line b p lines) (or_else blocks last) (find_line-free b p lines)
        (or_else-free b blocks last (find_line-free b (other p) lines) (first-free b preferred)))
  where
    blocks : Option Coords
    blocks = find_line b (other p) lines

    last : Option Coords
    last = first (is_free b) preferred

pub first_free-PlaysFree : PlaysFree first_free
unfolding first_free
first_free-PlaysFree p b (k, e) =
    found b (first_free p b) (all_coords_complete b k.0 k.1 e) (first-free b all_coords)

best_threat-free :
    (b : Board) (p : Player) (best : Option ℕ) (move : Option Coords) (ks : List Coords)
    → ((k : Coords) → move ≡ some k → cell b k.0 k.1 ≡ dot)
    → (k : Coords) → best_threat b p best move ks ≡ some k
    → cell b k.0 k.1 ≡ dot
unfolding best_threat
best_threat-free b p best move [] h k e = h k e
best_threat-free b p best move (j ∷ ks) h k e =
    elim (Bool-cases (is_free b j && beats (score_move b p j) best)) [
      | inl better ↦
          best_threat-free b p (some (score_move b p j)) (some j) ks (now_free better) k
            (rw better at e)
      | inr worse ↦ best_threat-free b p best move ks h k (rw worse at e)
    ]
  where
    now_free :
        (is_free b j && beats (score_move b p j) best) ≡ true
        → (i : Coords) → ◌≡◌ {A = Option Coords} (some j) (some i)
        → cell b i.0 i.1 ≡ dot
    now_free better i s =
        let same : j ≡ i = cc s in
        subst (λ q. cell b q.0 q.1 ≡ dot) same
          ((cell_eq_iff (cell b j.0 j.1) dot).0
            (both (is_free b j) (beats (score_move b p j) best) better).0)

best_threat-ne-none :
    (b : Board) (p : Player) (best : Option ℕ) (move : Option Coords) (ks : List Coords)
    → move ≢ none
    → best_threat b p best move ks ≢ none
unfolding best_threat
best_threat-ne-none b p best move [] h e = h e
best_threat-ne-none b p best move (j ∷ ks) h e =
    elim (Bool-cases (is_free b j && beats (score_move b p j) best)) [
      | inl better ↦
          best_threat-ne-none b p (some (score_move b p j)) (some j) ks (λ s. cc) (rw better at e)
      | inr worse ↦ best_threat-ne-none b p best move ks h (rw worse at e)
    ]

best_threat-finds :
    (b : Board) (p : Player) (ks : List Coords)
    → first (is_free b) ks ≢ none
    → best_threat b p none none ks ≢ none
unfolding best_threat
best_threat-finds b p [] h e = h refl
best_threat-finds b p (j ∷ ks) h e = elim (Bool-cases (is_free b j)) [
  | inl free ↦
      best_threat-ne-none b p (some (score_move b p j)) (some j) ks (λ s. cc) (rw free at e)
  | inr taken ↦ best_threat-finds b p ks (rw taken at h) (rw taken at e)
]

pub offense_only-PlaysFree : PlaysFree offense_only
unfolding offense_only
offense_only-PlaysFree p b (k, e) =
    found b (offense_only p b)
      (or_else-ne-none (find_line b p winning_lines) (best_threat b p none none preferred)
        (best_threat-finds b p preferred (preferred_complete b k.0 k.1 e)))
      (or_else-free b (find_line b p winning_lines) (best_threat b p none none preferred)
        (find_line-free b p winning_lines) (best_threat-free b p none none preferred (λ j s. cc)))

-- The example bots that play by the rules.
abbrev pub honest_bots : List Strategy
honest_bots =
    defense_only ∷ offense_only ∷ diagonal_blind ∷ horizontal_blind ∷ vertical_blind ∷ py310 ∷ py311
    ∷ py312 ∷ py313 ∷ py314 ∷ []

-- Whenever a cell is free, each of these bots has its reply accepted as a legal move.
pub honest_bots-PlaysLegal : All PlaysLegal honest_bots
unfolding diagonal_blind horizontal_blind vertical_blind
honest_bots-PlaysLegal = (
  PlaysFree→PlaysLegal defense_only defense_only-PlaysFree,
  (
    PlaysFree→PlaysLegal offense_only offense_only-PlaysFree,
    (
      PlaysFree→PlaysLegal diagonal_blind (completing-PlaysFree rows_and_columns),
      (
        PlaysFree→PlaysLegal horizontal_blind (completing-PlaysFree columns_and_diagonals),
        (
          PlaysFree→PlaysLegal vertical_blind (completing-PlaysFree rows_and_diagonals),
          (any_version, (any_version, (any_version, (any_version, (any_version, tt))))),
        ),
      ),
    ),
  ),
)
  where
    any_version : PlaysLegal first_free
    any_version = PlaysFree→PlaysLegal first_free first_free-PlaysFree

-- Each of these bots has its reply accepted as a legal move on every board with a free cell.
pub honest_bots-IsMove :
    (f : Strategy)
    → Any (λ g. g ≡ f) honest_bots
    → (p : Player) (b : Board) → IsOpen b
    → (new : Board) × (play_turn b p (reply p b (f p b)) ≡ accepted new) × IsMove b new p
honest_bots-IsMove f listed p b open_b =
    All-member PlaysLegal honest_bots listed honest_bots-PlaysLegal p b open_b
