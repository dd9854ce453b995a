-- ===== src/Engine/Winning.antt =====
-- What `check_winner` reports, against full lines and full boards.
use june_2026_tictactoe_bots.Prelude.{
  ◌≡◌, refl, ◌≢◌, true, false, inl, inr, List, [], ◌∷◌, arith, All, Any, here, there, Option, none,
  some, Bool-cases, all, subst,
}
use june_2026_tictactoe_bots.Engine.{
  Player, cross, nought, other, dot, mark, Index, i0, Coords, Board, cell, set_cell, cell_eq,
  all_coords, Line, line_is, winning_lines, MatchOutcome, x_wins, o_wins, x_forfeit, o_forfeit, cat,
  wins, scan_lines, is_taken, check_winner, empty_board, full_or_open,
}
use june_2026_tictactoe_bots.Engine.Cells.{cell_eq_iff, All-coords}

-- The player holds the three cells of the line.
abbrev pub Fills : Board → Player → Line → Type 0
Fills b p ((r, c), (s, d), (t, e)) =
    (cell b r c ≡ mark p) × (cell b s d ≡ mark p) × (cell b t e ≡ mark p)

-- The player has a full line.
abbrev pub HasLine : Board → Player → Type 0
HasLine b p = Any (Fills b p) winning_lines

-- No cell is left.
abbrev pub IsFull : Board → Type 0
IsFull b = (r c : Index) → cell b r c ≢ dot

abbrev pub IsOpen : Board → Type 0
IsOpen b = (k : Coords) × (cell b k.0 k.1 ≡ dot)

-- What each answer of `check_winner` says of the board.
abbrev pub Describes : Board → Option MatchOutcome → Type 0
Describes b none = (¬ HasLine b cross) × (¬ HasLine b nought) × IsOpen b
Describes b (some x_wins) = HasLine b cross
Describes b (some o_wins) = HasLine b nought
Describes b (some cat) = (¬ HasLine b cross) × (¬ HasLine b nought) × IsFull b
Describes b (some x_forfeit) = ⊥
Describes b (some o_forfeit) = ⊥

line_is→Fills : (b : Board) (p : Player) (l : Line) → line_is b (mark p) l ≡ true → Fills b p l
line_is→Fills b p ((r, c), (s, d), (t, e)) h = ground (
  arith,
  cell_eq_iff (cell b r c) (mark p),
  cell_eq_iff (cell b s d) (mark p),
  cell_eq_iff (cell b t e) (mark p),
)

Fills→line_is : (b : Board) (p : Player) (l : Line) → Fills b p l → line_is b (mark p) l ≡ true
Fills→line_is b p ((r, c), (s, d), (t, e)) h = rw (h.0, h.1, h.2) (ground arith)

-- A scan stops at a line of the winner that it names, and names nobody only if no line is full.
abbrev Scanned : Board → List Line → Option MatchOutcome → Type 0
Scanned b ls none = (¬ Any (Fills b cross) ls) × (¬ Any (Fills b nought) ls)
Scanned b ls (some x_wins) = Any (Fills b cross) ls
Scanned b ls (some o_wins) = Any (Fills b nought) ls
Scanned b ls (some _) = ⊥

Any-nil : (b : Board) (p : Player) → ¬ Any (Fills b p) []
Any-nil b p h = elim h [ ]

Any-cons :
    (b : Board) (p : Player) (l : Line) (ls : List Line)
    → line_is b (mark p) l ≡ false
    → ¬ Any (Fills b p) ls
    → ¬ Any (Fills b p) (l ∷ ls)
Any-cons b p l ls e n (here f) = cc (Fills→line_is b p l f)
Any-cons b p l ls e n (there h) = n h

Scanned-cons :
    (b : Board) (l : Line) (ls : List Line) (o : Option MatchOutcome)
    → line_is b (mark cross) l ≡ false
    → line_is b (mark nought) l ≡ false
    → Scanned b ls o
    → Scanned b (l ∷ ls) o
Scanned-cons b l ls none e f h = (Any-cons b cross l ls e h.0, Any-cons b nought l ls f h.1)
Scanned-cons b l ls (some x_wins) e f h = there h
Scanned-cons b l ls (some o_wins) e f h = there h
Scanned-cons b l ls (some x_forfeit) e f h = h
Scanned-cons b l ls (some o_forfeit) e f h = h
Scanned-cons b l ls (some cat) e f h = h

scan_lines-Scanned : (b : Board) (ls : List Line) → Scanned b ls (scan_lines b ls)
unfolding scan_lines
scan_lines-Scanned b [] = (Any-nil b cross, Any-nil b nought)
scan_lines-Scanned b (l ∷ ls) = elim (Bool-cases (line_is b (mark cross) l)) [
  | inl x ↦ rw x (here (line_is→Fills b cross l x))
  | inr nx ↦ elim (Bool-cases (line_is b (mark nought) l)) [
    | inl o ↦ rw (nx, o) (here (line_is→Fills b nought l o))
    | inr no_o ↦
        rw (nx, no_o) (Scanned-cons b l ls (scan_lines b ls) nx no_o (scan_lines-Scanned b ls))
  ]
]

all_taken→IsFull :
    (b : Board) (ks : List Coords) → all (is_taken b) ks ≡ true → All (λ k. cell b k.0 k.1 ≢ dot) ks
all_taken→IsFull b [] h = tt
all_taken→IsFull b (k ∷ ks) h = (λ e. ground (arith, e), all_taken→IsFull b ks (ground arith))

not_all_taken→IsOpen : (b : Board) (ks : List Coords) → all (is_taken b) ks ≡ false → IsOpen b
not_all_taken→IsOpen b [] h = cc
not_all_taken→IsOpen b (k ∷ ks) h = elim (Bool-cases (cell_eq (cell b k.0 k.1) dot)) [
  | inl e ↦ (k, (cell_eq_iff _ _).0 e)
  | inr ne ↦ not_all_taken→IsOpen b ks (rw ne at h)
]

full_or_open-Describes :
    (b : Board) (o : Option MatchOutcome)
    → Scanned b winning_lines o
    → Describes b (full_or_open b o)
unfolding full_or_open
full_or_open-Describes b (some x_wins) h = h
full_or_open-Describes b (some o_wins) h = h
full_or_open-Describes b (some x_forfeit) h = h
full_or_open-Describes b (some o_forfeit) h = h
full_or_open-Describes b (some cat) h = absurd h
full_or_open-Describes b none h = elim (Bool-cases (all (is_taken b) all_coords)) [
  | inl e ↦
      rw e (h.0, h.1, All-coords (λ k. cell b k.0 k.1 ≢ dot) (all_taken→IsFull b all_coords e))
  | inr e ↦ rw e (h.0, h.1, not_all_taken→IsOpen b all_coords e)
]

-- Every answer of `check_winner` is true of the board: a named winner has a full line, a draw
-- is a full board with no full line, no answer is a board with a free cell and no full line, and
-- no answer is a forfeit.
pub check_winner-Describes : (b : Board) → Describes b (check_winner b)
unfolding check_winner
check_winner-Describes b =
    full_or_open-Describes b (scan_lines b winning_lines) (scan_lines-Scanned b winning_lines)

wins-by-Describes :
    (b : Board) (p : Player) (o : Option MatchOutcome)
    → Describes b o
    → HasLine b p
    → ¬ HasLine b (other p)
    → o ≡ some (wins p)
wins-by-Describes b cross (some x_wins) d h n = refl
wins-by-Describes b cross (some o_wins) d h n = absurd (n d)
wins-by-Describes b cross (some cat) d h n = absurd (d.0 h)
wins-by-Describes b cross (some x_forfeit) d h n = absurd d
wins-by-Describes b cross (some o_forfeit) d h n = absurd d
wins-by-Describes b cross none d h n = absurd (d.0 h)
wins-by-Describes b nought (some x_wins) d h n = absurd (n d)
wins-by-Describes b nought (some o_wins) d h n = refl
wins-by-Describes b nought (some cat) d h n = absurd (d.1 h)
wins-by-Describes b nought (some x_forfeit) d h n = absurd d
wins-by-Describes b nought (some o_forfeit) d h n = absurd d
wins-by-Describes b nought none d h n = absurd (d.1 h)

-- On a board on which one side alone has a full line, that side is reported as the winner.
pub check_winner_complete :
    (b : Board) (p : Player) → HasLine b p → ¬ HasLine b (other p) → check_winner b ≡ some (wins p)
check_winner_complete b p = wins-by-Describes b p (check_winner b) (check_winner-Describes b)

pub no_line : (b : Board) (p : Player) → check_winner b ≡ none → ¬ HasLine b p
no_line b cross e = (subst (Describes b) e (check_winner-Describes b)).0
no_line b nought e = (subst (Describes b) e (check_winner-Describes b)).1

pub IsOpen-board : (b : Board) → check_winner b ≡ none → IsOpen b
IsOpen-board b e = (subst (Describes b) e (check_winner-Describes b)).2

-- A mark of the opponent that is seen after a move was there before it.
set_cell-others :
    (b : Board) (r c s d : Index) (p : Player)
    → cell (set_cell b r c (mark p)) s d ≡ mark (other p)
    → cell b s d ≡ mark (other p)
set_cell-others b i0 i0 s d p h = ground arith
set_cell-others b _ _ s d p h = ground arith

set_cell-Any :
    (b : Board) (r c : Index) (p : Player) (ls : List Line)
    → Any (Fills (set_cell b r c (mark p)) (other p)) ls
    → Any (Fills b (other p)) ls
set_cell-Any b r c p [] h = elim h [ ]
set_cell-Any b r c p ((k, l, m) ∷ ls) (here f) = here (
  set_cell-others b r c k.0 k.1 p f.0,
  set_cell-others b r c l.0 l.1 p f.1,
  set_cell-others b r c m.0 m.1 p f.2,
)
set_cell-Any b r c p (_ ∷ ls) (there h) = there (set_cell-Any b r c p ls h)

-- A move gives the opponent no full line.
pub set_cell-no_line :
    (b : Board) (r c : Index) (p : Player)
    → ¬ HasLine b (other p)
    → ¬ HasLine (set_cell b r c (mark p)) (other p)
set_cell-no_line b r c p n h = n (set_cell-Any b r c p winning_lines h)

pub check_winner-empty_board : check_winner empty_board ≡ none
unfolding check_winner scan_lines
check_winner-empty_board = refl
