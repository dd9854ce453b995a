-- ===== src/Bots/Search.antt =====
-- What the bots' searches return: free cells, and winning cells where a line is threatened.
use june_2026_tictactoe_bots.Prelude.{
  ◌≡◌, sym, ◌≢◌, ◌⊎◌, inl, inr, Bool, true, arith, Option, none, some, List, [], ◌∷◌, Any, here,
  there, first, length, ◌==◌, if◌then◌else◌, Bool-cases, both, Option-cases, subst, ap, ◌∙◌,
}
use june_2026_tictactoe_bots.Engine.{
  Player, Cell, dot, mark, Index, i0, i1, i2, Coords, Board, cell, cell_eq, all_coords, Line,
}
use june_2026_tictactoe_bots.Engine.Cells.{cell_eq_iff, set_cell-cases, cell-set_cell_self}
use june_2026_tictactoe_bots.Engine.Winning.{Fills}
use june_2026_tictactoe_bots.Match.Rules.{after}
use june_2026_tictactoe_bots.Bots.{
  is_free, cells_of, is_threat, count, or_else, find_line, passive_order, preferred,
}

-- A search returns what it tests for.
pub first-holds :
    (p : Coords → Bool) (ks : List Coords) (k : Coords) → first p ks ≡ some k → p k ≡ true
first-holds p [] k e = cc
first-holds p (x ∷ xs) k e = elim (Bool-cases (p x)) [
  | inl hit ↦ let same : x ≡ k = cc (rw hit at e) in subst (λ y. p y ≡ true) same hit
  | inr miss ↦ first-holds p xs k (rw miss at e)
]

pub first-free :
    (b : Board) (ks : List Coords) (k : Coords)
    → first (is_free b) ks ≡ some k
    → cell b k.0 k.1 ≡ dot
first-free b ks k e = (cell_eq_iff (cell b k.0 k.1) dot).0 (first-holds (is_free b) ks k e)

pub or_else-free :
    (b : Board) (m n : Option Coords)
    → ((k : Coords) → m ≡ some k → cell b k.0 k.1 ≡ dot)
    → ((k : Coords) → n ≡ some k → cell b k.0 k.1 ≡ dot)
    → (k : Coords) → or_else m n ≡ some k
    → cell b k.0 k.1 ≡ dot
or_else-free b none n hm hn k e = hn k e
or_else-free b (some x) n hm hn k e = hm k e

pub find_line-free :
    (b : Board) (who : Player) (ls : List Line) (k : Coords)
    → find_line b who ls ≡ some k
    → cell b k.0 k.1 ≡ dot
unfolding find_line
find_line-free b who [] k e = cc
find_line-free b who (l ∷ ls) k e = elim (Bool-cases (is_threat b who l)) [
  | inl threat ↦
      or_else-free b (first (is_free b) (cells_of l)) (find_line b who ls)
        (first-free b (cells_of l)) (find_line-free b who ls) k (rw threat at e)
  | inr none_here ↦ find_line-free b who ls k (rw none_here at e)
]

-- Each of the orders has every cell: a search that finds no free cell is on a full board.
pub passive_order_complete :
    (b : Board) (r c : Index) → cell b r c ≡ dot → first (is_free b) passive_order ≢ none
passive_order_complete b i0 i0 e n = ground arith
passive_order_complete b i1 i0 e n = ground arith
passive_order_complete b i2 i0 e n = ground arith
passive_order_complete b _ _ e n = ground arith

pub preferred_complete :
    (b : Board) (r c : Index) → cell b r c ≡ dot → first (is_free b) preferred ≢ none
preferred_complete b i0 i0 e n = ground arith
preferred_complete b i1 i0 e n = ground arith
preferred_complete b i2 i0 e n = ground arith
preferred_complete b _ _ e n = ground arith

pub all_coords_complete :
    (b : Board) (r c : Index) → cell b r c ≡ dot → first (is_free b) all_coords ≢ none
all_coords_complete b i0 i0 e n = ground arith
all_coords_complete b i1 i0 e n = ground arith
all_coords_complete b i2 i0 e n = ground arith
all_coords_complete b _ _ e n = ground arith

pub mark_stays :
    (b : Board) (k j : Coords) (who : Player)
    → cell b j.0 j.1 ≡ mark who
    → cell (after b k who) j.0 j.1 ≡ mark who
mark_stays b (r, c) (s, d) who h = elim (set_cell-cases b r c s d (mark who)) [
  | inl (er, ec) ↦ rw (er, ec) (cell-set_cell_self b r c (mark who))
  | inr same ↦ same ∙ h
]

mark_set : (b : Board) (k : Coords) (who : Player) → cell (after b k who) k.0 k.1 ≡ mark who
mark_set b (r, c) who = cell-set_cell_self b r c (mark who)

-- The cells of a line that hold `v`, in terms of what the cells hold.
abbrev holding : Cell → Cell → Cell → Cell → Line → List Coords
holding v x y z (l, m, n) =
    let last = if cell_eq z v then n ∷ [] else [] in
    let later = if cell_eq y v then m ∷ last else last in if cell_eq x v then l ∷ later else later

-- Of three cells with two marks and a free cell, one is free and the others hold the mark.
three_cells :
    (x y z : Cell) (who : Player) (line : Line)
    → (length (holding (mark who) x y z line) == 2) ≡ true
    → (length (holding dot x y z line) == 1) ≡ true
    → ((x ≡ dot) × (y ≡ mark who) × (z ≡ mark who))
      ⊎ ((x ≡ mark who) × (y ≡ dot) × (z ≡ mark who))
      ⊎ ((x ≡ mark who) × (y ≡ mark who) × (z ≡ dot))
three_cells dot y z who line h k = ground arith
three_cells (mark p) y z who line h k = ground arith

-- The cells of a threatened line.
threat_cells :
    (b : Board) (who : Player) (l m n : Coords)
    → is_threat b who (l, m, n) ≡ true
    → ((cell b l.0 l.1 ≡ dot) × (cell b m.0 m.1 ≡ mark who) × (cell b n.0 n.1 ≡ mark who))
      ⊎ ((cell b l.0 l.1 ≡ mark who) × (cell b m.0 m.1 ≡ dot) × (cell b n.0 n.1 ≡ mark who))
      ⊎ ((cell b l.0 l.1 ≡ mark who) × (cell b m.0 m.1 ≡ mark who) × (cell b n.0 n.1 ≡ dot))
threat_cells b who l m n h =
    let parts =
      both (count b (mark who) (cells_of (l, m, n)) == 2) (count b dot (cells_of (l, m, n)) == 1)
        h in
    three_cells (cell b l.0 l.1) (cell b m.0 m.1) (cell b n.0 n.1) who (l, m, n) parts.0 parts.1

-- Of the three cells of a threatened line one is free, and the other two hold the player's mark.
threat_shape :
    (b : Board) (who : Player) (l m n k : Coords)
    → is_threat b who (l, m, n) ≡ true
    → first (is_free b) (cells_of (l, m, n)) ≡ some k
    → ((l ≡ k) × (cell b m.0 m.1 ≡ mark who) × (cell b n.0 n.1 ≡ mark who))
      ⊎ ((cell b l.0 l.1 ≡ mark who) × (m ≡ k) × (cell b n.0 n.1 ≡ mark who))
      ⊎ ((cell b l.0 l.1 ≡ mark who) × (cell b m.0 m.1 ≡ mark who) × (n ≡ k))
threat_shape b who l m n k h e = elim (threat_cells b who l m n h) [
  | inl (x, y, z) ↦ inl (cc (rw x at e), y, z)
  | inr (inl (x, y, z)) ↦ inr (inl (x, cc (rw (x, y) at e), z))
  | inr (inr (x, y, z)) ↦ inr (inr (x, y, cc (rw (x, y, z) at e)))
]

-- A mark in the free cell of a threatened line fills the line.
threat-Fills :
    (b : Board) (who : Player) (line : Line) (k : Coords)
    → is_threat b who line ≡ true
    → first (is_free b) (cells_of line) ≡ some k
    → Fills (after b k who) who line
threat-Fills b who (l, m, n) k h e = elim (threat_shape b who l m n k h e) [
  | inl (a, x, y) ↦ (
    subst (λ j. cell (after b k who) j.0 j.1 ≡ mark who) (sym a) (mark_set b k who),
    mark_stays b k m who x,
    mark_stays b k n who y,
  )
  | inr (inl (x, a, y)) ↦ (
    mark_stays b k l who x,
    subst (λ j. cell (after b k who) j.0 j.1 ≡ mark who) (sym a) (mark_set b k who),
    mark_stays b k n who y,
  )
  | inr (inr (x, y, a)) ↦ (
    mark_stays b k l who x,
    mark_stays b k m who y,
    subst (λ j. cell (after b k who) j.0 j.1 ≡ mark who) (sym a) (mark_set b k who),
  )
]

threat-first :
    (b : Board) (who : Player) (line : Line)
    → is_threat b who line ≡ true
    → first (is_free b) (cells_of line) ≢ none
threat-first b who (l, m, n) h e = elim (threat_cells b who l m n h) [
  | inl (x, y, z) ↦ cc (rw x at e)
  | inr (inl (x, y, z)) ↦ cc (rw (x, y) at e)
  | inr (inr (x, y, z)) ↦ cc (rw (x, y, z) at e)
]

-- The cell that `find_line` gives completes one of the lines for the player.
pub find_line-Fills :
    (b : Board) (who : Player) (ls : List Line) (k : Coords)
    → find_line b who ls ≡ some k
    → Any (Fills (after b k who) who) ls
unfolding find_line
find_line-Fills b who [] k e = cc
find_line-Fills b who (l ∷ ls) k e = elim (Bool-cases (is_threat b who l)) [
  | inl threat ↦ elim (Option-cases (first (is_free b) (cells_of l))) [
    | inl miss ↦ absurd (threat-first b who l threat miss)
    | inr (j, hit) ↦
        let same : j ≡ k = cc (rw hit at (rw threat at e)) in
        here (threat-Fills b who l k threat (hit ∙ ap some same))
  ]
  | inr none_here ↦ there (find_line-Fills b who ls k (rw none_here at e))
]
