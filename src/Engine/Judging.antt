-- ===== src/Engine/Judging.antt =====
-- `validate_move` accepts exactly the boards that differ by one mark in a free cell.
use june_2026_tictactoe_bots.Prelude.{
  ◌≡◌, refl, sym, false, ◌↔◌, ◌⊎◌, inl, inr, List, [], ◌∷◌, arith, All, keep, none, Bool-cases, ap,
}
use june_2026_tictactoe_bots.Engine.{
  Player, dot, mark, Index, i0, i1, i2, Coords, Board, cell, set_cell, cell_eq, all_coords, differs,
  changes, judge, validate_move,
}
use june_2026_tictactoe_bots.Engine.Cells.{
  cell_eq_iff, cell_eq_refl, cell-set_cell_self, set_cell-cases, All-coords, Board-ext,
}

-- The new board is the old one with the player's mark in a cell that was free.
pub record IsMove (old new : Board) (p : Player) : Type 0 where
  pub at : Coords
  pub was_free : cell old at.0 at.1 ≡ dot
  pub result : new ≡ set_cell old at.0 at.1 (mark p)

cons-injective : {a b : Coords} {xs ys : List Coords} → a ∷ xs ≡ b ∷ ys → (a ≡ b) × (xs ≡ ys)
cons-injective e = (cc, cc)

All-inr :
    (old new : Board) (a : Coords) (ks : List Coords)
    → All (λ k. cell old k.0 k.1 ≡ cell new k.0 k.1) ks
    → All (λ k. (k ≡ a) ⊎ (cell old k.0 k.1 ≡ cell new k.0 k.1)) ks
All-inr old new a [] h = tt
All-inr old new a (k ∷ ks) h = (inr h.0, All-inr old new a ks h.1)

-- Where no cell is listed as changed, every cell is unchanged.
keep-nil :
    (old new : Board) (ks : List Coords)
    → keep (differs old new) ks ≡ []
    → All (λ k. cell old k.0 k.1 ≡ cell new k.0 k.1) ks
keep-nil old new [] e = tt
keep-nil old new (k ∷ ks) e = elim (Bool-cases (cell_eq (cell old k.0 k.1) (cell new k.0 k.1))) [
  | inl same ↦ ((cell_eq_iff _ _).0 same, keep-nil old new ks (rw same at e))
  | inr diff ↦ cc (rw diff at e)
]

-- The rest of a list whose first cell is the only one that changed.
first_differs :
    (old new : Board) (a k : Coords) (ks : List Coords)
    → k ∷ keep (differs old new) ks ≡ a ∷ []
    → ((k ≡ a) ⊎ (cell old k.0 k.1 ≡ cell new k.0 k.1))
      × All (λ k. (k ≡ a) ⊎ (cell old k.0 k.1 ≡ cell new k.0 k.1)) ks
first_differs old new a k ks e =
    (inl (cons-injective e).0, All-inr old new a ks (keep-nil old new ks (cons-injective e).1))

-- A cell is the changed one, or it is unchanged.
keep-one :
    (old new : Board) (a : Coords) (ks : List Coords)
    → keep (differs old new) ks ≡ a ∷ []
    → All (λ k. (k ≡ a) ⊎ (cell old k.0 k.1 ≡ cell new k.0 k.1)) ks
keep-one old new a [] e = tt
keep-one old new a (k ∷ ks) e = elim (Bool-cases (cell_eq (cell old k.0 k.1) (cell new k.0 k.1))) [
  | inl same ↦ (inr ((cell_eq_iff _ _).0 same), keep-one old new a ks (rw same at e))
  | inr diff ↦ first_differs old new a k ks (rw diff at e)
]

keep-head :
    (old new : Board) (a : Coords) (rest ks : List Coords)
    → keep (differs old new) ks ≡ a ∷ rest
    → cell_eq (cell old a.0 a.1) (cell new a.0 a.1) ≡ false
keep-head old new a rest [] e = cc
keep-head old new a rest (k ∷ ks) e =
    elim (Bool-cases (cell_eq (cell old k.0 k.1) (cell new k.0 k.1))) [
      | inl same ↦ keep-head old new a rest ks (rw same at e)
      | inr diff ↦ rw (← (cons-injective (rw diff at e)).0) diff
    ]

-- With one change, the new board is the old one with that cell replaced.
changes-one :
    (old new : Board) (a : Coords)
    → changes old new ≡ a ∷ []
    → new ≡ set_cell old a.0 a.1 (cell new a.0 a.1)
unfolding changes
changes-one old new a e = Board-ext new (set_cell old a.0 a.1 (cell new a.0 a.1)) at_cell
  where
    unchanged : (r c : Index) → ((r, c) ≡ a) ⊎ (cell old r c ≡ cell new r c)
    unchanged =
        All-coords (λ k. (k ≡ a) ⊎ (cell old k.0 k.1 ≡ cell new k.0 k.1))
          (keep-one old new a all_coords e)

    at_a : cell new a.0 a.1 ≡ cell (set_cell old a.0 a.1 (cell new a.0 a.1)) a.0 a.1
    at_a = sym (cell-set_cell_self old a.0 a.1 (cell new a.0 a.1))

    at_cell : (r c : Index) → cell new r c ≡ cell (set_cell old a.0 a.1 (cell new a.0 a.1)) r c
    at_cell r c = elim (set_cell-cases old a.0 a.1 r c (cell new a.0 a.1)) [
      | inl (er, ec) ↦ rw (er, ec) at_a
      | inr same ↦ elim (unchanged r c) [
        | inl e ↦ rw (ap (λ (k : Coords). k.0) e, ap (λ (k : Coords). k.1) e) at_a
        | inr kept ↦ rw (same, kept) refl
      ]
    ]

judge-accepts :
    (old new : Board) (p : Player) (ks : List Coords)
    → judge old new p ks ≡ none
    → (a : Coords) × (ks ≡ a ∷ []) × (cell old a.0 a.1 ≡ dot) × (cell new a.0 a.1 ≡ mark p)
unfolding judge
judge-accepts old new p [] e = cc
judge-accepts old new p (a ∷ []) e = (
  a,
  refl,
  ground (arith, cell_eq_iff (cell old a.0 a.1) dot),
  ground (arith, cell_eq_iff (cell new a.0 a.1) (mark p)),
)
judge-accepts old new p (a ∷ b ∷ ks) e = cc

validate_move→IsMove :
    (old new : Board) (p : Player) → validate_move old new p ≡ none → IsMove old new p
unfolding validate_move
validate_move→IsMove old new p e =
    let (a, one, free, placed) = judge-accepts old new p (changes old new) e in
    record { at = a; was_free = free; result = rw (← placed) (changes-one old new a one) }

-- A mark in a free cell is the only change.
changes-set_cell :
    (b : Board) (r c : Index) (p : Player)
    → cell b r c ≡ dot
    → changes b (set_cell b r c (mark p)) ≡ (r, c) ∷ []
unfolding changes
changes-set_cell b i0 i0 p e = simp (cell_eq_refl, e)
changes-set_cell b i1 i0 p e = simp (cell_eq_refl, e)
changes-set_cell b i2 i0 p e = simp (cell_eq_refl, e)
changes-set_cell b _ _ p e = simp (cell_eq_refl, e)

validate_move-set_cell :
    (b : Board) (r c : Index) (p : Player)
    → cell b r c ≡ dot
    → validate_move b (set_cell b r c (mark p)) p ≡ none
unfolding validate_move judge
validate_move-set_cell b r c p e =
    rw (changes-set_cell b r c p e, e, cell-set_cell_self b r c (mark p), cell_eq_refl (mark p))
      refl

-- A move is accepted exactly when the new board is the old one with the player's mark put in one
-- free cell.
pub validate_move_iff :
    (old new : Board) (p : Player) → (validate_move old new p ≡ none) ↔ IsMove old new p
validate_move_iff old new p = (
  validate_move→IsMove old new p,
  λ m. rw m.result (validate_move-set_cell old m.at.0 m.at.1 p m.was_free),
)
