-- ===== src/Engine/Lines.antt =====
-- The table `WINNING_LINES` of runner/engine.py, by what a line on the board is.
use june_2026_tictactoe_bots.Prelude.{◌≡◌, ◌⊎◌, inl, inr, ◌↔◌, here, there}
use june_2026_tictactoe_bots.Engine.{Index, i0, i1, i2, Player, mark, Board, cell}
use june_2026_tictactoe_bots.Engine.Winning.{HasLine}

mirror : Index → Index
mirror i0 = i2
mirror i1 = i1
mirror i2 = i0

-- A row, a column or one of the two diagonals has the player's mark in all its cells.
abbrev pub IsInLine : Board → Player → Type 0
unfolding mirror
IsInLine b p =
    ((r : Index) × ((c : Index) → cell b r c ≡ mark p))
    ⊎ ((c : Index) × ((r : Index) → cell b r c ≡ mark p))
    ⊎ ((i : Index) → cell b i i ≡ mark p)
    ⊎ ((i : Index) → cell b i (mirror i) ≡ mark p)

each : (P : Index → Type 0) → P i0 → P i1 → P i2 → (i : Index) → P i
each P x y z i0 = x
each P x y z i1 = y
each P x y z i2 = z

HasLine→IsInLine : (b : Board) (p : Player) → HasLine b p → IsInLine b p
unfolding mirror
HasLine→IsInLine b p (here (x, y, z)) = inl (i0, each (λ c. cell b i0 c ≡ mark p) x y z)
HasLine→IsInLine b p (there (here (x, y, z))) = inl (i1, each (λ c. cell b i1 c ≡ mark p) x y z)
HasLine→IsInLine b p (there (there (here (x, y, z)))) =
    inl (i2, each (λ c. cell b i2 c ≡ mark p) x y z)
HasLine→IsInLine b p (there (there (there (here (x, y, z))))) =
    inr (inl (i0, each (λ r. cell b r i0 ≡ mark p) x y z))
HasLine→IsInLine b p (there (there (there (there (here (x, y, z)))))) =
    inr (inl (i1, each (λ r. cell b r i1 ≡ mark p) x y z))
HasLine→IsInLine b p (there (there (there (there (there (here (x, y, z))))))) =
    inr (inl (i2, each (λ r. cell b r i2 ≡ mark p) x y z))
HasLine→IsInLine b p (there (there (there (there (there (there (here (x, y, z)))))))) =
    inr (inr (inl (each (λ i. cell b i i ≡ mark p) x y z)))
HasLine→IsInLine b p (there (there (there (there (there (there (there (here (x, y, z))))))))) =
    inr (inr (inr (each (λ i. cell b i (mirror i) ≡ mark p) x y z)))
HasLine→IsInLine b p (there (there (there (there (there (there (there (there h)))))))) = elim h [ ]

IsInLine→HasLine : (b : Board) (p : Player) → IsInLine b p → HasLine b p
unfolding mirror
IsInLine→HasLine b p (inl (i0, h)) = here (h i0, h i1, h i2)
IsInLine→HasLine b p (inl (i1, h)) = there (here (h i0, h i1, h i2))
IsInLine→HasLine b p (inl (i2, h)) = there (there (here (h i0, h i1, h i2)))
IsInLine→HasLine b p (inr (inl (i0, h))) = there (there (there (here (h i0, h i1, h i2))))
IsInLine→HasLine b p (inr (inl (i1, h))) = there (there (there (there (here (h i0, h i1, h i2)))))
IsInLine→HasLine b p (inr (inl (i2, h))) =
    there (there (there (there (there (here (h i0, h i1, h i2))))))
IsInLine→HasLine b p (inr (inr (inl h))) =
    there (there (there (there (there (there (here (h i0, h i1, h i2)))))))
IsInLine→HasLine b p (inr (inr (inr h))) =
    there (there (there (there (there (there (there (here (h i0, h i1, h i2))))))))

-- The eight lines of the table are the rows, the columns and the diagonals, and none is left out.
pub HasLine-IsInLine : (b : Board) (p : Player) → HasLine b p ↔ IsInLine b p
HasLine-IsInLine b p = (HasLine→IsInLine b p, IsInLine→HasLine b p)
