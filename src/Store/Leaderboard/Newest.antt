-- ===== src/Store/Leaderboard/Newest.antt =====
-- The rows of `BotRepository.leaderboard`: which versions they are of, and the order of the rows.
use june_2026_tictactoe_bots.Prelude.{
  Option, ℕ, ◌+◌, ◌≤◌, ◌<◌, ◌≡◌, refl, ap, ◌⊎◌, inl, inr, true, none, some, List, [], ◌∷◌, map,
  keep, Any, here, there, All, All-map, All-sort_by, IsSorted, sort_by-IsSorted, sort_by, ==_iff,
  arith, Bool-cases,
}
use june_2026_tictactoe_bots.Store.{Db, Bot, max_version, id_is}
use june_2026_tictactoe_bots.Store.Versions.{max_version-greatest}
use june_2026_tictactoe_bots.Store.Leaderboard.{
  is_latest, latest_bots, Standing, standing, ranks_before,
}

-- A bot of the table of which no version is newer.
abbrev pub IsNewest : List Bot → Bot → Type 0
IsNewest bots b =
    Any (λ c. c ≡ b) bots × All (λ c. c.base_name ≡ b.base_name → c.version ≤ b.version) bots

-- The row counts the matches of the newest version of its family.
abbrev pub IsOfNewest : Db → Standing → Type 0
IsOfNewest db r = (b : Bot) × (r ≡ standing db b) × IsNewest db.bots b

id_is-some : (v : Option ℕ) (n : ℕ) → id_is v n ≡ true → v ≡ some n
id_is-some none n e = cc
id_is-some (some w) n e = ap some ((==_iff w n).0 e)

newest_version :
    (bots : List Bot) (b : Bot)
    → is_latest bots b ≡ true
    → All (λ c. c.base_name ≡ b.base_name → c.version ≤ b.version) bots
unfolding is_latest
newest_version bots b e =
    max_version-greatest b.base_name b.version bots
      (id_is-some (max_version b.base_name bots) b.version e)

-- The rows of some of the table's bots.
rows-IsOfNewest :
    (db : Db) (bs : List Bot)
    → ((b : Bot) → Any (λ c. c ≡ b) bs → Any (λ c. c ≡ b) db.bots)
    → All (IsOfNewest db) (map (standing db) (keep (is_latest db.bots) bs))
rows-IsOfNewest db [] within = tt
rows-IsOfNewest db (b ∷ bs) within =
    let rest = rows-IsOfNewest db bs (λ c i. within c (there i)) in
    elim (Bool-cases (is_latest db.bots b)) [
      | inl e ↦ rw e ((b, refl, (within b (here refl), newest_version db.bots b e)), rest)
      | inr e ↦ rw e rest
    ]

pub sorted-IsOfNewest :
    (db : Db) → All (IsOfNewest db) (sort_by ranks_before (map (standing db) (latest_bots db.bots)))
unfolding latest_bots
sorted-IsOfNewest db =
    All-sort_by ranks_before (IsOfNewest db) (map (standing db) (latest_bots db.bots))
      (rows-IsOfNewest db db.bots (λ b i. i))

abbrev pub total_wins : Standing → ℕ
total_wins r = r.clean_wins + r.forfeit_wins

-- More wins come first, and of as many the older upload.
abbrev pub Precedes : Standing → Standing → Type 0
Precedes r s =
    (total_wins s < total_wins r)
    ⊎ ((total_wins r ≡ total_wins s) × (r.submitted_at ≤ s.submitted_at))

-- Each row precedes all rows below it.
abbrev pub InOrder : List Standing → Type 0
InOrder [] = Unit
InOrder (r ∷ rs) = All (Precedes r) rs × InOrder rs

ranks_before-Precedes : (r s : Standing) → ranks_before r s ≡ true → Precedes r s
ranks_before-Precedes r s e = ground (arith, e)

Precedes-trans : (r s t : Standing) → Precedes r s → Precedes s t → Precedes r t
Precedes-trans r s t h k = ground (arith, h, k)

sorted-InOrder : (rs : List Standing) → IsSorted ranks_before rs → InOrder rs
sorted-InOrder [] h = tt
sorted-InOrder (r ∷ []) h = (tt, tt)
sorted-InOrder (r ∷ s ∷ rs) h =
    let first_two = ranks_before-Precedes r s h.0 in
    let (below, rest) = sorted-InOrder (s ∷ rs) h.1 in
    (
      (
        first_two,
        All-map (Precedes s) (Precedes r) rs (λ t k. Precedes-trans r s t first_two k) below,
      ),
      (below, rest),
    )

ranks_before-total : (r s : Standing) → (ranks_before r s ≡ true) ⊎ (ranks_before s r ≡ true)
ranks_before-total r s = ground arith

pub sort_by-InOrder : (rs : List Standing) → InOrder (sort_by ranks_before rs)
sort_by-InOrder rs =
    sorted-InOrder (sort_by ranks_before rs) (sort_by-IsSorted ranks_before ranks_before-total rs)
