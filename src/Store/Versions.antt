-- ===== src/Store/Versions.antt =====
-- `next_version` is above every version of the family.
use june_2026_tictactoe_bots.Prelude.{
  some, ◌+◌, All-map, ℕ, ◌≤◌, ◌<◌, ◌≡◌, List, [], ◌∷◌, arith, All, Any, All-member,
}
use june_2026_tictactoe_bots.Text.{Text}
use june_2026_tictactoe_bots.Text.Laws.{text_eq_iff}
use june_2026_tictactoe_bots.Store.{Db, Bot, max_version, or_zero, next_version}

-- A row's version is no more than the maximum, if the row is of the family; the rest of the rows have
-- a maximum that is no more either.
max_version-cons :
    (name : Text) (b : Bot) (bs : List Bot)
    → (b.base_name ≡ name → b.version ≤ or_zero (max_version name (b ∷ bs)))
      × (or_zero (max_version name bs) ≤ or_zero (max_version name (b ∷ bs)))
unfolding max_version or_zero
max_version-cons name b bs = (λ h. ground (arith, (text_eq_iff b.base_name name).1 h), ground arith)

max_version-bounds :
    (name : Text) (n : ℕ) (bs : List Bot)
    → or_zero (max_version name bs) < n
    → All (λ b. b.base_name ≡ name → b.version < n) bs
max_version-bounds name n [] h = tt
max_version-bounds name n (b ∷ bs) h =
    let (head_le, tail_le) = max_version-cons name b bs in
    (λ e. omega (arith, head_le e), max_version-bounds name n bs (omega (arith, tail_le)))

-- No version of the family is above the maximum.
pub max_version-greatest :
    (name : Text) (v : ℕ) (bs : List Bot)
    → max_version name bs ≡ some v
    → All (λ b. b.base_name ≡ name → b.version ≤ v) bs
unfolding or_zero
max_version-greatest name v bs e =
    let below : or_zero (max_version name bs) < v + 1 = rw e (omega arith) in
    All-map (λ b. b.base_name ≡ name → b.version < v + 1) (λ b. b.base_name ≡ name → b.version ≤ v)
      bs (λ b h same. let l = h same in omega arith) (max_version-bounds name (v + 1) bs below)

pub versions_below :
    (db : Db) (name : Text)
    → All (λ b. b.base_name ≡ name → b.version < next_version db name) db.bots
unfolding next_version
versions_below db name = max_version-bounds name (next_version db name) db.bots (omega arith)

-- `next_version` is above the version of every row of the family.
pub next_version-above :
    (db : Db) (name : Text) (b : Bot)
    → Any (λ c. c ≡ b) db.bots
    → b.base_name ≡ name
    → b.version < next_version db name
next_version-above db name b stored =
    All-member (λ (c : Bot). c.base_name ≡ name → c.version < next_version db name) db.bots stored
      (versions_below db name)
