-- ===== src/Scripts/Seeding.antt =====
-- Runs of seed_example_bots.py, and the rows that they leave.
use june_2026_tictactoe_bots.Prelude.{ℕ, ◌≡◌, Bool, false, Option, none, some, length, All}
use june_2026_tictactoe_bots.Text.{Text}
use june_2026_tictactoe_bots.Pods.{Attempt, ok}
use june_2026_tictactoe_bots.Store.{Db}
use june_2026_tictactoe_bots.Store.Leaderboard.Ranking.{VersionsDiffer}
use june_2026_tictactoe_bots.Submit.{is_reserved}
use june_2026_tictactoe_bots.Submit.Names.{IsDigitClass}
use june_2026_tictactoe_bots.Submit.Versions.{IsNamed}

-- What holds of the rows inserted so far.
pub record Seeded (is_digit : ℕ → Bool) (db : Db) (inserted : ℕ) : Type 0 where
  pub named : All (IsNamed is_digit) db.bots
  pub differ : VersionsDiffer db.bots
  pub counted : length db.bots ≡ inserted

-- The name that a file declares is not reserved.
abbrev pub IsUnreserved : (ℕ → Bool) → Option Text → Type 0
IsUnreserved is_digit none = Unit
IsUnreserved is_digit (some name) = is_reserved is_digit name ≡ false

module _ (is_digit : ℕ → Bool) (class : IsDigitClass is_digit) where
  -- A round that goes through, to rows of which the same holds.
  Goes : Attempt (Db × ℕ) → Type 0
  Goes r = (db : Db) × (inserted : ℕ) × (r ≡ ok (db, inserted)) × Seeded is_digit db inserted
