-- ===== src/Store/Leaderboard.antt =====
-- entities/bot/repository.py: the queries that list bots. Where a query's order leaves rows tied, the
-- model keeps the order of the table, and no theorem relies on that.
pub mod Newest
pub mod Ranking
use june_2026_tictactoe_bots.Prelude.{
  ℕ, zero, suc, ◌+◌, Bool, true, false, ◌&&◌, ◌||◌, Option, none, some, List, [], ◌∷◌, map, keep,
  sort_by, ltb, leb, ◌==◌, if◌then◌else◌,
}
use june_2026_tictactoe_bots.Text.{Text, text_eq}
use june_2026_tictactoe_bots.Store.{
  Db, Bot, max_version, id_is, clean_wins, forfeit_wins, draws, losses, ready_bots,
}
use june_2026_tictactoe_bots.Store.Lifetime.{lifetime_wins, lifetime_losses}

-- The join of `_latest_bot_cte`: the row has its family's greatest version.
unfoldable pub is_latest : List Bot → Bot → Bool
is_latest bots b = id_is (max_version b.base_name bots) b.version

unfoldable pub latest_bots : List Bot → List Bot
unfolding is_latest
latest_bots bots = keep (is_latest bots) bots

-- A row of `stats`.
pub record Standing : Type 0 where
  pub base_name : Text
  pub versioned_name : Text
  pub submitted_at : ℕ
  pub clean_wins : ℕ
  pub forfeit_wins : ℕ
  pub draws : ℕ
  pub losses : ℕ
  pub lifetime_wins : ℕ
  pub lifetime_losses : ℕ

unfoldable pub standing : Db → Bot → Standing
standing db b = record {
  base_name = b.base_name;
  versioned_name = b.versioned_name;
  submitted_at = b.submitted_at;
  clean_wins = clean_wins db.matches b.id;
  forfeit_wins = forfeit_wins db.matches b.id;
  draws = draws db.matches b.id;
  losses = losses db.matches b.id;
  lifetime_wins = lifetime_wins db.bots db.matches b.base_name;
  lifetime_losses = lifetime_losses db.bots db.matches b.base_name;
}

-- `ORDER BY clean_wins + forfeit_wins DESC, submitted_at ASC`
abbrev pub ranks_before : Standing → Standing → Bool
ranks_before r s =
    let wins : ℕ = r.clean_wins + r.forfeit_wins in
    let other_wins : ℕ = s.clean_wins + s.forfeit_wins in
    ltb other_wins wins || ((wins == other_wins) && leb r.submitted_at s.submitted_at)

-- `BotRepository.leaderboard`
unfoldable pub leaderboard : Db → List Standing
unfolding latest_bots standing
leaderboard db = sort_by ranks_before (map (standing db) (latest_bots db.bots))

-- A row of `BotRepository.family`.
pub record VersionRow : Type 0 where
  pub versioned_name : Text
  pub version : ℕ
  pub submitted_at : ℕ
  pub clean_wins : ℕ
  pub forfeit_wins : ℕ
  pub draws : ℕ
  pub losses : ℕ

unfoldable pub version_row : Db → Bot → VersionRow
version_row db b = record {
  versioned_name = b.versioned_name;
  version = b.version;
  submitted_at = b.submitted_at;
  clean_wins = clean_wins db.matches b.id;
  forfeit_wins = forfeit_wins db.matches b.id;
  draws = draws db.matches b.id;
  losses = losses db.matches b.id;
}

-- `BotRepository.family`, by descending version.
unfoldable pub family : Db → Text → List VersionRow
unfolding version_row
family db base_name =
    sort_by (λ r s. leb s.version r.version)
      (map (version_row db) (keep (λ b. text_eq b.base_name base_name) db.bots))

-- `versioned_name ASC`, by code points.
abbrev pub name_leb : Text → Text → Bool
name_leb [] t = true
name_leb (x ∷ s) [] = false
name_leb (x ∷ s) (y ∷ t) = let rest = name_leb s t in if x == y then rest else ltb x y

-- `BotRepository.ready_bots_for_play`, whose rows are columns of the bot's row.
unfoldable pub ready_bots_for_play : Db → List Bot
ready_bots_for_play db = sort_by (λ b c. name_leb b.versioned_name c.versioned_name) (ready_bots db)

-- `BotRepository.all`
unfoldable pub all_bots : Db → List Bot
all_bots db = db.bots
