-- ===== src/Store/Tests.antt =====
-- Runs of the repositories.
use june_2026_tictactoe_bots.Prelude.{
  any, map, ◌≢◌, length, keep, ℕ, ◌+◌, ◌≡◌, refl, Option, none, some, List, [], ◌∷◌, All,
}
use june_2026_tictactoe_bots.Text.{codes, text_eq}
use june_2026_tictactoe_bots.Engine.{
  cross, empty_board, MatchOutcome, x_wins, o_wins, x_forfeit, cat, MatchResult,
}
use june_2026_tictactoe_bots.Match.{Reason, http_error, refused}
use june_2026_tictactoe_bots.Match.Rules.{forfeits, one_if}
use june_2026_tictactoe_bots.Store.{
  Bot, MatchRow, Db, NewBot, bot_row, winner_id, record_match, clean_wins, forfeit_wins, draws,
  losses, max_version,
}
use june_2026_tictactoe_bots.Store.Stats.{IsScored, played_by, stats_partition}
use june_2026_tictactoe_bots.Store.Lifetime.Balance.{IsPlayed}
use june_2026_tictactoe_bots.Store.Record.{IsValid, records, Write-IsValid, winner_id-Game}
use june_2026_tictactoe_bots.Store.Leaderboard.{leaderboard, latest_bots, is_latest, standing}
use june_2026_tictactoe_bots.Store.Leaderboard.Newest.{IsOfNewest, InOrder}
use june_2026_tictactoe_bots.Store.Leaderboard.Ranking.{VersionsDiffer, leaderboard-IsRanked}

abbrev alice : NewBot
alice = record {
  base_name = codes "alice";
  versioned_name = codes "alice";
  version = 1;
  owner_token = codes "a1";
  python_version = codes "3.12";
  runtime_key = codes "python-3.12";
  source = none;
}

abbrev empty_db : Db
empty_db = record {
  bots = [];
  matches = [];
  moves = [];
  next_bot_id = 1;
  next_match_id = 1;
  now = 0;
}

empty_db-IsValid : IsValid empty_db
empty_db-IsValid = record {
  bots_distinct = tt;
  matches_distinct = tt;
  bot_ids = tt;
  match_ids = tt;
  move_matches = tt;
  scored = tt;
}

abbrev one_bot : Db
one_bot = record empty_db { bots = bot_row 1 0 alice ∷ []; next_bot_id = 2 }

-- X makes no reply in the first turn.
abbrev forfeit : MatchResult Reason
forfeit = record {
  result = x_forfeit;
  moves = refused 1 cross empty_board (http_error (codes "timed out")) ∷ [];
}

Write-IsValid_example : IsValid (record_match empty_db 1 2 forfeit (codes "c1"))
Write-IsValid_example = Write-IsValid (records 1 2 forfeit (codes "c1")) empty_db-IsValid

winner_id-Game_example : winner_id 7 8 x_forfeit ≡ some 8
winner_id-Game_example =
    winner_id-Game 7 8
      (forfeits {number = 1} {p = cross} {b = empty_board} (http_error (codes "timed out")))

-- Bot 7 beats bot 8, loses to it, forfeits to it, and plays a draw against itself.
abbrev stored_match : ℕ → ℕ → ℕ → Option ℕ → MatchOutcome → MatchRow
stored_match k x o w r = record {
  id = k;
  bot_x_id = x;
  bot_o_id = o;
  winner_id = w;
  result = r;
  correlation_id = codes "c";
  played_at = k;
}

abbrev four_matches : List MatchRow
four_matches =
    stored_match 1 7 8 (some 7) x_wins
    ∷ stored_match 2 7 8 (some 8) o_wins
    ∷ stored_match 3 7 8 (some 8) x_forfeit
    ∷ stored_match 4 7 7 none cat
    ∷ []

four_matches-IsScored : All IsScored four_matches
unfolding winner_id
four_matches-IsScored = (refl, (refl, (refl, (refl, tt))))

stats_partition_example :
    clean_wins four_matches 7
      + forfeit_wins four_matches 7
      + draws four_matches 7
      + losses four_matches 7
    ≡ played_by four_matches 7
stats_partition_example = stats_partition four_matches 7 four_matches-IsScored

-- Bot 7 has a row of the family alice and bot 8 one of the family bob.
abbrev two_bots : List Bot
two_bots =
    bot_row 7 0 alice
    ∷ bot_row 8 0 (record alice { base_name = codes "bob"; versioned_name = codes "bob" })
    ∷ []

four_matches-IsPlayed : All (IsPlayed two_bots) four_matches
unfolding winner_id
four_matches-IsPlayed =
    ((refl, refl, refl), ((refl, refl, refl), ((refl, refl, refl), ((refl, refl, refl), tt))))

-- The two bots and their matches.
abbrev two_families : Db
two_families = record {
  bots = two_bots;
  matches = four_matches;
  moves = [];
  next_bot_id = 9;
  next_match_id = 5;
  now = 1;
}

two_bots-VersionsDiffer : VersionsDiffer two_bots
two_bots-VersionsDiffer = (((λ e f. absurd (bob-ne-alice e)), tt), (tt, tt))
  where
    bob-ne-alice : codes "bob" ≢ codes "alice"
    bob-ne-alice e = cc

leaderboard-IsRanked_example :
    (length (keep (λ r. text_eq r.base_name (codes "bob")) (leaderboard two_families))
      ≡ one_if (any (λ b. text_eq b.base_name (codes "bob")) two_families.bots))
    × All (IsOfNewest two_families) (leaderboard two_families)
    × InOrder (leaderboard two_families)
leaderboard-IsRanked_example =
    leaderboard-IsRanked two_families (codes "bob") two_bots-VersionsDiffer

-- The newest version of each family, by wins.
leaders : map (λ r. r.versioned_name) (leaderboard two_families) ≡ codes "bob" ∷ codes "alice" ∷ []
unfolding leaderboard latest_bots is_latest standing clean_wins forfeit_wins max_version
leaders = refl
