-- ===== src/Store.antt =====
-- entities/*/model.py and entities/*/repository.py: the tables, and the queries over them. A table is
-- the list of its rows in the order of insertion; a query that orders by nothing gives that order.
pub mod Keys
pub mod Stats
pub mod Record
pub mod Versions
pub mod Lifetime
pub mod Leaderboard
pub mod Listings
mod Tests
use Prim.Native.Nat.{max}
use june_2026_tictactoe_bots.Prelude.{
  ℕ, zero, suc, ◌+◌, Bool, true, false, ◌&&◌, ◌||◌, not, Option, none, some, List, [], ◌∷◌, ◌++◌,
  map, length, keep, first, any, ◌==◌, if◌then◌else◌,
}
use june_2026_tictactoe_bots.Text.{Text, text_eq, codes}
use june_2026_tictactoe_bots.Pods.{Attempt, ok, raised}
use june_2026_tictactoe_bots.Engine.{
  Player, cross, nought, MatchOutcome, x_wins, o_wins, x_forfeit, o_forfeit, cat, Move, MatchResult,
}
use june_2026_tictactoe_bots.Match.{Reason}

-- A row of `bots`.
pub record Bot : Type 0 where
  pub id : ℕ
  pub base_name : Text
  pub versioned_name : Text
  pub version : ℕ
  pub owner_token : Text
  pub source : Option Text
  pub python_version : Text
  pub runtime_key : Text
  pub pod_name : Option Text
  pub pod_ready : Bool
  pub submitted_at : ℕ

-- A row of `matches`.
pub record MatchRow : Type 0 where
  pub id : ℕ
  pub bot_x_id : ℕ
  pub bot_o_id : ℕ
  pub winner_id : Option ℕ
  pub result : MatchOutcome
  pub correlation_id : Text
  pub played_at : ℕ

-- A row of `moves`.
pub record MoveRow : Type 0 where
  pub match_id : ℕ
  pub move_number : ℕ
  pub bot_id : ℕ
  pub board_state : Text
  pub error : Option Reason

-- The database, with the next value of each table's key and the clock of the server.
pub record Db : Type 0 where
  pub bots : List Bot
  pub matches : List MatchRow
  pub moves : List MoveRow
  pub next_bot_id : ℕ
  pub next_match_id : ℕ
  pub now : ℕ

-- `BotRepository.by_id`
unfoldable pub by_id : Db → ℕ → Option Bot
by_id db bot_id = first (λ b. b.id == bot_id) db.bots

-- `BotRepository.by_ids`, whose dict is the list of its values.
unfoldable pub by_ids : Db → List ℕ → List Bot
by_ids db bot_ids = keep (λ b. any (λ i. b.id == i) bot_ids) db.bots

-- `BotRepository.by_versioned_name`
unfoldable pub by_versioned_name : Db → Text → Option Bot
by_versioned_name db name = first (λ b. text_eq b.versioned_name name) db.bots

-- `BotRepository.owner_token`
unfoldable pub owner_token : Db → Text → Option Text
owner_token db base_name = elim (first (λ b. text_eq b.base_name base_name) db.bots) [
  | some b ↦ some b.owner_token
  | none ↦ none
]

-- `max(version)` over the rows of the family; `none` if it has no row.
unfoldable pub max_version : Text → List Bot → Option ℕ
max_version base_name [] = none
max_version base_name (b ∷ bs) =
    let rest = max_version base_name bs in
    if text_eq b.base_name base_name
    then elim rest [ none ↦ some b.version | some v ↦ some (max b.version v) ]
    else rest

or_zero : Option ℕ → ℕ
or_zero none = 0
or_zero (some v) = v

-- `BotRepository.next_version`
unfoldable pub next_version : Db → Text → ℕ
unfolding max_version or_zero
next_version db base_name = or_zero (max_version base_name db.bots) + 1

-- The columns that `create` is given.
pub record NewBot : Type 0 where
  pub base_name : Text
  pub versioned_name : Text
  pub version : ℕ
  pub owner_token : Text
  pub python_version : Text
  pub runtime_key : Text
  pub source : Option Text

abbrev pub bot_row : ℕ → ℕ → NewBot → Bot
bot_row bot_id now n = record {
  id = bot_id;
  base_name = n.base_name;
  versioned_name = n.versioned_name;
  version = n.version;
  owner_token = n.owner_token;
  source = n.source;
  python_version = n.python_version;
  runtime_key = n.runtime_key;
  pod_name = none;
  pod_ready = false;
  submitted_at = now;
}

-- `BotRepository.create`; the table's constraint makes it raise on a versioned name that is taken.
unfoldable pub create : Db → NewBot → Attempt (Db × Bot)
create db n =
    if any (λ b. text_eq b.versioned_name n.versioned_name) db.bots
    then raised
    else ok (
      record db {
        bots = db.bots ++ bot_row db.next_bot_id db.now n ∷ [];
        next_bot_id = suc db.next_bot_id;
      },
      bot_row db.next_bot_id db.now n,
    )

-- `BotRepository.ready_bots`
unfoldable pub ready_bots : Db → List Bot
ready_bots db = keep (λ b. b.pod_ready) db.bots

abbrev pub with_pod : ℕ → Text → Bot → Bot
with_pod bot_id pod b =
    if b.id == bot_id then record b { pod_ready = true; pod_name = some pod } else b

-- `BotRepository.set_pod_ready`; a key that is not there changes nothing.
unfoldable pub set_pod_ready : Db → ℕ → Text → Db
set_pod_ready db bot_id pod = record db { bots = map (with_pod bot_id pod) db.bots }

-- The winner that `MatchRepository.record` stores.
unfoldable pub winner_id : ℕ → ℕ → MatchOutcome → Option ℕ
winner_id bot_x_id bot_o_id x_wins = some bot_x_id
winner_id bot_x_id bot_o_id o_forfeit = some bot_x_id
winner_id bot_x_id bot_o_id o_wins = some bot_o_id
winner_id bot_x_id bot_o_id x_forfeit = some bot_o_id
winner_id bot_x_id bot_o_id cat = none

abbrev pub bot_of : ℕ → ℕ → Player → ℕ
bot_of bot_x_id bot_o_id cross = bot_x_id
bot_of bot_x_id bot_o_id nought = bot_o_id

abbrev pub move_row : ℕ → ℕ → ℕ → Move Reason → MoveRow
move_row match_id bot_x_id bot_o_id m = record {
  match_id = match_id;
  move_number = m.move_number;
  bot_id = bot_of bot_x_id bot_o_id m.player;
  board_state = m.board;
  error = m.error;
}

abbrev pub match_row : Db → ℕ → ℕ → MatchOutcome → Text → MatchRow
match_row db bot_x_id bot_o_id result correlation_id = record {
  id = db.next_match_id;
  bot_x_id = bot_x_id;
  bot_o_id = bot_o_id;
  winner_id = winner_id bot_x_id bot_o_id result;
  result = result;
  correlation_id = correlation_id;
  played_at = db.now;
}

-- `MatchRepository.record`; the dispatcher has both bots' rows when it calls it.
unfoldable pub record_match : Db → ℕ → ℕ → MatchResult Reason → Text → Db
unfolding winner_id
record_match db bot_x_id bot_o_id r correlation_id = record db {
  matches = db.matches ++ match_row db bot_x_id bot_o_id r.result correlation_id ∷ [];
  moves = db.moves ++ map (move_row db.next_match_id bot_x_id bot_o_id) r.moves;
  next_match_id = suc db.next_match_id;
}

abbrev pub id_is : Option ℕ → ℕ → Bool
id_is none bot_id = false
id_is (some w) bot_id = w == bot_id

abbrev pub is_win : MatchOutcome → Bool
is_win x_wins = true
is_win o_wins = true
is_win _ = false

abbrev pub is_forfeit : MatchOutcome → Bool
is_forfeit x_forfeit = true
is_forfeit o_forfeit = true
is_forfeit _ = false

abbrev pub is_cat : MatchOutcome → Bool
is_cat cat = true
is_cat _ = false

abbrev pub takes_part : ℕ → MatchRow → Bool
takes_part bot_id m = (m.bot_x_id == bot_id) || (m.bot_o_id == bot_id)

-- `_per_version_stats`: the four counts of one bot.
unfoldable pub clean_wins : List MatchRow → ℕ → ℕ
clean_wins ms bot_id = length (keep (λ m. id_is m.winner_id bot_id && is_win m.result) ms)

unfoldable pub forfeit_wins : List MatchRow → ℕ → ℕ
forfeit_wins ms bot_id = length (keep (λ m. id_is m.winner_id bot_id && is_forfeit m.result) ms)

unfoldable pub draws : List MatchRow → ℕ → ℕ
draws ms bot_id = length (keep (λ m. takes_part bot_id m && is_cat m.result) ms)

unfoldable pub losses : List MatchRow → ℕ → ℕ
losses ms bot_id =
    length (
      keep (λ m. takes_part bot_id m && not (is_cat m.result) && not (id_is m.winner_id bot_id)) ms)
