-- ===== src/Store/Listings.antt =====
-- entities/match/repository.py and entities/move/repository.py: the queries that list matches and
-- moves. Rows that a query's order leaves tied keep the order of the table.
pub mod Recording
use june_2026_tictactoe_bots.Prelude.{
  ℕ, Bool, true, false, ◌&&◌, ◌||◌, Option, none, some, List, [], ◌∷◌, ◌++◌, keep, first, sort_by,
  leb, ◌==◌, if◌then◌else◌,
}
use june_2026_tictactoe_bots.Text.{Text, text_eq}
use june_2026_tictactoe_bots.Engine.{MatchOutcome}
use june_2026_tictactoe_bots.Match.{Reason}
use june_2026_tictactoe_bots.Store.{Db, Bot, MatchRow, MoveRow, by_id}

-- A row of `_match_select`.
pub record MatchView : Type 0 where
  pub id : ℕ
  pub bot_x : Text
  pub bot_x_base : Text
  pub bot_x_python : Text
  pub bot_o : Text
  pub bot_o_base : Text
  pub bot_o_python : Text
  pub winner : Option Text
  pub result : MatchOutcome
  pub played_at : ℕ

-- The name of the outer join with the winner's row.
abbrev pub name_of : Option Bot → Option Text
name_of none = none
name_of (some b) = some b.versioned_name

abbrev pub winner_row : Db → Option ℕ → Option Bot
winner_row db none = none
winner_row db (some w) = by_id db w

abbrev pub view : MatchRow → Bot → Bot → Option Text → MatchView
view m x o winner = record {
  id = m.id;
  bot_x = x.versioned_name;
  bot_x_base = x.base_name;
  bot_x_python = x.python_version;
  bot_o = o.versioned_name;
  bot_o_base = o.base_name;
  bot_o_python = o.python_version;
  winner = winner;
  result = m.result;
  played_at = m.played_at;
}

-- The inner joins with both bots.
abbrev pub join_bots : MatchRow → Option Bot → Option Bot → Option Text → List MatchView
join_bots m (some x) (some o) winner = view m x o winner ∷ []
join_bots m _ _ winner = []

abbrev pub join_match : Db → MatchRow → List MatchView
join_match db m =
    join_bots m (by_id db m.bot_x_id) (by_id db m.bot_o_id) (name_of (winner_row db m.winner_id))

-- `_match_select`, over matches of the table.
unfoldable pub match_select : Db → List MatchRow → List MatchView
match_select db [] = []
match_select db (m ∷ ms) = join_match db m ++ match_select db ms

-- The filter on a family; `none` filters nothing.
abbrev pub is_of_family : Option Text → MatchView → Bool
is_of_family none v = true
is_of_family (some base) v = text_eq v.bot_x_base base || text_eq v.bot_o_base base

-- `MatchRepository.by_id`
unfoldable pub match_by_id : Db → ℕ → Option Text → Option MatchView
unfolding match_select
match_by_id db match_id family =
    first (λ v. (v.id == match_id) && is_of_family family v) (match_select db db.matches)

abbrev pub newest_first : List MatchView → List MatchView
newest_first vs = sort_by (λ v w. leb w.played_at v.played_at) vs

-- `MatchRepository.list_all`
unfoldable pub list_all : Db → List MatchView
unfolding match_select
list_all db = newest_first (match_select db db.matches)

-- `MatchRepository.list_for_bot`
unfoldable pub list_for_bot : Db → Text → List MatchView
unfolding match_select
list_for_bot db base_name =
    newest_first (keep (is_of_family (some base_name)) (match_select db db.matches))

-- A row of `MoveRepository.for_match`.
pub record MoveView : Type 0 where
  pub move_number : ℕ
  pub board_state : Text
  pub error : Option Reason
  pub bot_name : Text

abbrev pub join_mover : MoveRow → Option Bot → List MoveView
join_mover m none = []
join_mover m (some b) =
    record {
      move_number = m.move_number;
      board_state = m.board_state;
      error = m.error;
      bot_name = b.versioned_name;
    }
    ∷ []

unfoldable pub with_movers : Db → List MoveRow → List MoveView
with_movers db [] = []
with_movers db (m ∷ ms) = join_mover m (by_id db m.bot_id) ++ with_movers db ms

abbrev pub by_number : MoveView → MoveView → Bool
by_number v w = leb v.move_number w.move_number

-- `MoveRepository.for_match`
unfoldable pub for_match : Db → ℕ → List MoveView
unfolding with_movers
for_match db match_id =
    sort_by by_number (with_movers db (keep (λ m. m.match_id == match_id) db.moves))
