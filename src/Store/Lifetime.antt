-- ===== src/Store/Lifetime.antt =====
-- `_lifetime_stats` of entities/bot/repository.py. A join on a bot's key finds its one row, or drops
-- the match.
pub mod Balance
use june_2026_tictactoe_bots.Prelude.{
  ℕ, Bool, true, false, ◌&&◌, ◌||◌, not, Option, none, some, List, length, keep, first, ◌==◌,
}
use june_2026_tictactoe_bots.Text.{Text, text_eq}
use june_2026_tictactoe_bots.Store.{Bot, MatchRow, is_cat}

abbrev base_of_row : Option Bot → Option Text
base_of_row none = none
base_of_row (some b) = some b.base_name

-- The `base_name` of the joined row.
abbrev pub base_of : List Bot → ℕ → Option Text
base_of bots bot_id = base_of_row (first (λ b. b.id == bot_id) bots)

-- `base_name == name` and `base_name != name` of a joined row.
abbrev pub is_base : Option Text → Text → Bool
is_base none name = false
is_base (some t) name = text_eq t name

abbrev pub is_other_base : Option Text → Text → Bool
is_other_base none name = false
is_other_base (some t) name = not (text_eq t name)

abbrev pub is_joined : Option Text → Bool
is_joined none = false
is_joined (some t) = true

-- The base name of the winner's row.
abbrev pub winner_base : List Bot → Option ℕ → Option Text
winner_base bots none = none
winner_base bots (some w) = base_of bots w

abbrev pub is_lifetime_win : List Bot → Text → MatchRow → Bool
is_lifetime_win bots name m =
    let x = base_of bots m.bot_x_id in
    let o = base_of bots m.bot_o_id in
    is_joined x
    && is_joined o
    && is_base (winner_base bots m.winner_id) name
    && ((m.bot_x_id == m.bot_o_id) || is_other_base x name || is_other_base o name)

-- The winner is absent, or no row of the family has its key; where there is none, the second holds too.
abbrev pub is_lifetime_loss : List Bot → Text → MatchRow → Bool
is_lifetime_loss bots name m =
    let x = base_of bots m.bot_x_id in
    let o = base_of bots m.bot_o_id in
    is_joined x
    && is_joined o
    && not (is_cat m.result)
    && (is_base x name || is_base o name)
    && (is_other_base x name || is_other_base o name)
    && not (is_base (winner_base bots m.winner_id) name)

unfoldable pub lifetime_wins : List Bot → List MatchRow → Text → ℕ
lifetime_wins bots matches name = length (keep (is_lifetime_win bots name) matches)

unfoldable pub lifetime_losses : List Bot → List MatchRow → Text → ℕ
lifetime_losses bots matches name = length (keep (is_lifetime_loss bots name) matches)
