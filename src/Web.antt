-- ===== src/Web.antt =====
-- web/main.py: what the pages of the site show, as functions of the database. The templates are left
-- out: a page is the values that it is given.
pub mod Dashboard
pub mod Streaming
pub mod MatchPage
pub mod Routes
pub mod Serving
mod Tests
use june_2026_tictactoe_bots.Prelude.{ℕ, Bool, Option, none, some, List, [], ◌∷◌, ◌++◌, map}
use june_2026_tictactoe_bots.Text.{Text, codes, strip}
use june_2026_tictactoe_bots.Store.{Db, Bot}
use june_2026_tictactoe_bots.Store.Leaderboard.{
  Standing, leaderboard, VersionRow, family, ready_bots_for_play,
}
use june_2026_tictactoe_bots.Store.Listings.{
  MatchView, match_by_id, list_all, list_for_bot, MoveView, for_match,
}
use june_2026_tictactoe_bots.Utils.{NamedMatch, Groups, group_matches_by_version}

-- The context of match_detail.html; the JSON of the moves holds the same rows.
pub record MatchContext : Type 0 where
  pub shown : MatchView
  pub moves : List MoveView
  pub back_url : Text
  pub back_label : Text

-- A response: a page with its context, or the 404 page.
pub data SitePage : Type 0 where
  leaderboard_page : List Standing → SitePage
  dashboard_page : List Standing → Option Text → SitePage
  matches_page : List MatchView → SitePage
  family_page : Text → List VersionRow → Groups → SitePage
  match_page : MatchContext → SitePage
  no_page : SitePage

-- `leaderboard`
unfoldable pub show_leaderboard : Db → SitePage
show_leaderboard db = leaderboard_page (leaderboard db)

-- `os.environ.get("HOST_IP", "").strip() or None`
abbrev pub host_ip : Option Text → Option Text
host_ip none = none
host_ip (some s) = elim (strip s) [ [] ↦ none | ◌∷◌ c t ↦ some (c ∷ t) ]

-- `dashboard`
unfoldable pub show_dashboard : Option Text → Db → SitePage
show_dashboard host db = dashboard_page (leaderboard db) (host_ip host)

-- `matches`
unfoldable pub show_matches : Db → SitePage
show_matches db = matches_page (list_all db)

abbrev pub named_match : MatchView → NamedMatch
named_match v = record { bot_x = v.bot_x; bot_o = v.bot_o; match_id = v.id }

family_of : Db → Text → List VersionRow → SitePage
family_of db base_name [] = no_page
family_of db base_name (v ∷ versions) = family_page base_name (v ∷ versions) (
    group_matches_by_version (map (λ r. r.versioned_name) (v ∷ versions))
      (map named_match (list_for_bot db base_name)))

-- `bot_family`
unfoldable pub bot_family : Db → Text → SitePage
unfolding family_of
bot_family db base_name = family_of db base_name (family db base_name)

unfoldable pub page_of : Db → ℕ → Text → Text → Option MatchView → SitePage
page_of db match_id back_url back_label none = no_page
page_of db match_id back_url back_label (some v) = match_page (record {
  shown = v;
  moves = for_match db match_id;
  back_url = back_url;
  back_label = back_label;
})

-- `_render_match`
unfoldable pub render_match : Db → ℕ → Text → Text → Option Text → SitePage
unfolding page_of
render_match db match_id back_url back_label bot_base_name =
    page_of db match_id back_url back_label (match_by_id db match_id bot_base_name)

-- `match_detail`
unfoldable pub match_detail : Db → ℕ → SitePage
unfolding render_match
match_detail db match_id =
    render_match db match_id (codes "/matches") (codes "Back to matches") none

-- `bot_match_detail`
unfoldable pub bot_match_detail : Db → Text → ℕ → SitePage
unfolding render_match
bot_match_detail db base_name match_id =
    render_match db match_id (codes "/bots/" ++ base_name) (codes "Back to " ++ base_name)
      (some base_name)
