-- ===== src/Web/Routes.antt =====
-- The routes of web/main.py over the state of the site: which handler answers which request.
use june_2026_tictactoe_bots.Prelude.{ℕ, Bool, Option, List, [], ◌∷◌}
use june_2026_tictactoe_bots.Text.{Text, codes}
use june_2026_tictactoe_bots.Pods.{Attempt, PodStatus}
use june_2026_tictactoe_bots.Engine.{Player}
use june_2026_tictactoe_bots.Utils.{Source}
use june_2026_tictactoe_bots.Submit.{World, Page}
use june_2026_tictactoe_bots.Submit.Cookies.{Codec, submit_cookie}
use june_2026_tictactoe_bots.Play.{TurnRequest, HttpReply, PlayResponse, handle_play_turn}
use june_2026_tictactoe_bots.Play.Pages.{
  PlayPage, render_play_page, handle_set_player_name, render_play_vs_page,
}
use june_2026_tictactoe_bots.Web.{
  SitePage, show_leaderboard, show_dashboard, show_matches, bot_family, match_detail,
  bot_match_detail,
}

-- What the routes use from outside: the codec of cookies, the digits of `\d`, the parser of sources, the
-- files beside the templates, HOST_IP, the cluster, the bots' pods and the lot for the human's symbol.
pub record Site : Type 0 where
  pub codec : Codec
  pub is_digit : ℕ → Bool
  pub parse : Text → Source
  pub sample : Text → Text
  pub host : Option Text
  pub read : Text → Attempt PodStatus
  pub post : Text → Player → Text → HttpReply
  pub human : Player

-- A request that FastAPI has matched with a route, with the parts that the route takes. An upload also
-- has the value that `secrets.token_hex` gives for it.
pub data Request : Type 0 where
  get_home : Request
  get_submit : Request
  post_submit : Text → Option Text → Text → Request
  get_play : Option Text → Request
  post_play_name : Text → Request
  get_play_vs : ℕ → Option Text → Request
  post_play_turn : TurnRequest → Request
  get_leaderboard : Request
  get_dashboard : Request
  get_matches : Request
  get_bot : Text → Request
  get_match : ℕ → Request
  get_bot_match : Text → ℕ → Request

-- What is answered: the values of the page's template.
pub data Answer : Type 0 where
  home_page : Text → Text → Answer
  submit_form : Answer
  submit_page : Attempt Page → Answer
  play_page : PlayPage → Answer
  name_page : PlayPage → Option Text → Answer
  turn_json : PlayResponse → Answer
  site_page : SitePage → Answer

abbrev submit_answer : World × Attempt Page → World × Answer
submit_answer (w, page) = (w, submit_page page)

abbrev name_answer : PlayPage × Option Text → Answer
name_answer (page, cookie) = name_page page cookie

-- The route functions of `app`.
unfoldable pub serve : Site → World → Request → World × Answer
serve site w get_home = (
  w,
  home_page (site.sample (codes "template_bot.py")) (site.sample (codes "test_template_bot.py")),
)
serve site w get_submit = (w, submit_form)
serve site w (post_submit bytes cookie new_token) =
    submit_answer (submit_cookie site.codec site.is_digit site.parse w cookie new_token bytes)
serve site w (get_play cookie) = (w, play_page (render_play_page w.db cookie))
serve site w (post_play_name player_name) = (w, name_answer (handle_set_player_name player_name))
serve site w (get_play_vs bot_id cookie) =
    (w, play_page (render_play_vs_page site.human w.db bot_id cookie))
serve site w (post_play_turn payload) =
    (w, turn_json (handle_play_turn site.read site.post w.db payload))
serve site w get_leaderboard = (w, site_page (show_leaderboard w.db))
serve site w get_dashboard = (w, site_page (show_dashboard site.host w.db))
serve site w get_matches = (w, site_page (show_matches w.db))
serve site w (get_bot base_name) = (w, site_page (bot_family w.db base_name))
serve site w (get_match match_id) = (w, site_page (match_detail w.db match_id))
serve site w (get_bot_match base_name match_id) =
    (w, site_page (bot_match_detail w.db base_name match_id))

-- Requests one after the other, and the state that they leave.
unfoldable pub serve_all : Site → World → List Request → World
unfolding serve
serve_all site w [] = w
serve_all site w (r ∷ rs) = serve_all site (serve site w r).0 rs
