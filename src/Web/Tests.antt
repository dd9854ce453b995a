-- ===== src/Web/Tests.antt =====
-- Runs of the pages.
use june_2026_tictactoe_bots.Prelude.{
  ℕ, arith, ◌≡◌, refl, Bool, false, ◌&&◌, leb, ◌==◌, if◌then◌else◌, none, some, List, [], ◌∷◌, ◌++◌,
  true,
}
use june_2026_tictactoe_bots.Text.{Text, codes}
use june_2026_tictactoe_bots.Pods.{ok, raised}
use june_2026_tictactoe_bots.Play.{timeout_error}
use june_2026_tictactoe_bots.Utils.{Source, body, string_expr, versioned_name}
use june_2026_tictactoe_bots.Submit.{World, ends_in_version, is_reserved}
use june_2026_tictactoe_bots.Submit.Names.{IsDigitClass}
use june_2026_tictactoe_bots.Web.Dashboard.{
  was_sent, disconnected, after_send, forward, Tab, with_connection, dashboard_ws,
}
use june_2026_tictactoe_bots.Web.Routes.{
  Site, Request, get_leaderboard, post_submit, get_bot, serve_all,
}
use june_2026_tictactoe_bots.Web.Serving.{IsWellKept, serve_all-IsWellKept}
use june_2026_tictactoe_bots.Engine.{empty_board, cross, x_forfeit, MatchResult}
use june_2026_tictactoe_bots.Match.{Reason, no_output, refused}
use june_2026_tictactoe_bots.Match.Rules.{forfeits}
use june_2026_tictactoe_bots.Store.{Db, Bot, by_id, owner_token, record_match}
use june_2026_tictactoe_bots.Store.Record.{IsValid}
use june_2026_tictactoe_bots.Web.{match_detail, bot_match_detail}
use june_2026_tictactoe_bots.Web.MatchPage.{page_for, match_pages-record_match}

abbrev alice : Bot
alice = record {
  id = 1;
  base_name = codes "alice";
  versioned_name = codes "alice";
  version = 1;
  owner_token = codes "a1";
  source = none;
  python_version = codes "3.12";
  runtime_key = codes "python-3.12";
  pod_name = some (codes "bot-1");
  pod_ready = true;
  submitted_at = 0;
}

abbrev bob : Bot
bob = record alice { id = 2; base_name = codes "bob"; versioned_name = codes "bob" }

abbrev site : Db
site = record {
  bots = alice ∷ bob ∷ [];
  matches = [];
  moves = [];
  next_bot_id = 3;
  next_match_id = 1;
  now = 5;
}

site-IsValid : IsValid site
site-IsValid = record {
  bots_distinct = (((λ e. omega arith), tt), (tt, tt));
  matches_distinct = tt;
  bot_ids = omega arith;
  match_ids = tt;
  move_matches = tt;
  scored = tt;
}

-- Alice printed nothing.
abbrev lost : MatchResult Reason
lost = record { result = x_forfeit; moves = refused 1 cross empty_board no_output ∷ [] }

alice_found : by_id site 1 ≡ some alice
unfolding by_id
alice_found = refl

bob_found : by_id site 2 ≡ some bob
unfolding by_id
bob_found = refl

match_pages-record_match_example :
    (match_detail (record_match site 1 2 lost (codes "c")) 1
      ≡ page_for site alice bob lost (codes "c") (codes "/matches") (codes "Back to matches"))
    × (bot_match_detail (record_match site 1 2 lost (codes "c")) (codes "bob") 1
        ≡ page_for site alice bob lost
            (codes "c")
            (codes "/bots/" ++ codes "bob")
            (codes "Back to " ++ codes "bob"))
match_pages-record_match_example =
    match_pages-record_match site alice bob lost (codes "c") (codes "bob") site-IsValid alice_found
      bob_found (forfeits no_output) refl

abbrev is_ascii_digit : ℕ → Bool
is_ascii_digit c = leb 48 c && leb c 57

is_ascii_digit-IsDigitClass : IsDigitClass is_ascii_digit
is_ascii_digit-IsDigitClass = record { ascii = λ c h. ground (arith, h); not_v = refl }

-- Every file is a bot of the name alice.
abbrev parse : Text → Source
parse bytes = body (string_expr (codes "Name: alice\nLanguage: python-3.12\n") ∷ [])

abbrev served : Site
served = record {
  codec = record { loads = λ text. raised; dumps = λ owned. codes "{}"; decode = λ bytes. bytes };
  is_digit = is_ascii_digit;
  parse = parse;
  sample = λ file. file;
  host = none;
  read = λ name. raised;
  post = λ ip p board. timeout_error;
  human = cross;
}

abbrev world : World
world = record { db = site; build_queue = []; events = []; takes_job = true; takes_event = true }

site-IsWellKept : IsWellKept is_ascii_digit site
unfolding versioned_name is_reserved ends_in_version owner_token
site-IsWellKept = record {
  named = (
    record { named = alice_name; unreserved = alice_free },
    (record { named = bob_name; unreserved = bob_free }, tt),
  );
  versions = ((λ e. cc, tt), (tt, tt));
  owners = ((alice_owner, λ h. cc), ((bob_owner, λ h. cc), tt));
}
  where
    alice_name : codes "alice" ≡ versioned_name (codes "alice") 1
    alice_name = refl

    bob_name : codes "bob" ≡ versioned_name (codes "bob") 1
    bob_name = refl

    alice_free : is_reserved is_ascii_digit (codes "alice") ≡ false
    alice_free = refl

    bob_free : is_reserved is_ascii_digit (codes "bob") ≡ false
    bob_free = refl

    alice_owner : owner_token site (codes "alice") ≡ some (codes "a1")
    alice_owner = refl

    bob_owner : owner_token site (codes "bob") ≡ some (codes "a1")
    bob_owner = refl

-- A look at the leaderboard, an upload, and a look at the family.
abbrev visits : List Request
visits = get_leaderboard ∷ post_submit (codes "x") none (codes "t") ∷ get_bot (codes "alice") ∷ []

serve_all-IsWellKept_example : IsWellKept is_ascii_digit (serve_all served world visits).db
serve_all-IsWellKept_example =
    serve_all-IsWellKept served is_ascii_digit-IsDigitClass world visits (tt, ((λ h. cc), (tt, tt)))
      site-IsWellKept

-- The third send fails.
abbrev tab : Tab
tab = record {
  connect = ok 1;
  binds = true;
  sends = λ k. if k == 2 then disconnected else was_sent;
  is_closed = false;
}

abbrev events : List Text
events = codes "a" ∷ codes "b" ∷ codes "c" ∷ codes "d" ∷ []

two_sent : (dashboard_ws tab events).sent ≡ codes "a" ∷ codes "b" ∷ []
unfolding dashboard_ws with_connection forward after_send
two_sent = refl
