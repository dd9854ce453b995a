-- ===== src/Pipeline/Tournament/Tests.antt =====
-- A run of the whole system: one upload, its build, its scheduling and its match against itself.
use mathlib.Core.WellFounded.{Acc}
use june_2026_tictactoe_bots.Prelude.{
  ℕ, ◌+◌, ◌≡◌, refl, subst, ◌↔◌, Bool, true, ◌&&◌, none, some, [], ◌∷◌, leb, length, here,
}
use june_2026_tictactoe_bots.Text.{Text, codes, decimal, is_space, is_break}
use june_2026_tictactoe_bots.Pods.{
  ok, raised, pod_name, PodStatus, require_ip, get_pod_ip, check_pod_phase, poll_pod,
  wait_for_pod_ready, poll_http, wait_for_http_ready,
}
use june_2026_tictactoe_bots.Match.{url_error, Bots, play_turn, game_loop, run_match_from_pods}
use june_2026_tictactoe_bots.Store.{
  NewBot, bot_row, owner_token, next_version, max_version, create, by_ids, ready_bots,
  set_pod_ready, record_match,
}
use june_2026_tictactoe_bots.Utils.{
  Source, body, string_expr, docstring, declared_in, choose_runtime, name_in, extract_bot_name,
  extract_runtime_key, versioned_name, python_version_from_runtime_key,
}
use june_2026_tictactoe_bots.Submit.{
  BuildPodMessage, ends_in_version, is_reserved, validate_bot_name, resolve_owner_token, store_bot,
  submit_valid, handle_submission,
}
use june_2026_tictactoe_bots.Engine.{cross}
use june_2026_tictactoe_bots.Play.{timeout_error}
use june_2026_tictactoe_bots.Submit.Cookies.{parse_cookie, submit_cookie}
use june_2026_tictactoe_bots.Web.Routes.{Site, post_submit, serve}
use june_2026_tictactoe_bots.Pipeline.{
  ondeck, enqueue_from, enqueue_matches, handle_pod_ready_message, fetch_match_bots,
  handle_match_ondeck, Cluster, build_and_wait, build_register_and_notify, handle_build_pod_message,
}
use june_2026_tictactoe_bots.Pipeline.Ready.{IsReady}
use june_2026_tictactoe_bots.Pipeline.Tournament.{
  Tournament, Work, Delivery, IsReached, empty, after, site_world, after_request, after_build,
  after_schedule, after_match, run_workers,
}
use june_2026_tictactoe_bots.Pipeline.Tournament.Draining.{
  Builds, IsComplete, run_workers-IsComplete,
}
use june_2026_tictactoe_bots.Pipeline.Tournament.Matches.{HasAddresses}
use june_2026_tictactoe_bots.Pipeline.Tournament.Resting.{Precedes, workers_rest}
use june_2026_tictactoe_bots.Pipeline.Tournament.Fair.{HasMatch}
use june_2026_tictactoe_bots.Pipeline.Tournament.Finished.{finished_tournament, messages_counted}

abbrev is_ascii_digit : ℕ → Bool
is_ascii_digit c = leb 48 c && leb c 57

-- Every file is a bot of the name ada.
abbrev parse : Text → Source
parse bytes = body (string_expr (codes "Name: ada\nLanguage: python-3.12\n") ∷ [])

abbrev running : PodStatus
running = record {
  phase = codes "Running";
  container_ready = true ∷ [];
  pod_ip = some (codes "10.0.0.1");
}

abbrev cluster : Cluster
cluster = record {
  create_pod = λ manifest. true;
  now = λ k. k;
  poll = λ k. ok running;
  read = λ name. ok running;
  http_now = λ k. k;
  healthy = λ k. true;
  pod_timeout = 3;
}

abbrev site : Site
site = record {
  codec = record { loads = λ text. raised; dumps = λ owned. codes "{}"; decode = λ bytes. bytes };
  is_digit = is_ascii_digit;
  parse = parse;
  sample = λ file. file;
  host = none;
  read = λ name. raised;
  post = λ ip p board. timeout_error;
  human = cross;
}

abbrev silent : Bots
silent number address p text = url_error (codes "timed out")

abbrev token : ℕ → Text
token n = codes "c"

abbrev at_start : Tournament
at_start = record {
  db = record { bots = []; matches = []; moves = []; next_bot_id = 1; next_match_id = 1; now = 0 };
  build_queue = [];
  ready_queue = [];
  ondeck_queue = [];
  published = [];
  rejected = [];
}

abbrev job : BuildPodMessage
job = record { bot_id = 1; runtime_key = codes "python-3.12" }

abbrev ada : NewBot
ada = record {
  base_name = codes "ada";
  versioned_name = codes "ada";
  version = 1;
  owner_token = codes "t";
  python_version = codes "3.12";
  runtime_key = codes "python-3.12";
  source = some (codes "x");
}

abbrev uploaded : Tournament
uploaded = record at_start {
  db = record at_start.db { bots = bot_row 1 0 ada ∷ []; next_bot_id = 2 };
  build_queue = job ∷ [];
}

abbrev built : Tournament
built = record uploaded {
  db = record uploaded.db {
    bots = record (bot_row 1 0 ada) { pod_name = some (codes "bot-1"); pod_ready = true } ∷ [];
  };
  build_queue = [];
  ready_queue = 1 ∷ [];
}

abbrev scheduled : Tournament
scheduled = record built {
  ready_queue = [];
  ondeck_queue = ondeck 1 1 (codes "c") ∷ [];
  published = ondeck 1 1 (codes "c") ∷ [];
}

abbrev finished : Tournament
finished = after_match scheduled [] (λ name. ok running) silent [] (ondeck 1 1 (codes "c"))

upload_runs :
    after_request at_start
      (serve site (site_world at_start [] true true) (post_submit (codes "x") none (codes "t")))
    ≡ uploaded
unfolding serve submit_cookie parse_cookie handle_submission extract_bot_name docstring name_in
    extract_runtime_key declared_in choose_runtime is_space is_break validate_bot_name is_reserved
    ends_in_version submit_valid store_bot resolve_owner_token owner_token create next_version
    max_version versioned_name python_version_from_runtime_key
upload_runs = refl

build_runs : after_build uploaded [] cluster job ≡ built
unfolding handle_build_pod_message build_and_wait wait_for_pod_ready poll_pod check_pod_phase
    get_pod_ip require_ip wait_for_http_ready poll_http by_ids set_pod_ready pod_name decimal
    build_register_and_notify
build_runs = refl

schedule_runs : after_schedule built [] token 1 ≡ scheduled
unfolding handle_pod_ready_message enqueue_matches enqueue_from ready_bots
schedule_runs = refl

none_rejected : finished.rejected ≡ []
unfolding handle_match_ondeck fetch_match_bots by_ids run_match_from_pods get_pod_ip require_ip
    game_loop play_turn record_match
none_rejected = refl

ada-IsReady : IsReady finished.db 1
unfolding handle_match_ondeck fetch_match_bots by_ids run_match_from_pods get_pod_ip require_ip
    game_loop play_turn record_match ready_bots
ada-IsReady = here refl

uploaded-IsReached : IsReached uploaded
uploaded-IsReached = subst IsReached upload_runs (
    after
      (empty (record {
        no_bots = refl;
        no_matches = refl;
        no_builds = refl;
        no_ready = refl;
        no_ondeck = refl;
        no_published = refl;
        no_rejected = refl;
      }))
      (Delivery.serves site (post_submit (codes "x") none (codes "t")) [] true true))

finished-IsReached : IsReached finished
finished-IsReached =
    after scheduled_reached (Delivery.works (Work.plays (λ name. ok running) silent [] refl))
  where
    built_reached : IsReached built
    built_reached =
        subst IsReached build_runs
          (after uploaded-IsReached (Delivery.works (Work.builds cluster refl)))

    scheduled_reached : IsReached scheduled
    scheduled_reached =
        subst IsReached schedule_runs
          (after built_reached (Delivery.works (Work.schedules token refl)))

finished_tournament_example :
    HasMatch finished.db.matches 1 1 ↔ (IsReady finished.db 1 × IsReady finished.db 1)
finished_tournament_example =
    finished_tournament finished finished-IsReached refl refl none_rejected 1 1

-- The match is in fact stored.
match_stored : HasMatch finished.db.matches 1 1
match_stored =
    (finished_tournament finished finished-IsReached refl refl none_rejected 1 1).1
      (ada-IsReady, ada-IsReady)

messages_counted_example : 1 ≡ 0 + (length finished.db.matches + length finished.rejected)
messages_counted_example = messages_counted finished finished-IsReached

workers_rest_example : Acc Precedes uploaded
workers_rest_example = workers_rest uploaded

running-HasAddresses : HasAddresses (λ name. ok running)
unfolding get_pod_ip require_ip
running-HasAddresses name = (codes "10.0.0.1", refl)

cluster-Builds : Builds cluster
unfolding build_and_wait wait_for_pod_ready poll_pod check_pod_phase get_pod_ip require_ip
    wait_for_http_ready poll_http
cluster-Builds name image source_b64 bot_id = refl

run_workers-IsComplete_example :
    IsComplete (run_workers (λ m. cluster) token (λ name. ok running) (λ m. silent) uploaded)
run_workers-IsComplete_example =
    run_workers-IsComplete (λ m. cluster) token (λ name. ok running) (λ m. silent) uploaded
      (λ m. cluster-Builds) running-HasAddresses (λ m k address p text h. cc) uploaded-IsReached
      refl
