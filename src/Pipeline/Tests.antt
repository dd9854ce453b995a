-- ===== src/Pipeline/Tests.antt =====
-- Runs of the workers, and a run of the system with one bot.
use june_2026_tictactoe_bots.Prelude.{
  ℕ, ◌≡◌, refl, arith, All, true, Option, none, some, List, [], ◌∷◌, here, if◌then◌else◌,
}
use june_2026_tictactoe_bots.Text.{Text, codes, text_eq}
use june_2026_tictactoe_bots.Text.Laws.{text_eq_refl}
use june_2026_tictactoe_bots.Pipeline.Sources.{
  SetsVariable, HasBytes, RunsSource, handle_build_pod_message-RunsSource,
}
use june_2026_tictactoe_bots.Pods.{
  ok, PodStatus, require_ip, get_pod_ip, check_pod_phase, poll_pod, wait_for_pod_ready, poll_http,
  wait_for_http_ready,
}
use june_2026_tictactoe_bots.Match.{url_error, Bots}
use june_2026_tictactoe_bots.Store.{Db, NewBot, bot_row, create, by_ids, ready_bots, set_pod_ready}
use june_2026_tictactoe_bots.Submit.{BuildPodMessage}
use june_2026_tictactoe_bots.Pipeline.{
  handle_pod_ready_message, Cluster, build_and_wait, build_register_and_notify, build_fetched,
  handle_build_pod_message,
}
use june_2026_tictactoe_bots.Pipeline.Ready.{IsReady}
use june_2026_tictactoe_bots.Pipeline.Rounds.{
  System, uploads, builds, schedules, Reachable, starts, steps,
}
use june_2026_tictactoe_bots.Pipeline.Steps.{Building, handle_build_pod_message-Building}

abbrev alice : NewBot
alice = record {
  base_name = codes "alice";
  versioned_name = codes "alice";
  version = 1;
  owner_token = codes "a1";
  python_version = codes "3.12";
  runtime_key = codes "python-3.12";
  source = none;
}

abbrev empty_db : Db
empty_db = record {
  bots = [];
  matches = [];
  moves = [];
  next_bot_id = 1;
  next_match_id = 1;
  now = 0;
}

abbrev one_bot : Db
one_bot = record empty_db { bots = bot_row 1 0 alice ∷ []; next_bot_id = 2 }

abbrev running : PodStatus
running = record {
  phase = codes "Running";
  container_ready = true ∷ [];
  pod_ip = some (codes "10.0.0.1");
}

abbrev cluster : Cluster
cluster = record {
  create_pod = λ manifest. true;
  now = λ k. k;
  poll = λ k. ok running;
  read = λ name. ok running;
  http_now = λ k. k;
  healthy = λ k. true;
  pod_timeout = 3;
}

abbrev job : BuildPodMessage
job = record { bot_id = 1; runtime_key = codes "python-3.12" }

abbrev silent : Bots
silent number address p text = url_error (codes "timed out")

abbrev token : ℕ → Text
token n = codes "c"

handle_build_pod_message-Building_example :
    Building cluster one_bot [] (some job) (handle_build_pod_message cluster one_bot [] (some job))
handle_build_pod_message-Building_example =
    handle_build_pod_message-Building cluster one_bot [] (some job)

abbrev at_start : System
at_start = record { db = empty_db; ready_queue = []; published = [] }

abbrev uploaded : System
uploaded = record at_start { db = one_bot }

abbrev built : System
built = record uploaded {
  db = (handle_build_pod_message cluster one_bot [] (some job)).db;
  ready_queue = (handle_build_pod_message cluster one_bot [] (some job)).ready_queue;
}

abbrev scheduled : System
scheduled = record built {
  ready_queue = [];
  published = handle_pod_ready_message token built.db [] (some 1);
}

create_runs : create empty_db alice ≡ ok (one_bot, bot_row 1 0 alice)
unfolding create
create_runs = refl

built_queue : built.ready_queue ≡ 1 ∷ []
unfolding handle_build_pod_message build_fetched build_register_and_notify build_and_wait
    wait_for_pod_ready poll_pod check_pod_phase get_pod_ip require_ip wait_for_http_ready poll_http
    by_ids
built_queue = refl

built-IsReady : IsReady built.db 1
unfolding handle_build_pod_message build_fetched build_register_and_notify build_and_wait
    wait_for_pod_ready poll_pod check_pod_phase get_pod_ip require_ip wait_for_http_ready poll_http
    by_ids ready_bots set_pod_ready
built-IsReady = here refl

scheduled-Reachable : Reachable scheduled
scheduled-Reachable =
    steps {s = built}
      (steps {s = uploaded}
        (steps {s = at_start} (starts refl refl refl)
          (uploads alice (bot_row 1 0 alice) create_runs))
        (builds cluster (some job)))
      (schedules token built_queue)

abbrev coded_db : Db
coded_db = record one_bot {
  bots = record (bot_row 1 0 alice) { source = some (codes "x=()") } ∷ [];
}

abbrev sole_variable : List (Text × Text) → Text → Option Text
sole_variable [] name = none
sole_variable ((key, value) ∷ env) name = if text_eq key name then some value else none

sole_variable-SetsVariable : SetsVariable (λ c. sole_variable c.env)
sole_variable-SetsVariable c name value e = rw (e, text_eq_refl name) refl

coded_db-HasBytes : All HasBytes coded_db.bots
coded_db-HasBytes = ((omega arith, (omega arith, (omega arith, (omega arith, tt)))), tt)

coded_succeeds : (handle_build_pod_message cluster coded_db [] (some job)).outcome ≡ ok true
unfolding handle_build_pod_message build_fetched build_register_and_notify build_and_wait
    wait_for_pod_ready poll_pod check_pod_phase get_pod_ip require_ip wait_for_http_ready poll_http
    by_ids
coded_succeeds = refl

handle_build_pod_message-RunsSource_example :
    RunsSource cluster (λ c. sole_variable c.env) coded_db (some job)
handle_build_pod_message-RunsSource_example =
    handle_build_pod_message-RunsSource cluster (λ c. sole_variable c.env) coded_db [] (some job)
      sole_variable-SetsVariable coded_db-HasBytes coded_succeeds
