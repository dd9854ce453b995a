-- ===== src/Pipeline/Tournament.antt =====
-- The loops of dispatcher/pod_builder.py, match_scheduler/main.py and dispatcher/ondeck_handler.py,
-- which take one message after the other from their queues, over the database that they share with
-- the requests to web/main.py.
pub mod Delivered
pub mod Fair
pub mod Draining
pub mod Finished
pub mod Matches
pub mod Resting
mod Tests
use june_2026_tictactoe_bots.Prelude.{
  ℕ, ◌≡◌, Bool, true, false, some, List, [], ◌∷◌, ◌++◌, if◌then◌else◌,
}
use june_2026_tictactoe_bots.Text.{Text}
use june_2026_tictactoe_bots.Pods.{Attempt, PodStatus}
use june_2026_tictactoe_bots.Engine.{MatchOutcome}
use june_2026_tictactoe_bots.Match.{Bots}
use june_2026_tictactoe_bots.Store.{Db}
use june_2026_tictactoe_bots.Utils.{Source}
use june_2026_tictactoe_bots.Submit.{
  BuildPodMessage, Event, World, Owned, Response, handle_submission,
}
use june_2026_tictactoe_bots.Web.Routes.{Site, Request, Answer, serve}
use june_2026_tictactoe_bots.Pipeline.{
  MatchOndeck, handle_pod_ready_message, handle_match_ondeck, Cluster, handle_build_pod_message,
  is_ok,
}

-- The database and the queues `matches.build`, `matches.schedule` and `matches.ondeck`. Two records are no
-- state of the program: all that was ever published to `matches.ondeck`, and the messages of it that
-- were rejected.
pub record Tournament : Type 0 where
  pub db : Db
  pub build_queue : List BuildPodMessage
  pub ready_queue : List ℕ
  pub ondeck_queue : List MatchOndeck
  pub published : List MatchOndeck
  pub rejected : List MatchOndeck

-- What a request sees of the system.
abbrev pub site_world : Tournament → List Event → Bool → Bool → World
site_world s events takes_job takes_event = record {
  db = s.db;
  build_queue = s.build_queue;
  events = events;
  takes_job = takes_job;
  takes_event = takes_event;
}

-- `message.process()`: a message leaves the queue when its handler returns, and also when it raises,
-- since it is then rejected and not put back.
abbrev pub keep_rejected : Attempt Bool → MatchOndeck → List MatchOndeck → List MatchOndeck
keep_rejected outcome m rejected = if is_ok outcome then rejected else rejected ++ m ∷ []

abbrev pub after_request : Tournament → World × Answer → Tournament
after_request s (w, answer) = record s { db = w.db; build_queue = w.build_queue }

abbrev pub after_build : Tournament → List BuildPodMessage → Cluster → BuildPodMessage → Tournament
after_build s rest c m =
    let built = handle_build_pod_message c s.db s.ready_queue (some m) in
    record s { db = built.db; build_queue = rest; ready_queue = built.ready_queue }

abbrev pub after_schedule : Tournament → List ℕ → (ℕ → Text) → ℕ → Tournament
after_schedule s rest tokens i = record s {
  ready_queue = rest;
  ondeck_queue = handle_pod_ready_message tokens s.db s.ondeck_queue (some i);
  published = handle_pod_ready_message tokens s.db s.published (some i);
}

abbrev pub after_match :
    Tournament
    → List MatchOndeck
    → (Text → Attempt PodStatus)
    → Bots
    → List MatchOutcome
    → MatchOndeck
    → Tournament
after_match s rest read bots announced m =
    let played = handle_match_ondeck read bots s.db announced (some m) in
    record s {
      db = played.db;
      ondeck_queue = rest;
      rejected = keep_rejected played.outcome m s.rejected;
    }

-- One round of one of the three loops. A loop that an exception ends is started again with its
-- process.
pub data Work : Tournament → Tournament → Type 0 where
  builds :
      {s : Tournament} {m : BuildPodMessage} {rest : List BuildPodMessage} (c : Cluster)
      → s.build_queue ≡ m ∷ rest
      → Work s (after_build s rest c m)
  schedules :
      {s : Tournament} {i : ℕ} {rest : List ℕ} (tokens : ℕ → Text)
      → s.ready_queue ≡ i ∷ rest
      → Work s (after_schedule s rest tokens i)
  plays :
      {s : Tournament} {m : MatchOndeck} {rest : List MatchOndeck} (read : Text → Attempt PodStatus)
      (bots : Bots) (announced : List MatchOutcome)
      → s.ondeck_queue ≡ m ∷ rest
      → Work s (after_match s rest read bots announced m)

-- A request to the site, or a round of a loop.
pub data Delivery : Tournament → Tournament → Type 0 where
  serves :
      {s : Tournament} (site : Site) (r : Request) (events : List Event)
      (takes_job takes_event : Bool)
      → Delivery s (after_request s (serve site (site_world s events takes_job takes_event) r))
  works : {s s' : Tournament} → Work s s' → Delivery s s'

-- No bot, no match and no message.
pub record IsEmpty (s : Tournament) : Type 0 where
  pub no_bots : s.db.bots ≡ []
  pub no_matches : s.db.matches ≡ []
  pub no_builds : s.build_queue ≡ []
  pub no_ready : s.ready_queue ≡ []
  pub no_ondeck : s.ondeck_queue ≡ []
  pub no_published : s.published ≡ []
  pub no_rejected : s.rejected ≡ []

-- The runs from an empty system.
pub data IsReached : Tournament → Type 0 where
  empty : {s : Tournament} → IsEmpty s → IsReached s
  after : {s s' : Tournament} → IsReached s → Delivery s s' → IsReached s'

-- The three loops over the messages that wait in their queues, and one after the other. An exception of
-- the handler leaves the loop, and the messages behind stay in the queue. The loop of builds also tells
-- whether it came to the end of its queue. The answers of the cluster and of the bots may differ from
-- message to message.
unfoldable pub build_loop :
    (BuildPodMessage → Cluster) → List BuildPodMessage → Tournament → Tournament × Bool
build_loop clusters [] s = (s, true)
build_loop clusters (m ∷ rest) s =
    let left = after_build s rest (clusters m) m in
    let going = build_loop clusters rest left in
    if is_ok (handle_build_pod_message (clusters m) s.db s.ready_queue (some m)).outcome
    then going
    else (left, false)

unfoldable pub schedule_loop : (ℕ → Text) → List ℕ → Tournament → Tournament
schedule_loop tokens [] s = s
schedule_loop tokens (i ∷ rest) s = schedule_loop tokens rest (after_schedule s rest tokens i)

unfoldable pub match_loop :
    (Text → Attempt PodStatus) → (MatchOndeck → Bots) → List MatchOndeck → Tournament → Tournament
match_loop read bots [] s = s
match_loop read bots (m ∷ rest) s =
    let left = after_match s rest read (bots m) [] m in
    let going = match_loop read bots rest left in
    if is_ok (handle_match_ondeck read (bots m) s.db [] (some m)).outcome then going else left

abbrev pub builds_first : (BuildPodMessage → Cluster) → Tournament → Tournament × Bool
builds_first clusters s = build_loop clusters s.build_queue s

abbrev pub schedules_next : (ℕ → Text) → Tournament → Tournament
schedules_next tokens s = schedule_loop tokens s.ready_queue s

-- The loops of builds and of matches are in one process, dispatcher/main.py, which an exception of
-- either ends.
unfoldable pub run_workers :
    (BuildPodMessage → Cluster)
    → (ℕ → Text)
    → (Text → Attempt PodStatus)
    → (MatchOndeck → Bots)
    → Tournament
    → Tournament
run_workers clusters tokens read bots s =
    let built = builds_first clusters s in
    let ready = schedules_next tokens built.0 in
    let played = match_loop read bots ready.ondeck_queue ready in if built.1 then played else ready
