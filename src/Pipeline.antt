-- ===== src/Pipeline.antt =====
-- The workers: dispatcher/pod_builder.py, match_scheduler/main.py and dispatcher/ondeck_handler.py, each
-- as a handler of one message, and the system that they make with uploads. A body that does not parse
-- is `none`. Publishing succeeds.
pub mod Scheduling
pub mod Ready
pub mod Fetching
pub mod Rounds
pub mod Sources
pub mod Steps
pub mod Tournament
mod Tests
use june_2026_tictactoe_bots.Prelude.{
  ℕ, zero, suc, ◌+◌, Bool, true, false, Option, none, some, List, [], ◌∷◌, ◌++◌, first, ◌==◌,
  if◌then◌else◌,
}
use june_2026_tictactoe_bots.Text.{Text, codes, text_eq}
use june_2026_tictactoe_bots.Pods.{
  Attempt, ok, raised, PodStatus, get_pod_ip, pod_name, Wait, is_ready, wait_for_pod_ready,
  wait_for_http_ready,
}
use june_2026_tictactoe_bots.Text.Base64.{b64encode}
use june_2026_tictactoe_bots.Pods.Manifest.{PodManifest, build_bot_pod_manifest}
use june_2026_tictactoe_bots.Engine.{MatchOutcome, MatchResult}
use june_2026_tictactoe_bots.Match.{Reason, Run, returned, no_result, Bots, run_match_from_pods}
use june_2026_tictactoe_bots.Store.{Db, Bot, by_ids, ready_bots, set_pod_ready, record_match}
use june_2026_tictactoe_bots.Utils.{in_runtimes, drop}
use june_2026_tictactoe_bots.Submit.{BuildPodMessage}

-- `MatchOndeck`
pub record MatchOndeck : Type 0 where
  pub bot_x_id : ℕ
  pub bot_o_id : ℕ
  pub correlation_id : Text

abbrev pub ondeck : ℕ → ℕ → Text → MatchOndeck
ondeck x o token = record { bot_x_id = x; bot_o_id = o; correlation_id = token }

-- What the loop of `_enqueue_matches` publishes for one bot; `tokens` are the values of
-- `secrets.token_hex`, by the count at the time.
abbrev pub pairings : (ℕ → Text) → ℕ → ℕ → ℕ → List MatchOndeck
pairings tokens bot_id count other_id =
    ondeck bot_id other_id (tokens count)
    ∷ (if other_id == bot_id then [] else ondeck other_id bot_id (tokens (count + 1)) ∷ [])

-- The loop, with the queue and the count.
unfoldable pub enqueue_from :
    (ℕ → Text) → ℕ → List MatchOndeck → ℕ → List Bot → List MatchOndeck × ℕ
enqueue_from tokens bot_id queue count [] = (queue, count)
enqueue_from tokens bot_id queue count (b ∷ bs) =
    enqueue_from tokens bot_id (queue ++ pairings tokens bot_id count b.id)
      (if b.id == bot_id then count + 1 else count + 2) bs

-- `_enqueue_matches`: the queue `matches.ondeck`, and the number of messages published.
unfoldable pub enqueue_matches : (ℕ → Text) → List MatchOndeck → ℕ → List Bot → List MatchOndeck × ℕ
unfolding enqueue_from
enqueue_matches tokens queue bot_id bots = enqueue_from tokens bot_id queue 0 bots

-- `handle_pod_ready_message`
unfoldable pub handle_pod_ready_message :
    (ℕ → Text) → Db → List MatchOndeck → Option ℕ → List MatchOndeck
handle_pod_ready_message tokens db queue none = queue
handle_pod_ready_message tokens db queue (some bot_id) =
    (enqueue_matches tokens queue bot_id (ready_bots db)).0

-- `bot_map.get(bot_id)`
abbrev pub get_bot : ℕ → List Bot → Option Bot
get_bot bot_id bots = first (λ b. b.id == bot_id) bots

with_pods : Option Bot → Option Bot → Option (Bot × Bot)
with_pods (some x) (some o) = elim x.pod_name [
  | none ↦ none
  | some name_x ↦ elim o.pod_name [ none ↦ none | some name_o ↦ some (x, o) ]
]
with_pods _ _ = none

-- `_fetch_match_bots`
unfoldable pub fetch_match_bots : Db → ℕ → ℕ → Option (Bot × Bot)
unfolding with_pods
fetch_match_bots db bot_x_id bot_o_id =
    let bot_map = by_ids db (bot_x_id ∷ bot_o_id ∷ []) in
    with_pods (get_bot bot_x_id bot_map) (get_bot bot_o_id bot_map)

abbrev pub name_or_empty : Option Text → Text
name_or_empty none = []
name_or_empty (some name) = name

-- After the match: the database, and the results that were published to the dashboards. The attempt
-- raises where the handler does.
pub record Played : Type 0 where
  pub db : Db
  pub announced : List MatchOutcome
  pub outcome : Attempt Bool

after_run : Db → List MatchOutcome → MatchOndeck → Run → Played
after_run db announced m (returned r) = record {
  db = record_match db m.bot_x_id m.bot_o_id r m.correlation_id;
  announced = announced ++ r.result ∷ [];
  outcome = ok true;
}
after_run db announced m no_result = record { db = db; announced = announced; outcome = raised }
after_run db announced m Run.crashed = record { db = db; announced = announced; outcome = raised }

run_fetched :
    (Text → Attempt PodStatus)
    → Bots
    → Db
    → List MatchOutcome
    → MatchOndeck
    → Option (Bot × Bot)
    → Played
unfolding after_run
run_fetched read bots db announced m none = record {
  db = db;
  announced = announced;
  outcome = ok false;
}
run_fetched read bots db announced m (some (x, o)) =
    after_run db announced m
      (run_match_from_pods read bots (name_or_empty x.pod_name) (name_or_empty o.pod_name))

-- `handle_match_ondeck`; `ok true` is a match that was recorded and `ok false` an early return.
unfoldable pub handle_match_ondeck :
    (Text → Attempt PodStatus) → Bots → Db → List MatchOutcome → Option MatchOndeck → Played
unfolding run_fetched
handle_match_ondeck read bots db announced none = record {
  db = db;
  announced = announced;
  outcome = ok false;
}
handle_match_ondeck read bots db announced (some m) =
    run_fetched read bots db announced m (fetch_match_bots db m.bot_x_id m.bot_o_id)

-- The cluster as the pod builder sees it, for one build.
pub record Cluster : Type 0 where
  pub create_pod : PodManifest → Bool
  pub now : ℕ → ℕ
  pub poll : ℕ → Attempt PodStatus
  pub read : Text → Attempt PodStatus
  pub http_now : ℕ → ℕ
  pub healthy : ℕ → Bool
  pub pod_timeout : ℕ

abbrev pub is_wait_ready : Wait → Bool
is_wait_ready is_ready = true
is_wait_ready _ = false

abbrev pub is_ok {ℓ} : {A : Type ℓ} → Attempt A → Bool
is_ok (ok a) = true
is_ok raised = false

-- The image of a runtime key: `RUNTIMES[key].image`.
abbrev pub image_of : Text → Text
image_of key = codes "pyowa/bot-runner-python:" ++ drop 7 key

-- `_build_and_wait`: false is an exception of any of its four calls.
unfoldable pub build_and_wait : Cluster → Text → Text → Text → ℕ → Bool
build_and_wait c name image source_b64 bot_id =
    if c.create_pod (build_bot_pod_manifest name image source_b64 bot_id)
    then if is_wait_ready (wait_for_pod_ready c.now c.poll c.pod_timeout (suc c.pod_timeout))
      then if is_ok (get_pod_ip c.read name)
        then is_wait_ready
            (wait_for_http_ready c.http_now c.healthy c.pod_timeout (suc c.pod_timeout))
        else false
      else false
    else false

-- After a build: the database and the queue `matches.schedule` of bot ids.
pub record Built : Type 0 where
  pub db : Db
  pub ready_queue : List ℕ
  pub outcome : Attempt Bool

-- `bot.source or b""`
abbrev pub source_of : Bot → Text
source_of bot = elim bot.source [ none ↦ [] | some source ↦ source ]

-- `_build_register_and_notify`
unfoldable pub build_register_and_notify : Cluster → Db → List ℕ → Bot → Text → Built
build_register_and_notify c db queue bot image =
    if build_and_wait c (pod_name bot.id) image (b64encode (source_of bot)) bot.id
    then record {
      db = set_pod_ready db bot.id (pod_name bot.id);
      ready_queue = queue ++ bot.id ∷ [];
      outcome = ok true;
    }
    else record { db = db; ready_queue = queue; outcome = raised }

unfoldable pub build_fetched : Cluster → Db → List ℕ → Text → Option Bot → Built
build_fetched c db queue key none = record { db = db; ready_queue = queue; outcome = ok false }
build_fetched c db queue key (some bot) = build_register_and_notify c db queue bot (image_of key)

-- `handle_build_pod_message`, with `_fetch_bot_and_runtime`.
unfoldable pub handle_build_pod_message : Cluster → Db → List ℕ → Option BuildPodMessage → Built
unfolding build_fetched
handle_build_pod_message c db queue none = record {
  db = db;
  ready_queue = queue;
  outcome = ok false;
}
handle_build_pod_message c db queue (some m) =
    if in_runtimes m.runtime_key
    then build_fetched c db queue m.runtime_key (get_bot m.bot_id (by_ids db (m.bot_id ∷ [])))
    else record { db = db; ready_queue = queue; outcome = ok false }
