-- ===== src/Pipeline/Tournament/Matches.antt =====
-- What one message of `matches.ondeck` leads to when both of its bots are ready.
use june_2026_tictactoe_bots.Prelude.{ℕ, ◌≢◌, ◌≡◌, refl, ◌⊎◌, inl, inr, true, some, List}
use june_2026_tictactoe_bots.Text.{Text}
use june_2026_tictactoe_bots.Pods.{Attempt, ok, raised, PodStatus, get_pod_ip}
use june_2026_tictactoe_bots.Engine.{Player, cross, empty_board, MatchResult, MatchOutcome}
use june_2026_tictactoe_bots.Match.{
  failed, Reason, Bots, Run, returned, no_result, run_match_from_pods,
}
use june_2026_tictactoe_bots.Match.Rules.{Game}
use june_2026_tictactoe_bots.Match.Legal.{
  IsSound, run_match_from_pods-IsSound, HasResult, run_match_from_pods-HasResult,
}
use june_2026_tictactoe_bots.Store.{Db, record_match}
use june_2026_tictactoe_bots.Pipeline.{
  MatchOndeck, name_or_empty, Played, after_run, run_fetched, handle_match_ondeck,
}
use june_2026_tictactoe_bots.Pipeline.Fetching.{IsSane, fetch_match_bots-IsReady}
use june_2026_tictactoe_bots.Pipeline.Ready.{IsReady}

-- The handler raised and stored nothing, or it stored a game by the rules.
abbrev pub Plays : Db → MatchOndeck → Played → Type 0
Plays db m r =
    ((r.outcome ≡ raised) × (r.db ≡ db))
    ⊎ ((game : MatchResult Reason) × (r.outcome ≡ ok true)
        × Game 1 cross empty_board game.moves game.result
        × (r.db ≡ record_match db m.bot_x_id m.bot_o_id game m.correlation_id))

after_run-Plays :
    (db : Db) (announced : List MatchOutcome) (m : MatchOndeck) (run : Run)
    → IsSound run
    → Plays db m (after_run db announced m run)
unfolding after_run
after_run-Plays db announced m (returned game) h = inr (game, refl, h, refl)
after_run-Plays db announced m no_result h = inl (refl, refl)
after_run-Plays db announced m Run.crashed h = inl (refl, refl)

-- A message of two ready bots is not passed over: its match is stored, or its handler raises.
pub handle_match_ondeck-Plays :
    (read : Text → Attempt PodStatus) (bots : Bots) (db : Db) (announced : List MatchOutcome)
    (m : MatchOndeck)
    → IsSane db
    → IsReady db m.bot_x_id
    → IsReady db m.bot_o_id
    → Plays db m (handle_match_ondeck read bots db announced (some m))
unfolding handle_match_ondeck run_fetched
handle_match_ondeck-Plays read bots db announced m v hx ho =
    let (x, (o, found)) = fetch_match_bots-IsReady db m.bot_x_id m.bot_o_id v hx ho in
    rw (found, run_fetched)
      (after_run-Plays db announced m
        (run_match_from_pods read bots (name_or_empty x.pod_name) (name_or_empty o.pod_name))
        (run_match_from_pods-IsSound read bots (name_or_empty x.pod_name)
          (name_or_empty o.pod_name)))

-- Every pod has an address.
abbrev pub HasAddresses : (Text → Attempt PodStatus) → Type 0
HasAddresses read = (name : Text) → (ip : Text) × (get_pod_ip read name ≡ ok ip)

-- Every request to a bot ends with a reply or a `URLError`.
abbrev pub IsCalm : Bots → Type 0
IsCalm bots = (k : ℕ) (address : Text) (p : Player) (text : Text) → bots k address p text ≢ failed

after_run-returned :
    (db : Db) (announced : List MatchOutcome) (m : MatchOndeck) (run : Run)
    → HasResult run
    → (after_run db announced m run).outcome ≡ ok true
unfolding after_run
after_run-returned db announced m run (game, e) = rw (e, after_run) refl

-- A message of two ready bots, whose pods have addresses and whose requests end, is handled.
pub handle_match_ondeck-calm :
    (read : Text → Attempt PodStatus) (bots : Bots) (db : Db) (announced : List MatchOutcome)
    (m : MatchOndeck)
    → IsSane db
    → IsReady db m.bot_x_id
    → IsReady db m.bot_o_id
    → HasAddresses read
    → IsCalm bots
    → (handle_match_ondeck read bots db announced (some m)).outcome ≡ ok true
unfolding handle_match_ondeck run_fetched
handle_match_ondeck-calm read bots db announced m v hx ho addresses calm =
    let (x, (o, found)) = fetch_match_bots-IsReady db m.bot_x_id m.bot_o_id v hx ho in
    rw (found, run_fetched)
      (after_run-returned db announced m
        (run_match_from_pods read bots (name_or_empty x.pod_name) (name_or_empty o.pod_name))
        (run_match_from_pods-HasResult read bots (name_or_empty x.pod_name)
          (name_or_empty o.pod_name) (addresses (name_or_empty x.pod_name)).1
          (addresses (name_or_empty o.pod_name)).1 calm))
