-- ===== src/Pipeline/Steps.antt =====
-- What the handlers of the pod builder and of the dispatcher do on every branch.
use june_2026_tictactoe_bots.Prelude.{
  ℕ, ◌≡◌, refl, ◌⊎◌, inl, inr, Bool, true, Option, none, some, List, [], ◌∷◌, ◌++◌, ◌==◌,
  Bool-cases, Any, here, there, keep, ==_iff, ◌≢◌, ap, sym,
}
use june_2026_tictactoe_bots.Text.{Text}
use june_2026_tictactoe_bots.Text.Base64.{b64encode}
use june_2026_tictactoe_bots.Pods.{Attempt, ok, PodStatus, pod_name}
use june_2026_tictactoe_bots.Engine.{cross, empty_board, MatchResult, MatchOutcome}
use june_2026_tictactoe_bots.Match.{Reason, Bots, Run, returned, no_result}
use june_2026_tictactoe_bots.Match.Rules.{Game}
use june_2026_tictactoe_bots.Match.Legal.{IsSound, run_match_from_pods-IsSound}
use june_2026_tictactoe_bots.Store.{Db, Bot, by_ids, record_match, set_pod_ready}
use june_2026_tictactoe_bots.Utils.{in_runtimes}
use june_2026_tictactoe_bots.Submit.{BuildPodMessage}
use june_2026_tictactoe_bots.Pipeline.{
  MatchOndeck, get_bot, fetch_match_bots, name_or_empty, Played, after_run, run_fetched,
  handle_match_ondeck, Cluster, build_and_wait, source_of, image_of, Built,
  build_register_and_notify, build_fetched, handle_build_pod_message,
}
use june_2026_tictactoe_bots.Pipeline.Scheduling.{HasId}

abbrev pub Member : Bot → List Bot → Type 0
Member b bs = Any (λ c. c ≡ b) bs

keep-Member : (p : Bot → Bool) (bs : List Bot) (b : Bot) → Member b (keep p bs) → Member b bs
keep-Member p [] b h = h
keep-Member p (x ∷ xs) b h = elim (Bool-cases (p x)) [
  | inl hit ↦ head (keep-Member p xs b) (rw hit at h)
  | inr miss ↦ there (keep-Member p xs b (rw miss at h))
]
  where
    head : (Member b (keep p xs) → Member b xs) → Member b (x ∷ keep p xs) → Member b (x ∷ xs)
    head rest (here e) = here e
    head rest (there g) = there (rest g)

-- What the lookup finds is in the list, under the key.
get_bot-Member :
    (k : ℕ) (bs : List Bot) (b : Bot) → get_bot k bs ≡ some b → Member b bs × (b.id ≡ k)
get_bot-Member k [] b e = cc
get_bot-Member k (x ∷ xs) b e = elim (Bool-cases (x.id == k)) [
  | inl hit ↦ found (rw hit at e) ((==_iff x.id k).0 hit)
  | inr miss ↦ let (h, same) = get_bot-Member k xs b (rw miss at e) in (there h, same)
]
  where
    found : some x ≡ some b → x.id ≡ k → Member b (x ∷ xs) × (b.id ≡ k)
    found h same = (here cc, cc)

pub Member-HasId : (bs : List Bot) (b : Bot) → Member b bs → HasId bs b.id
Member-HasId [] b h = elim h [ ]
Member-HasId (x ∷ xs) b (here e) = here (ap (λ y. y.id) e)
Member-HasId (x ∷ xs) b (there h) = there (Member-HasId xs b h)

-- The build changed nothing and did not succeed; or it succeeded: the message names a bot of the table
-- and a runtime of the allowlist, all four calls succeeded with the bot's source, the bot became ready
-- and its id was published.
abbrev pub Building : Cluster → Db → List ℕ → Option BuildPodMessage → Built → Type 0
Building c db q message r =
    ((r.db ≡ db) × (r.ready_queue ≡ q) × (r.outcome ≢ ok true))
    ⊎ ((b : Bot) × ((key : Text) × (in_runtimes key ≡ true)
          × Member b db.bots
          × (message ≡ some (record { bot_id = b.id; runtime_key = key }))
          × (build_and_wait c (pod_name b.id) (image_of key) (b64encode (source_of b)) b.id ≡ true)
          × (r.db ≡ set_pod_ready db b.id (pod_name b.id))
          × (r.ready_queue ≡ q ++ b.id ∷ [])
          × (r.outcome ≡ ok true)))

build_fetched-Building :
    (c : Cluster) (db : Db) (q : List ℕ) (m : BuildPodMessage) (o : Option Bot)
    → in_runtimes m.runtime_key ≡ true
    → ((b : Bot) → o ≡ some b → Member b db.bots × (b.id ≡ m.bot_id))
    → Building c db q (some m) (build_fetched c db q m.runtime_key o)
unfolding build_fetched build_register_and_notify
build_fetched-Building c db q m none k h = inl (refl, refl, λ e. cc)
build_fetched-Building c db q m (some b) k h =
    elim (Bool-cases
      (build_and_wait c (pod_name b.id) (image_of m.runtime_key) (b64encode (source_of b)) b.id)) [
        | inl built ↦
            let (found, same) = h b refl in
            rw built (
              inr (
                b,
                (
                  m.runtime_key,
                  k,
                  found,
                  ap (λ i. some (record m { bot_id = i })) (sym same),
                  built,
                  refl,
                  refl,
                  refl,
                ),
              ))
        | inr broken ↦ rw broken (inl (refl, refl, λ e. cc))
      ]

-- A build job either changes neither the database nor the queue of ready bots and does not count as
-- built, or it names a bot of the table and a runtime of the allowlist, all calls of the build succeed on
-- the runtime's image and the bot's encoded source, and that bot is set ready with its pod's name and
-- its id is published.
pub handle_build_pod_message-Building :
    (c : Cluster) (db : Db) (q : List ℕ) (m : Option BuildPodMessage)
    → Building c db q m (handle_build_pod_message c db q m)
unfolding handle_build_pod_message by_ids
handle_build_pod_message-Building c db q none = inl (refl, refl, λ e. cc)
handle_build_pod_message-Building c db q (some m) = elim (Bool-cases (in_runtimes m.runtime_key)) [
  | inl known ↦ rw known (
      build_fetched-Building c db q m (get_bot m.bot_id (by_ids db (m.bot_id ∷ []))) known (λ b e.
        let (h, same) = get_bot-Member m.bot_id (by_ids db (m.bot_id ∷ [])) b e in
        (keep-Member _ db.bots b h, same)))
  | inr unknown ↦ rw unknown (inl (refl, refl, λ e. cc))
]

-- The handler recorded nothing; or it recorded one game by the rules between the message's bots, with
-- the message's token, and told the dashboards its result.
abbrev pub Recorded : Db → List MatchOutcome → Option MatchOndeck → Played → Type 0
Recorded db announced message r =
    ((r.db ≡ db) × (r.announced ≡ announced))
    ⊎ ((m : MatchOndeck) × ((game : MatchResult Reason) × (message ≡ some m)
          × Game 1 cross empty_board game.moves game.result
          × (r.db ≡ record_match db m.bot_x_id m.bot_o_id game m.correlation_id)
          × (r.announced ≡ announced ++ game.result ∷ [])))

after_run-Recorded :
    (db : Db) (announced : List MatchOutcome) (m : MatchOndeck) (run : Run)
    → IsSound run
    → Recorded db announced (some m) (after_run db announced m run)
unfolding after_run
after_run-Recorded db announced m (returned game) h = inr (m, (game, refl, h, refl, refl))
after_run-Recorded db announced m no_result h = inl (refl, refl)
after_run-Recorded db announced m Run.crashed h = inl (refl, refl)

run_fetched-Recorded :
    (read : Text → Attempt PodStatus) (bots : Bots) (db : Db) (announced : List MatchOutcome)
    (m : MatchOndeck)
    → (o : Option (Bot × Bot))
    → Recorded db announced (some m) (run_fetched read bots db announced m o)
unfolding run_fetched
run_fetched-Recorded read bots db announced m none = inl (refl, refl)
run_fetched-Recorded read bots db announced m (some (x, o)) =
    after_run-Recorded db announced m _
      (run_match_from_pods-IsSound read bots (name_or_empty x.pod_name) (name_or_empty o.pod_name))

pub handle_match_ondeck-Recorded :
    (read : Text → Attempt PodStatus) (bots : Bots) (db : Db) (announced : List MatchOutcome)
    (message : Option MatchOndeck)
    → Recorded db announced message (handle_match_ondeck read bots db announced message)
unfolding handle_match_ondeck
handle_match_ondeck-Recorded read bots db announced none = inl (refl, refl)
handle_match_ondeck-Recorded read bots db announced (some m) =
    run_fetched-Recorded read bots db announced m (fetch_match_bots db m.bot_x_id m.bot_o_id)
