-- ===== src/Pipeline/Tournament/Draining.antt =====
-- The three loops to the end of their queues: dispatcher/pod_builder.py, match_scheduler/main.py and
-- dispatcher/ondeck_handler.py.
use june_2026_tictactoe_bots.Prelude.{
  ℕ, ◌≡◌, refl, sym, subst, if◌then◌else◌, ap, ◌∙◌, ◌↔◌, inl, inr, true, some, List, [], ◌∷◌,
  Bool-cases, Option-cases,
}
use june_2026_tictactoe_bots.Text.{Text}
use june_2026_tictactoe_bots.Pods.{Attempt, ok, PodStatus, pod_name}
use june_2026_tictactoe_bots.Match.{Bots}
use june_2026_tictactoe_bots.Submit.{BuildPodMessage}
use june_2026_tictactoe_bots.Pipeline.{
  MatchOndeck, Cluster, is_ok, build_and_wait, build_fetched, build_register_and_notify,
  handle_build_pod_message, handle_match_ondeck, get_bot, image_of, source_of,
}
use june_2026_tictactoe_bots.Store.{Db, by_ids}
use june_2026_tictactoe_bots.Text.Base64.{b64encode}
use june_2026_tictactoe_bots.Utils.{in_runtimes}
use june_2026_tictactoe_bots.Pipeline.Ready.{IsReady}
use june_2026_tictactoe_bots.Pipeline.Tournament.{
  Tournament, Work, Delivery, IsReached, after, keep_rejected, after_build, after_schedule,
  after_match, build_loop, schedule_loop, match_loop, builds_first, schedules_next, run_workers,
}
use june_2026_tictactoe_bots.Pipeline.Tournament.Delivered.{head-IsReady}
use june_2026_tictactoe_bots.Pipeline.Tournament.Fair.{HasMatch}
use june_2026_tictactoe_bots.Pipeline.Tournament.Finished.{IsReached-IsFair, finished_tournament}
use june_2026_tictactoe_bots.Pipeline.Tournament.Matches.{
  HasAddresses, IsCalm, handle_match_ondeck-calm,
}

-- A loop's last state is reached, and the loop left the list of rejected messages alone.
abbrev Runs : Tournament → Tournament → Type 0
Runs s t = IsReached t × (t.rejected ≡ s.rejected)

-- All four calls of a build succeed: the pod is created, is ready in time, has an address and serves.
abbrev pub Builds : Cluster → Type 0
Builds c =
    (name image source_b64 : Text) (bot_id : ℕ)
    → build_and_wait c name image source_b64 bot_id ≡ true

-- Then the handler does not raise, also where it returns early.
handle_build_pod_message-Builds :
    (c : Cluster) (db : Db) (queue : List ℕ) (m : BuildPodMessage)
    → Builds c
    → is_ok (handle_build_pod_message c db queue (some m)).outcome ≡ true
unfolding handle_build_pod_message build_fetched build_register_and_notify
handle_build_pod_message-Builds c db queue m h = elim (Bool-cases (in_runtimes m.runtime_key)) [
  | inr unknown ↦ rw unknown refl
  | inl known ↦ elim (Option-cases (get_bot m.bot_id (by_ids db (m.bot_id ∷ [])))) [
    | inl missing ↦ rw (known, missing, build_fetched) refl
    | inr (bot, found) ↦
        rw (known, found, build_fetched)
          (rw (h (pod_name bot.id) (image_of m.runtime_key) (b64encode (source_of bot)) bot.id)
            refl)
  ]
]

build_loop-Runs :
    (clusters : BuildPodMessage → Cluster) (jobs : List BuildPodMessage) (s : Tournament)
    → ((m : BuildPodMessage) → Builds (clusters m))
    → s.build_queue ≡ jobs
    → IsReached s
    → Runs s (build_loop clusters jobs s).0
      × ((build_loop clusters jobs s).0.build_queue ≡ [])
      × ((build_loop clusters jobs s).1 ≡ true)
unfolding build_loop
build_loop-Runs clusters [] s works e run = ((run, refl), e, refl)
build_loop-Runs clusters (m ∷ rest) s works e run =
    rw (handle_build_pod_message-Builds (clusters m) s.db s.ready_queue m (works m)) (
      build_loop-Runs clusters rest (after_build s rest (clusters m) m) works refl
        (after run (Delivery.works (Work.builds (clusters m) e))))

schedule_loop-Runs :
    (tokens : ℕ → Text) (ids : List ℕ) (s : Tournament)
    → s.ready_queue ≡ ids
    → IsReached s
    → Runs s (schedule_loop tokens ids s)
      × (((schedule_loop tokens ids s).ready_queue ≡ [])
          × ((schedule_loop tokens ids s).build_queue ≡ s.build_queue))
unfolding schedule_loop
schedule_loop-Runs tokens [] s e run = ((run, refl), (e, refl))
schedule_loop-Runs tokens (i ∷ rest) s e run =
    schedule_loop-Runs tokens rest (after_schedule s rest tokens i) refl
      (after run (Delivery.works (Work.schedules tokens e)))

-- Such a state in which no match waits, and the other two queues are as they were.
abbrev RunsOut : Tournament → Tournament → Type 0
RunsOut s t =
    Runs s t
    × ((t.ondeck_queue ≡ []) × ((t.ready_queue ≡ s.ready_queue) × (t.build_queue ≡ s.build_queue)))

module _ (read : Text → Attempt PodStatus) (bots : MatchOndeck → Bots)
    (addresses : HasAddresses read) (calm : (m : MatchOndeck) → IsCalm (bots m)) where
  head_handled :
      (s : Tournament) (m : MatchOndeck) (rest : List MatchOndeck)
      → s.ondeck_queue ≡ m ∷ rest
      → IsReached s
      → (handle_match_ondeck read (bots m) s.db [] (some m)).outcome ≡ ok true
  head_handled s m rest e run =
      let v = IsReached-IsFair run in
      let (x, o) = head-IsReady s m rest e v in
      handle_match_ondeck-calm read (bots m) s.db [] m v.sane x o addresses (calm m)

  goes_on :
      (s : Tournament) (m : MatchOndeck) (rest : List MatchOndeck)
      → (handle_match_ondeck read (bots m) s.db [] (some m)).outcome ≡ ok true
      → match_loop read bots (m ∷ rest) s
        ≡ match_loop read bots rest (after_match s rest read (bots m) [] m)
  unfolding match_loop
  goes_on s m rest handled =
      let left = after_match s rest read (bots m) [] m in
      ap (λ o. if is_ok o then match_loop read bots rest left else left) handled

  match_loop-Runs :
      (ms : List MatchOndeck) (s : Tournament)
      → s.ondeck_queue ≡ ms
      → IsReached s
      → RunsOut s (match_loop read bots ms s)
  unfolding match_loop
  match_loop-Runs [] s e run = ((run, refl), (e, (refl, refl)))
  match_loop-Runs (m ∷ rest) s e run =
      let handled = head_handled s m rest e run in
      let ((reached, same), queues) =
        match_loop-Runs rest (after_match s rest read (bots m) [] m) refl
          (after run (Delivery.works (Work.plays read (bots m) [] e))) in
      let kept = ap (λ outcome. keep_rejected outcome m s.rejected) handled in
      subst (RunsOut s) (sym (goes_on s m rest handled)) ((reached, same ∙ kept), queues)

-- All queues are empty, no match was lost, and each ordered pair of ready bots has a stored match, and
-- no other pair has one.
abbrev pub IsComplete : Tournament → Type 0
IsComplete t =
    (t.build_queue ≡ [])
    × (t.ready_queue ≡ [])
    × (t.ondeck_queue ≡ [])
    × (t.rejected ≡ [])
    × ((i j : ℕ) → HasMatch t.db.matches i j ↔ (IsReady t.db i × IsReady t.db j))

-- From any state that requests and workers reach with no message rejected, one run of the three loops
-- over their queues completes the round robin, if on the cluster of each job the four calls of a build
-- succeed, every pod then has an address, and every request to a bot ends with a reply or a `URLError`.
pub run_workers-IsComplete :
    (clusters : BuildPodMessage → Cluster) (tokens : ℕ → Text) (read : Text → Attempt PodStatus)
    (bots : MatchOndeck → Bots) (s : Tournament)
    → ((m : BuildPodMessage) → Builds (clusters m))
    → HasAddresses read
    → ((m : MatchOndeck) → IsCalm (bots m))
    → IsReached s
    → s.rejected ≡ []
    → IsComplete (run_workers clusters tokens read bots s)
unfolding run_workers
run_workers-IsComplete clusters tokens read bots s works addresses calm run fine =
    let built = (builds_first clusters s).0 in
    let ready = schedules_next tokens built in
    let ((run_b, same_b), no_builds, whole) =
      build_loop-Runs clusters s.build_queue s works refl run in
    let ((run_r, same_r), (no_ready, kept)) =
      schedule_loop-Runs tokens built.ready_queue built refl run_b in
    let ((run_m, same_m), (no_ondeck, (kept_r, kept_b))) =
      match_loop-Runs read bots addresses calm ready.ondeck_queue ready refl run_r in
    let played = match_loop read bots ready.ondeck_queue ready in
    let none_left = kept_r ∙ no_ready in
    let none_lost = same_m ∙ same_r ∙ same_b ∙ fine in
    subst IsComplete (sym (ap (λ to_end. if to_end then played else ready) whole)) (
      kept_b ∙ kept ∙ no_builds,
      none_left,
      no_ondeck,
      none_lost,
      finished_tournament played run_m none_left no_ondeck none_lost,
    )
