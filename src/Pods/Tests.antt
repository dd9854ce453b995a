-- ===== src/Pods/Tests.antt =====
-- Runs of dispatcher/pods.py.
use june_2026_tictactoe_bots.Prelude.{ℕ, ◌+◌, ◌≡◌, refl, true, some, [], ◌∷◌, leb, if◌then◌else◌}
use june_2026_tictactoe_bots.Text.{codes}
use june_2026_tictactoe_bots.Pods.{
  check_pod_phase, Attempt, ok, PodStatus, is_ready, poll_pod, wait_for_pod_ready, poll_http,
  wait_for_http_ready,
}

-- A pod that runs from the second read on, and a clock of two seconds a round.
abbrev running : PodStatus
running = record {
  phase = codes "Running";
  container_ready = true ∷ [];
  pod_ip = some (codes "10.0.0.1");
}

abbrev pending_pod : PodStatus
pending_pod = record { phase = codes "Pending"; container_ready = []; pod_ip = some [] }

abbrev read_pod : ℕ → Attempt PodStatus
read_pod k = if leb 1 k then ok running else ok pending_pod

abbrev every_two : ℕ → ℕ
every_two k = k + k

wait_for_pod_ready_runs : wait_for_pod_ready every_two read_pod 60 61 ≡ is_ready
unfolding wait_for_pod_ready poll_pod check_pod_phase
wait_for_pod_ready_runs = refl

wait_for_http_ready_runs : wait_for_http_ready every_two (λ k. leb 3 k) 60 61 ≡ is_ready
unfolding wait_for_http_ready poll_http
wait_for_http_ready_runs = refl
