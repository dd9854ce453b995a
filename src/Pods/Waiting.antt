-- ===== src/Pods/Waiting.antt =====
-- The polling loops of dispatcher/pods.py end, and what they report is so.
use june_2026_tictactoe_bots.Prelude.{
  ℕ, zero, suc, ◌+◌, ◌≤◌, ◌<◌, ◌≡◌, refl, ◌≢◌, Bool, true, ◌⊎◌, inl, inr, arith, ltb, Bool-cases,
}
use june_2026_tictactoe_bots.Pods.{
  Attempt, ok, raised, PodStatus, Phase, pending, ready, check_pod_phase, Wait, is_ready, broken,
  out_of_fuel, poll_pod, after_read, after_phase, wait_for_pod_ready, poll_http,
  wait_for_http_ready,
}

-- A sleep lasts: the clock is ahead by one unit at least when the next round begins.
abbrev pub Advances : (ℕ → ℕ) → Type 0
Advances now = (k : ℕ) → now k + 1 ≤ now (suc k)

-- Some round before the deadline saw the pod running with its container ready.
abbrev pub SawReady : (ℕ → ℕ) → (ℕ → Attempt PodStatus) → ℕ → Type 0
SawReady now read deadline =
    (j : ℕ) × (now j < deadline)
    × ((pod : PodStatus) × (read j ≡ ok pod) × (check_pod_phase pod ≡ ready))

after_phase-cases :
    (rest : Wait) (ph : Phase)
    → (after_phase rest ph ≡ broken)
      ⊎ ((after_phase rest ph ≡ is_ready) × (ph ≡ ready))
      ⊎ (after_phase rest ph ≡ rest)
unfolding after_phase
after_phase-cases rest Phase.failed = inl refl
after_phase-cases rest ready = inr (inl (refl, refl))
after_phase-cases rest pending = inr (inr refl)

after_read-cases :
    (rest : Wait) (r : Attempt PodStatus)
    → (after_read rest r ≡ broken)
      ⊎ ((after_read rest r ≡ is_ready)
          × ((pod : PodStatus) × (r ≡ ok pod) × (check_pod_phase pod ≡ ready)))
      ⊎ (after_read rest r ≡ rest)
unfolding after_read
after_read-cases rest raised = inl refl
after_read-cases rest (ok pod) = elim (after_phase-cases rest (check_pod_phase pod)) [
  | inl e ↦ inl e
  | inr (inl (e, f)) ↦ inr (inl (e, (pod, refl, f)))
  | inr (inr e) ↦ inr (inr e)
]

module _ (now : ℕ → ℕ) (read : ℕ → Attempt PodStatus) (deadline : ℕ) where
  poll_pod-ends :
      Advances now
      → (k fuel : ℕ) → deadline ≤ now k + fuel
      → poll_pod now read deadline k (suc fuel) ≢ out_of_fuel
  unfolding poll_pod
  poll_pod-ends adv k zero h e = ground (arith, e)
  poll_pod-ends adv k (suc fuel) h e = elim (Bool-cases (ltb (now k) deadline)) [
    | inl go_on ↦
        let rest = poll_pod now read deadline (suc k) (suc fuel) in
        elim (after_read-cases rest (read k)) [
          | inl f ↦ cc (rw (go_on, f) at e)
          | inr (inl f) ↦ cc (rw (go_on, f.0) at e)
          | inr (inr f) ↦ poll_pod-ends adv (suc k) fuel (omega (arith, adv k)) (rw (go_on, f) at e)
        ]
    | inr stop ↦ cc (rw stop at e)
  ]

  poll_pod-ready :
      (k fuel : ℕ) → poll_pod now read deadline k fuel ≡ is_ready → SawReady now read deadline
  unfolding poll_pod
  poll_pod-ready k zero e = cc
  poll_pod-ready k (suc fuel) e = elim (Bool-cases (ltb (now k) deadline)) [
    | inl go_on ↦ elim (after_read-cases (poll_pod now read deadline (suc k) fuel) (read k)) [
      | inl f ↦ cc (rw (go_on, f) at e)
      | inr (inl f) ↦ (k, ground arith, f.1)
      | inr (inr f) ↦ poll_pod-ready (suc k) fuel (rw (go_on, f) at e)
    ]
    | inr stop ↦ cc (rw stop at e)
  ]

-- On a clock that advances by a unit in each sleep, `timeout + 1` rounds are enough for the wait to
-- end.
pub wait_for_pod_ready-ends :
    (now : ℕ → ℕ) (read : ℕ → Attempt PodStatus) (timeout : ℕ)
    → Advances now
    → wait_for_pod_ready now read timeout (suc timeout) ≢ out_of_fuel
unfolding wait_for_pod_ready
wait_for_pod_ready-ends now read timeout adv =
    poll_pod-ends now read (now zero + timeout) adv zero timeout (omega arith)

-- The wait reports a ready pod only if a read before the deadline showed one.
pub wait_for_pod_ready-SawReady :
    (now : ℕ → ℕ) (read : ℕ → Attempt PodStatus) (timeout fuel : ℕ)
    → wait_for_pod_ready now read timeout fuel ≡ is_ready
    → SawReady now read (now zero + timeout)
unfolding wait_for_pod_ready
wait_for_pod_ready-SawReady now read timeout fuel =
    poll_pod-ready now read (now zero + timeout) zero fuel

module _ (now : ℕ → ℕ) (healthy : ℕ → Bool) (deadline : ℕ) where
  poll_http-ends :
      Advances now
      → (k fuel : ℕ) → deadline ≤ now k + fuel
      → poll_http now healthy deadline k (suc fuel) ≢ out_of_fuel
  unfolding poll_http
  poll_http-ends adv k zero h e = ground (arith, e)
  poll_http-ends adv k (suc fuel) h e = ground (arith, adv k, e, poll_http-ends adv (suc k) fuel)

  poll_http-ready :
      (k fuel : ℕ)
      → poll_http now healthy deadline k fuel ≡ is_ready
      → (j : ℕ) × (now j < deadline) × (healthy j ≡ true)
  unfolding poll_http
  poll_http-ready k zero e = cc
  poll_http-ready k (suc fuel) e = elim (Bool-cases (ltb (now k) deadline)) [
    | inl go_on ↦ elim (Bool-cases (healthy k)) [
      | inl up ↦ (k, ground arith, up)
      | inr down ↦ poll_http-ready (suc k) fuel (rw (go_on, down) at e)
    ]
    | inr stop ↦ cc (rw stop at e)
  ]

-- On a clock that advances by a unit in each sleep, `timeout + 1` rounds are enough for the wait for
-- HTTP to end.
pub wait_for_http_ready-ends :
    (now : ℕ → ℕ) (healthy : ℕ → Bool) (timeout : ℕ)
    → Advances now
    → wait_for_http_ready now healthy timeout (suc timeout) ≢ out_of_fuel
unfolding wait_for_http_ready
wait_for_http_ready-ends now healthy timeout adv =
    poll_http-ends now healthy (now zero + timeout) adv zero timeout (omega arith)

-- The wait for HTTP reports success only if a request before the deadline succeeded.
pub wait_for_http_ready-healthy :
    (now : ℕ → ℕ) (healthy : ℕ → Bool) (timeout fuel : ℕ)
    → wait_for_http_ready now healthy timeout fuel ≡ is_ready
    → (j : ℕ) × (now j < now zero + timeout) × (healthy j ≡ true)
unfolding wait_for_http_ready
wait_for_http_ready-healthy now healthy timeout fuel =
    poll_http-ready now healthy (now zero + timeout) zero fuel
