-- ===== src/Pods.antt =====
-- dispatcher/pods.py: pod names, the pod status checks, the two polling loops and the reply of a
-- turn request. Reads of the Kubernetes API, HTTP requests and the clock are arguments.
pub mod Manifest
pub mod Waiting
pub mod Names
mod Tests
use june_2026_tictactoe_bots.Prelude.{
  ℕ, zero, suc, ◌+◌, ◌++◌, Bool, true, false, ◌||◌, ◌&&◌, Option, none, some, List, [], ◌∷◌, ltb,
  ◌≡◌, refl, ◌⊎◌, inl, inr, if◌then◌else◌,
}
use june_2026_tictactoe_bots.Text.{Text, codes, text_eq, decimal}

-- `TurnResponse`
pub record TurnResponse : Type 0 where
  pub board : Option Text
  pub error : Option Text

-- What the code reads of a pod; `container_ready` lists `container_statuses[i].ready`.
pub record PodStatus : Type 0 where
  pub phase : Text
  pub container_ready : List Bool
  pub pod_ip : Option Text

-- `f"bot-{bot_id}"`
unfoldable pub pod_name : ℕ → Text
pod_name bot_id = codes "bot-" ++ decimal bot_id

-- `not s` for an optional string: None and "" are both false.
abbrev pub is_truthy : Option Text → Bool
is_truthy none = false
is_truthy (some []) = false
is_truthy (some (c ∷ s)) = true

-- The result of one call of an operation that may raise.
pub data Attempt {ℓ} (A : Type ℓ) : Type ℓ where
  ok : A → Attempt A
  raised : Attempt A

pub Attempt-cases {ℓ} : {A : Type ℓ} (r : Attempt A) → (r ≡ raised) ⊎ ((a : A) × (r ≡ ok a))
Attempt-cases raised = inl refl
Attempt-cases (ok a) = inr (a, refl)

unfoldable pub require_ip : Option Text → Attempt Text
require_ip none = raised
require_ip (some []) = raised
require_ip (some (c ∷ s)) = ok (c ∷ s)

-- `read_namespaced_pod` is the argument; it raises for a pod that is not there.
unfoldable pub get_pod_ip : (Text → Attempt PodStatus) → Text → Attempt Text
unfolding require_ip
get_pod_ip read name = elim (read name) [ ok pod ↦ require_ip pod.pod_ip | raised ↦ raised ]

pub data Phase : Type 0 where
  failed pending ready : Phase

abbrev pub head_ready : List Bool → Bool
head_ready [] = false
head_ready (b ∷ bs) = b

-- `failed` is the RuntimeError of a terminal phase; `ready` and `pending` are True and False.
unfoldable pub check_pod_phase : PodStatus → Phase
check_pod_phase pod =
    if text_eq pod.phase (codes "Failed") || text_eq pod.phase (codes "Unknown")
    then failed
    else if text_eq pod.phase (codes "Running") && head_ready pod.container_ready
    then ready
    else pending

-- How a polling loop ends; `out_of_fuel` is no behaviour of the code.
pub data Wait : Type 0 where
  is_ready timed_out broken out_of_fuel : Wait

after_phase : Wait → Phase → Wait
after_phase rest failed = broken
after_phase rest ready = is_ready
after_phase rest pending = rest

after_read : Wait → Attempt PodStatus → Wait
unfolding after_phase
after_read rest raised = broken
after_read rest (ok pod) = after_phase rest (check_pod_phase pod)

-- The loop of `wait_for_pod_ready` from its `k`-th round on. `now k` is the clock at that round's
-- test and `read k` the pod that the round sees.
unfoldable pub poll_pod : (ℕ → ℕ) → (ℕ → Attempt PodStatus) → ℕ → ℕ → ℕ → Wait
unfolding after_read
poll_pod now read deadline k zero = out_of_fuel
poll_pod now read deadline k (suc fuel) =
    let rest = poll_pod now read deadline (suc k) fuel in
    if ltb (now k) deadline then after_read rest (read k) else timed_out

unfoldable pub wait_for_pod_ready : (ℕ → ℕ) → (ℕ → Attempt PodStatus) → ℕ → ℕ → Wait
unfolding poll_pod
wait_for_pod_ready now read timeout fuel = poll_pod now read (now zero + timeout) zero fuel

-- The loop of `wait_for_http_ready`; `healthy k` tells whether the request of round `k` succeeds.
unfoldable pub poll_http : (ℕ → ℕ) → (ℕ → Bool) → ℕ → ℕ → ℕ → Wait
poll_http now healthy deadline k zero = out_of_fuel
poll_http now healthy deadline k (suc fuel) =
    let rest = poll_http now healthy deadline (suc k) fuel in
    if ltb (now k) deadline then if healthy k then is_ready else rest else timed_out

unfoldable pub wait_for_http_ready : (ℕ → ℕ) → (ℕ → Bool) → ℕ → ℕ → Wait
unfolding poll_http
wait_for_http_ready now healthy timeout fuel = poll_http now healthy (now zero + timeout) zero fuel
