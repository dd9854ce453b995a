-- ===== src/Messaging/Health.antt =====
-- messaging/health.py: the probes, the worker's echo handler and the router that runs the checks.
use june_2026_tictactoe_bots.Prelude.{
  Bool, true, false, Option, none, some, List, [], ◌∷◌, ◌++◌, all, if◌then◌else◌,
}
use june_2026_tictactoe_bots.Text.{Text, codes, text_eq}
use june_2026_tictactoe_bots.Text.Json.{Json, object, other_value, item}
use june_2026_tictactoe_bots.Pods.{Attempt, ok, raised}

-- How a call of the broker or of the database ends; an exception comes with its `repr`.
pub data Trial {ℓ} (A : Type ℓ) : Type ℓ where
  passed : A → Trial A
  failed : Text → Trial A

-- What the second component of a check's result says.
pub data DownReason : Type 0 where
  exception : Text → DownReason
  echo_mismatch : Option Text → DownReason
  sub_status : Text → Option Text → DownReason

-- `("ok", None)` and `("down", reason)`
pub data Status : Type 0 where
  up : Status
  down : DownReason → Status

abbrev pub is_up : Status → Bool
is_up up = true
is_up (down r) = false

abbrev pub status_of : Trial (Unit {0}) → Status
status_of (passed done) = up
status_of (failed e) = down (exception e)

-- `db_check`, by how the session and its `SELECT 1` end.
unfoldable pub db_check : Trial (Unit {0}) → Status
db_check session = status_of session

-- `a`, and where it passes `b`.
abbrev pub and_then {ℓ} : {A : Type ℓ} → Trial (Unit {0}) → Trial A → Trial A
and_then (passed done) b = b
and_then (failed e) b = failed e

-- The `finally` of a check: the connection is closed if it was opened, which may raise.
abbrev pub closing : Trial (Unit {0}) → Trial (Unit {0}) → Status → Attempt Status
closing (passed opened) (failed e) status = raised
closing connect close status = ok status

-- `broker_check`, by how the connection, the channel, the passive declaration and the closing end.
unfoldable pub broker_check :
    Trial (Unit {0}) → Trial (Unit {0}) → Trial (Unit {0}) → Trial (Unit {0}) → Attempt Status
broker_check connect channel declare close =
    closing connect close (status_of (and_then connect (and_then channel declare)))

-- `"ok"`, or `f"down: {reason}"`
abbrev pub field_of : Trial (Unit {0}) → Text
field_of (passed done) = codes "ok"
field_of (failed e) = codes "down: " ++ e

-- The handler of `make_health_echo_handler`, by how the session and the declaration end.
unfoldable pub health_echo : Trial (Unit {0}) → Trial (Unit {0}) → Text → Json
health_echo session declare payload = object (
    (codes "echo", some payload)
    ∷ (codes "db", some (field_of session))
    ∷ (codes "publish_queue", some (field_of declare))
    ∷ [])

abbrev pub optional_eq : Option Text → Text → Bool
optional_eq none s = false
optional_eq (some t) s = text_eq t s

-- The loop over the fields of the reply.
unfoldable pub check_fields : List (Text × Option Text) → Status
check_fields [] = up
check_fields ((key, value) ∷ items) =
    if text_eq key (codes "echo")
    then check_fields items
    else if optional_eq value (codes "ok")
    then check_fields items
    else down (sub_status key value)

abbrev pub echoed : List (Text × Option Text) → Option Text
echoed items = elim (item (codes "echo") items) [ none ↦ none | some v ↦ v ]

-- A reply that is not an object has no `get`: the exception is caught.
unfoldable pub check_reply : Text → Trial Json → Status
check_reply nonce (failed e) = down (exception e)
check_reply nonce (passed other_value) = down (exception (codes "AttributeError"))
check_reply nonce (passed (object items)) =
    if optional_eq (echoed items) nonce
    then check_fields items
    else down (echo_mismatch (echoed items))

-- `worker_echo_check`: `open` is the connection, `client` the channel with its RpcClient, and `call`
-- the call with the nonce and the parsing of its reply.
unfoldable pub worker_echo_check :
    Trial (Unit {0})
    → Trial (Unit {0})
    → Trial (Unit {0})
    → (Text → Trial Json)
    → Text
    → Attempt Status
unfolding check_reply
worker_echo_check connect client close call nonce =
    closing connect close (check_reply nonce (and_then connect (and_then client (call nonce))))

-- The response of `/health`; a check that raises ends it with an error 500.
pub data HealthResponse : Type 0 where
  all_up : List Text → HealthResponse
  unavailable : List (Text × Status) → HealthResponse
  server_error : HealthResponse

health_response : List (Text × Status) → HealthResponse
health_response results =
    if all (λ r. is_up r.1) results then all_up (names results) else unavailable results
  where
    names : List (Text × Status) → List Text
    names [] = []
    names ((name, status) ∷ rest) = name ∷ names rest

-- The loop over the checks, with the results so far.
unfoldable pub run_checks : List (Text × Status) → List (Text × Attempt Status) → HealthResponse
unfolding health_response
run_checks results [] = health_response results
run_checks results ((name, raised) ∷ checks) = server_error
run_checks results ((name, ok status) ∷ checks) = run_checks (results ++ (name, status) ∷ []) checks

-- `health`
unfoldable pub health : List (Text × Attempt Status) → HealthResponse
unfolding run_checks
health checks = run_checks [] checks
