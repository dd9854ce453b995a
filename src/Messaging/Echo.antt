-- ===== src/Messaging/Echo.antt =====
-- The checks of messaging/health.py through a gateway, against the state of its workers.
use june_2026_tictactoe_bots.Prelude.{
  Bool, true, false, ◌&&◌, ◌≡◌, refl, sym, ap, ◌∙◌, ◌↔◌, List, [], ◌∷◌, ◌++◌, all, map, All, arith,
  Bool-cases, inl, inr,
}
use june_2026_tictactoe_bots.Text.{Text}
use june_2026_tictactoe_bots.Text.Laws.{text_eq_refl}
use june_2026_tictactoe_bots.Text.Json.{Json, item}
use june_2026_tictactoe_bots.Pods.{Attempt, ok, raised}
use june_2026_tictactoe_bots.Messaging.Health.{
  Trial, passed, failed, Status, up, down, is_up, closing, and_then, health_echo, check_fields,
  check_reply, worker_echo_check, HealthResponse, all_up, unavailable, server_error, health,
  run_checks,
}

-- A trial that passed.
abbrev pub HasPassed {ℓ} : {A : Type ℓ} → Trial A → Type 0
HasPassed (passed a) = Unit
HasPassed (failed e) = ⊥

echo_fields :
    (session declare : Trial (Unit {0})) (payload : Text)
    → (check_reply payload (passed (health_echo session declare payload)) ≡ up)
      ↔ (HasPassed session × HasPassed declare)
unfolding check_reply health_echo check_fields item
echo_fields (passed a) (passed b) payload = rw (text_eq_refl payload) (λ h. (tt, tt), λ h. refl)
echo_fields (passed a) (failed e) payload = rw (text_eq_refl payload) (λ h. cc, λ h. absurd h.1)
echo_fields (failed e) declare payload = rw (text_eq_refl payload) (λ h. cc, λ h. absurd h.0)

-- A worker as its gateway sees it: the connection, the channel with the client, the closing, and the
-- worker's own session and declaration.
pub record Worker : Type 0 where
  pub name : Text
  pub connect : Trial (Unit {0})
  pub client : Trial (Unit {0})
  pub close : Trial (Unit {0})
  pub session : Trial (Unit {0})
  pub declare : Trial (Unit {0})

-- The check of a worker whose reply comes from its own echo handler.
abbrev pub echo_check : Text → Worker → Text × Attempt Status
echo_check nonce w = (
  w.name,
  worker_echo_check w.connect w.client w.close
      (λ payload. passed (health_echo w.session w.declare payload)) nonce,
)

pub record IsHealthy (w : Worker) : Type 0 where
  pub connects : HasPassed w.connect
  pub has_client : HasPassed w.client
  pub closes : HasPassed w.close
  pub queries : HasPassed w.session
  pub declares : HasPassed w.declare

ok-injective : {s t : Status} → ok s ≡ ok t → s ≡ t
ok-injective e = cc

closed_iff :
    (connect client close : Trial (Unit {0})) (a b : Type 0) (nonce : Text) (reply : Trial Json)
    → (check_reply nonce reply ≡ up) ↔ (a × b)
    → (closing connect close (check_reply nonce (and_then connect (and_then client reply))) ≡ ok up)
      ↔ (HasPassed connect × HasPassed client × HasPassed close × a × b)
unfolding check_reply
closed_iff (passed x) (passed y) (passed z) a b nonce reply h = (
  λ e. let both = h.0 (ok-injective e) in (tt, tt, tt, both.0, both.1),
  λ (p, q, r, s, t). ap ok (h.1 (s, t)),
)
closed_iff (passed x) (passed y) (failed f) a b nonce reply h = (λ e. cc, λ p. absurd p.2)
closed_iff (passed x) (failed f) (passed z) a b nonce reply h = (λ e. cc, λ p. absurd p.1)
closed_iff (passed x) (failed f) (failed g) a b nonce reply h = (λ e. cc, λ p. absurd p.1)
closed_iff (failed f) client close a b nonce reply h = (λ e. cc, λ p. absurd p.0)

echo_check_iff : (nonce : Text) (w : Worker) → ((echo_check nonce w).1 ≡ ok up) ↔ IsHealthy w
unfolding worker_echo_check
echo_check_iff nonce w =
    let (there, back) =
      closed_iff w.connect w.client w.close (HasPassed w.session) (HasPassed w.declare) nonce
        (passed (health_echo w.session w.declare nonce)) (echo_fields w.session w.declare nonce) in
    (
      λ e.
          let (p, q, r, s, t) = there e in
          record { connects = p; has_client = q; closes = r; queries = s; declares = t },
      λ h. back (h.connects, h.has_client, h.closes, h.queries, h.declares),
    )

-- The status is 200.
abbrev pub IsAllUp : HealthResponse → Type 0
IsAllUp (all_up names) = Unit
IsAllUp (unavailable results) = ⊥
IsAllUp server_error = ⊥

and_true : (b : Bool) → (b && true) ≡ b
and_true true = refl
and_true false = refl

and_false : (b : Bool) → (b && false) ≡ false
and_false true = refl
and_false false = refl

all_append :
    (rs ss : List (Text × Status))
    → all (λ r. is_up r.1) (rs ++ ss) ≡ (all (λ r. is_up r.1) rs && all (λ r. is_up r.1) ss)
all_append [] ss = refl
all_append (r ∷ rs) ss = ground (arith, all_append rs ss)

check_iff :
    (rs : List (Text × Status)) (name : Text) (a : Attempt Status)
    (checks : List (Text × Attempt Status)) (healthy others : Type 0)
    → ((a ≡ ok up) ↔ healthy)
    → ((s : Status)
        → IsAllUp (run_checks (rs ++ (name, s) ∷ []) checks)
          ↔ ((all (λ r. is_up r.1) (rs ++ (name, s) ∷ []) ≡ true) × others))
    → IsAllUp (run_checks rs ((name, a) ∷ checks))
      ↔ ((all (λ r. is_up r.1) rs ≡ true) × (healthy × others))
unfolding run_checks
check_iff rs name raised checks healthy others h rest = (λ e. absurd e, λ p. cc (h.1 p.1.0))
check_iff rs name (ok up) checks healthy others h rest =
    let (there, back) = rest up in
    let step : all (λ r. is_up r.1) (rs ++ (name, up) ∷ []) ≡ all (λ r. is_up r.1) rs =
      all_append rs ((name, up) ∷ []) ∙ and_true (all (λ r. is_up r.1) rs) in
    (λ e. let p = there e in (sym step ∙ p.0, (h.0 refl, p.1)), λ (a, (b, c)). back (step ∙ a, c))
check_iff rs name (ok (down r)) checks healthy others h rest =
    let (there, back) = rest (down r) in
    let step : all (λ r. is_up r.1) (rs ++ (name, down r) ∷ []) ≡ false =
      all_append rs ((name, down r) ∷ []) ∙ and_false (all (λ r. is_up r.1) rs) in
    (λ e. let p = there e in cc (sym step ∙ p.0), λ (a, (b, c)). cc (h.1 b))

run_checks_iff :
    (nonce : Text) (rs : List (Text × Status)) (ws : List Worker)
    → IsAllUp (run_checks rs (map (echo_check nonce) ws))
      ↔ ((all (λ r. is_up r.1) rs ≡ true) × All IsHealthy ws)
unfolding run_checks
run_checks_iff nonce rs [] = elim (Bool-cases (all (λ r. is_up r.1) rs)) [
  | inl e ↦ rw e (λ u. (refl, tt), λ u. tt)
  | inr e ↦ rw e (λ u. absurd u, λ u. cc)
]
run_checks_iff nonce rs (w ∷ ws) =
    check_iff rs w.name (echo_check nonce w).1 (map (echo_check nonce) ws) (IsHealthy w)
      (All IsHealthy ws) (echo_check_iff nonce w)
      (λ s. run_checks_iff nonce (rs ++ (w.name, s) ∷ []) ws)

-- Where the worker's reply reaches the gateway, the page answers 200 exactly when for every worker
-- the gateway's connection opens, gets its client and closes, and the worker's own query and
-- declaration pass. The text of the nonce does not matter.
pub health-echo_check_iff :
    (nonce : Text) (ws : List Worker)
    → IsAllUp (health (map (echo_check nonce) ws)) ↔ All IsHealthy ws
unfolding health
health-echo_check_iff nonce ws =
    let (there, back) = run_checks_iff nonce [] ws in (λ e. (there e).1, λ h. back (refl, h))
