-- ===== src/Messaging/Tests.antt =====
-- Runs of the messaging components.
use Prim.Native.Nat.{◌*◌}
use june_2026_tictactoe_bots.Prelude.{
  some, false, ℕ, ◌+◌, ◌-◌, ◌⊎◌, ◌≢◌, ◌++◌, Option, true, leb, ◌≡◌, refl, none, [], ◌∷◌, List,
  arith, map, All, ◌↔◌,
}
use june_2026_tictactoe_bots.Text.{Text, codes}
use june_2026_tictactoe_bots.Pods.{ok, raised}
use june_2026_tictactoe_bots.Submit.{bot_uploaded}
use june_2026_tictactoe_bots.Messaging.Publisher.{
  Publication, build_job, event, new_publisher, Broker, declared, with_channel, connected,
  ensure_connected, send, send_connected, publish, publish_all,
}
use june_2026_tictactoe_bots.Messaging.Publishing.{
  Got, AllFail, publish_all-sent, publish_all-stuck,
}
use june_2026_tictactoe_bots.Messaging.Rpc.{
  Message, new_client, start_call, RpcEvent, called, reply, expired, step, run, Future,
}
use june_2026_tictactoe_bots.Messaging.Table.{Linked, Linked-new_client, step-Linked}
use june_2026_tictactoe_bots.Messaging.Health.{Trial, passed, failed, health}
use june_2026_tictactoe_bots.Messaging.Echo.{
  Worker, echo_check, IsHealthy, IsAllUp, health-echo_check_iff,
}
use june_2026_tictactoe_bots.Messaging.Routing.{
  parse_version, pick_runtime_key, pick_python_version, turn_queue_for,
}
use june_2026_tictactoe_bots.Messaging.Picks.{IsHighest, pick_python_version-IsHighest}
use june_2026_tictactoe_bots.Messaging.Fates.{fate, run-fate}

-- The reply to call "a".
abbrev pong : Message
pong = record { body = codes "pong"; correlation_id = codes "a"; reply_to = none }

-- A second call, the reply to the first one, and its late timeout.
abbrev late_timeout : List RpcEvent
late_timeout = called (codes "b") ∷ reply pong ∷ expired 0 ∷ []

first_call-Linked : Linked (start_call (codes "a") new_client)
unfolding step
first_call-Linked = (step-Linked (called (codes "a")) [] new_client (refl, tt) Linked-new_client).0

run-fate_example :
    (run late_timeout (start_call (codes "a") new_client)).future 0
    ≡ fate (codes "a") 0 Future.waiting late_timeout
unfolding step
run-fate_example =
    run-fate late_timeout (start_call (codes "a") new_client) 0 first_call-Linked (refl, tt)
      (omega arith)

abbrev sound : Trial (Unit {0})
sound = passed tt

abbrev builder : Worker
builder = record {
  name = codes "pod_builder";
  connect = sound;
  client = sound;
  close = sound;
  session = failed (codes "OperationalError()");
  declare = sound;
}

health-echo_check_iff_example :
    IsAllUp (health (map (echo_check (codes "5f")) (builder ∷ []))) ↔ All IsHealthy (builder ∷ [])
health-echo_check_iff_example = health-echo_check_iff (codes "5f") (builder ∷ [])

-- `int` of one or two digits.
abbrev small_int : Text → Option ℕ
small_int [] = none
small_int (c ∷ []) = some (c - 48)
small_int (c ∷ d ∷ s) = some ((c - 48) * 10 + (d - 48))

leb-total : (m n : ℕ) → (leb m n ≡ true) ⊎ (leb n m ≡ true)
leb-total m n = ground arith

parsed_old : parse_version small_int (codes "3.9") ≢ []
unfolding parse_version
parsed_old e = cc

parsed_new : parse_version small_int (codes "3.12") ≢ []
unfolding parse_version
parsed_new e = cc

pick_python_version-IsHighest_example :
    IsHighest small_int leb
      (codes "3.9")
      (codes "3.12")
      (pick_python_version small_int leb (codes "3.9") (codes "3.12"))
    × (pick_runtime_key small_int leb
          (codes "python-" ++ codes "3.9")
          (codes "python-" ++ codes "3.12")
        ≡ codes "python-" ++ pick_python_version small_int leb (codes "3.9") (codes "3.12"))
pick_python_version-IsHighest_example =
    pick_python_version-IsHighest small_int leb (codes "3.9") (codes "3.12") leb-total parsed_old
      parsed_new

-- Two versions that share a queue.
one_queue : turn_queue_for (codes "3.11") ≡ turn_queue_for (codes "31.1")
unfolding turn_queue_for
one_queue = refl

abbrev working : Broker
working = record {
  connect = ok 1;
  open_channel = ok 2;
  declares_queue = true;
  declare_exchange = ok 3;
  is_closed = λ c. false;
  arrives = true;
  returns = true;
}

abbrev no_channel : Broker
no_channel = record working { open_channel = raised }

abbrev job : Publication
job = build_job (record { bot_id = 1; runtime_key = codes "python-3.12" })

abbrev uploaded : Publication
uploaded = event (bot_uploaded (codes "alice"))

both_sent :
    (publish_all new_publisher ((working, job) ∷ (working, uploaded) ∷ [])).0.sent
    ≡ job ∷ uploaded ∷ []
unfolding publish_all publish ensure_connected connected with_channel declared send_connected send
both_sent = refl

-- The message arrives, but the connection is lost before the answer.
abbrev no_answer : Broker
no_answer = record working { returns = false }

abbrev three_calls : List (Broker × Publication)
three_calls = (working, job) ∷ (no_answer, uploaded) ∷ (working, uploaded) ∷ []

one_raised : publish_all new_publisher three_calls ≡ (
  record {
    connection = some 1;
    channel = some 2;
    events_exchange = some 3;
    sent = job ∷ uploaded ∷ uploaded ∷ [];
  },
  true ∷ false ∷ true ∷ [],
)
unfolding publish_all publish ensure_connected connected with_channel declared send_connected send
one_raised = refl

publish_all-sent_example :
    (new : List Publication) × ((publish_all new_publisher three_calls).0.sent
      ≡ new_publisher.sent ++ new)
    × Got (map (λ call. call.1) three_calls) (publish_all new_publisher three_calls).1 new
publish_all-sent_example =
    publish_all-sent new_publisher three_calls ((λ e. refl), ((λ e. refl), ((λ e. refl), tt)))

publish_all-stuck_example :
    ((publish_all new_publisher ((no_channel, job) ∷ (working, uploaded) ∷ [])).0.sent ≡ [])
    × AllFail (publish_all new_publisher ((no_channel, job) ∷ (working, uploaded) ∷ [])).1
publish_all-stuck_example =
    publish_all-stuck 1 no_channel job ((working, uploaded) ∷ []) refl refl (refl, tt)
