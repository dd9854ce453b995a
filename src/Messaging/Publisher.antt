-- ===== src/Messaging/Publisher.antt =====
-- messaging/rabbitmq.py: the publisher of build jobs and events, which connects when it is first used.
use june_2026_tictactoe_bots.Prelude.{
  ℕ, Bool, true, false, Option, none, some, List, [], ◌∷◌, ◌++◌, if◌then◌else◌,
}
use june_2026_tictactoe_bots.Pods.{Attempt, ok, raised}
use june_2026_tictactoe_bots.Submit.{BuildPodMessage, Event}

-- What is published: a build job with the default exchange of a channel, or an event with an exchange.
pub data Publication : Type 0 where
  build_job : BuildPodMessage → Publication
  event : Event → Publication

-- `RabbitMQQueue`, with what the broker has got from it. Connections, channels and exchanges are
-- numbers.
pub record Publisher : Type 0 where
  pub connection : Option ℕ
  pub channel : Option ℕ
  pub events_exchange : Option ℕ
  pub sent : List Publication

-- `__init__`
abbrev pub new_publisher : Publisher
new_publisher = record { connection = none; channel = none; events_exchange = none; sent = [] }

-- How the four requests of a connection end, which connections are closed, and of the publish itself,
-- whether the message reaches the broker and whether the call returns. A call may raise although the
-- message has arrived, as when the connection is lost before the answer.
pub record Broker : Type 0 where
  pub connect : Attempt ℕ
  pub open_channel : Attempt ℕ
  pub declares_queue : Bool
  pub declare_exchange : Attempt ℕ
  pub is_closed : ℕ → Bool
  pub arrives : Bool
  pub returns : Bool

unfoldable pub declared : Publisher → Attempt ℕ → Publisher × Bool
declared p raised = (p, false)
declared p (ok e) = (record p { events_exchange = some e }, true)

unfoldable pub with_channel : Broker → Publisher → Attempt ℕ → Publisher × Bool
unfolding declared
with_channel b p raised = (p, false)
with_channel b p (ok ch) =
    let opened = record p { channel = some ch } in
    if b.declares_queue then declared opened b.declare_exchange else (opened, false)

unfoldable pub connected : Broker → Publisher → Attempt ℕ → Publisher × Bool
unfolding with_channel
connected b p raised = (p, false)
connected b p (ok c) = with_channel b (record p { connection = some c }) b.open_channel

-- `self._connection is None or self._connection.is_closed`
abbrev pub needs_connection : Broker → Option ℕ → Bool
needs_connection b none = true
needs_connection b (some c) = b.is_closed c

-- `_ensure_connected`: each field is set as soon as its request ends; false is an exception.
unfoldable pub ensure_connected : Broker → Publisher → Publisher × Bool
unfolding connected
ensure_connected b p =
    if needs_connection b p.connection then connected b p b.connect else (p, true)

-- The channel or the exchange that a message is published with.
abbrev pub target : Publisher → Publication → Option ℕ
target p (build_job m) = p.channel
target p (event e) = p.events_exchange

-- A publish with a field that is None raises, and then nothing was sent.
unfoldable pub send : Broker → Publisher → Publication → Option ℕ → Publisher × Bool
send b p m none = (p, false)
send b p m (some t) = (if b.arrives then record p { sent = p.sent ++ m ∷ [] } else p, b.returns)

unfoldable pub send_connected : Broker → Publication → Publisher × Bool → Publisher × Bool
unfolding send
send_connected b m (p, false) = (p, false)
send_connected b m (p, true) = send b p m (target p m)

-- `enqueue_build_pod` and `publish_event`
unfoldable pub publish : Broker → Publisher → Publication → Publisher × Bool
unfolding send_connected
publish b p m = send_connected b m (ensure_connected b p)

-- `close`: whether it closes a connection.
unfoldable pub close : Broker → Publisher → Bool
close b p = elim p.connection [ none ↦ false | some c ↦ if b.is_closed c then false else true ]

-- Publishes one after the other, and which of them returned.
unfoldable pub publish_all : Publisher → List (Broker × Publication) → Publisher × List Bool
unfolding publish
publish_all p [] = (p, [])
publish_all p ((b, m) ∷ calls) =
    let first = publish b p m in let rest = publish_all first.0 calls in (rest.0, first.1 ∷ rest.1)
