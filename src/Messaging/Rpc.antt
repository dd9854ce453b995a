-- ===== src/Messaging/Rpc.antt =====
-- messaging/rpc_client.py and rpc_server.py: the table of pending calls as a state machine, and the
-- server's handler of one request.
use june_2026_tictactoe_bots.Prelude.{
  ℕ, suc, Bool, true, false, Option, none, some, List, [], ◌∷◌, ltb, ◌==◌, if◌then◌else◌,
}
use june_2026_tictactoe_bots.Text.{Text, text_eq}

-- What a message holds: `body`, `correlation_id`, and `reply_to` where it has one.
pub record Message : Type 0 where
  pub body : Text
  pub correlation_id : Text
  pub reply_to : Option Text

-- An `asyncio.Future` of a call: waiting, with a result, or cancelled by `wait_for`.
pub data Future : Type 0 where
  waiting : Future
  resolved : Text → Future
  timed_out : Future

-- The client with its calls so far, numbered: `pending` is the dict `_pending`, whose values are the
-- futures' numbers, and `caller n` is the local `correlation_id` of call `n`.
pub record Client : Type 0 where
  pub pending : Text → Option ℕ
  pub future : ℕ → Future
  pub caller : ℕ → Text
  pub count : ℕ

abbrev pub new_client : Client
new_client = record { pending = λ k. none; future = λ n. waiting; caller = λ n. []; count = 0 }

-- `d[key] = v`, and `d.pop(key, None)` for `none`.
abbrev pub put : Text → Option ℕ → (Text → Option ℕ) → Text → Option ℕ
put key v d k = if text_eq key k then v else d k

abbrev pub assign {ℓ} : {A : Type ℓ} → ℕ → A → (ℕ → A) → ℕ → A
assign n v f m = if n == m then v else f m

abbrev pub is_waiting : Future → Bool
is_waiting waiting = true
is_waiting _ = false

-- `call` as far as its `await`: a new future under a new id.
abbrev pub start_call : Text → Client → Client
start_call id s = record {
  pending = put id (some s.count) s.pending;
  future = assign s.count waiting s.future;
  caller = assign s.count id s.caller;
  count = suc s.count;
}

-- The message that `call` publishes.
abbrev pub request : Text → Text → Text → Message
request reply_queue id payload = record {
  body = payload;
  correlation_id = id;
  reply_to = some reply_queue;
}

-- `set_result`, where the future is not done.
abbrev pub settle : Future → Future → Future
settle v waiting = v
settle v (resolved body) = resolved body
settle v timed_out = timed_out

unfoldable pub resolve : Message → Option ℕ → Client → Client
resolve m none s = s
resolve m (some n) s = record s {
  pending = put m.correlation_id none s.pending;
  future = assign n (settle (resolved m.body) (s.future n)) s.future;
}

-- `_on_reply`
unfoldable pub on_reply : Message → Client → Client
unfolding resolve
on_reply m s = resolve m (s.pending m.correlation_id) s

unfoldable pub give_up : ℕ → Future → Client → Client
give_up n waiting s = record s {
  pending = put (s.caller n) none s.pending;
  future = assign n timed_out s.future;
}
give_up n _ s = s

-- The timeout of call `n`: `wait_for` cancels a future that is not done, and `call` drops its entry.
unfoldable pub time_out : ℕ → Client → Client
unfolding give_up
time_out n s = if ltb n s.count then give_up n (s.future n) s else s

-- What happens to a client, in the order of the event loop.
pub data RpcEvent : Type 0 where
  called : Text → RpcEvent
  reply : Message → RpcEvent
  expired : ℕ → RpcEvent

unfoldable pub step : RpcEvent → Client → Client
step (called id) s = start_call id s
step (reply m) s = on_reply m s
step (expired n) s = time_out n s

unfoldable pub run : List RpcEvent → Client → Client
run [] s = s
run (e ∷ es) s = run es (step e s)

-- `on_message` of `serve_rpc`: the reply and the queue that it goes to.
unfoldable pub on_message : (Text → Text) → Message → Option (Text × Message)
on_message handler m = elim m.reply_to [
  | none ↦ none
  | some queue ↦
      some (
        queue,
        record { body = handler m.body; correlation_id = m.correlation_id; reply_to = none },
      )
]
