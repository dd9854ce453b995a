-- ===== src/Web/Dashboard.antt =====
-- `dashboard_ws` of web/main.py: the events that one tab of the dashboard is sent.
use june_2026_tictactoe_bots.Prelude.{ℕ, suc, Bool, true, false, not, List, [], ◌∷◌, if◌then◌else◌}
use june_2026_tictactoe_bots.Text.{Text}
use june_2026_tictactoe_bots.Pods.{Attempt, ok, raised}

-- How `send_text` ends.
pub data SendEnd : Type 0 where
  was_sent disconnected runtime_error other_error : SendEnd

-- How the handler ends: it goes on waiting for events, it returns, or an exception leaves it.
pub data HandlerEnd : Type 0 where
  waits returns raises : HandlerEnd

-- The texts that were sent and how the loop ends.
pub record Forwarded : Type 0 where
  pub sent : List Text
  pub ends : HandlerEnd

unfoldable pub after_send : Text → Forwarded → SendEnd → Forwarded
after_send body rest was_sent = record rest { sent = body ∷ rest.sent }
after_send body rest disconnected = record { sent = []; ends = returns }
after_send body rest runtime_error = record { sent = []; ends = returns }
after_send body rest other_error = record { sent = []; ends = raises }

-- The loop over the messages of the tab's queue, from the `k`-th on.
unfoldable pub forward : (ℕ → SendEnd) → ℕ → List Text → Forwarded
unfolding after_send
forward sends k [] = record { sent = []; ends = waits }
forward sends k (body ∷ bodies) = after_send body (forward sends (suc k) bodies) (sends k)

-- What the handler uses: the connection, whether the channel, the exchange, the queue and the binding can
-- be made, the ends of the sends, and whether the connection is closed at the end.
pub record Tab : Type 0 where
  pub connect : Attempt ℕ
  pub binds : Bool
  pub sends : ℕ → SendEnd
  pub is_closed : Bool

-- What the handler leaves: the texts sent, its end, whether it opened a connection, and whether it then
-- closed one.
pub record Session : Type 0 where
  pub sent : List Text
  pub ends : HandlerEnd
  pub opened : Bool
  pub closes : Bool

-- The `finally` clause; a handler that still waits has not come to it.
abbrev pub closes_after : Tab → HandlerEnd → Bool
closes_after tab waits = false
closes_after tab _ = not tab.is_closed

unfoldable pub with_connection : Tab → List Text → Attempt ℕ → Session
with_connection tab bodies raised = record {
  sent = [];
  ends = raises;
  opened = false;
  closes = false;
}
with_connection tab bodies (ok c) =
    if tab.binds
    then (let run = forward tab.sends 0 bodies in
        record {
          sent = run.sent;
          ends = run.ends;
          opened = true;
          closes = closes_after tab run.ends;
        })
    else record { sent = []; ends = raises; opened = true; closes = not tab.is_closed }

-- `dashboard_ws`, for the messages that the tab's queue gives.
unfoldable pub dashboard_ws : Tab → List Text → Session
unfolding with_connection
dashboard_ws tab bodies = with_connection tab bodies tab.connect
