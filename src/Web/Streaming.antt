-- ===== src/Web/Streaming.antt =====
-- The stream of events to a tab of the dashboard: `dashboard_ws` of web/main.py.
use june_2026_tictactoe_bots.Prelude.{
  ℕ, ◌+◌, ◌≡◌, ◌⊎◌, ◌≢◌, true, false, List, [], ◌∷◌, ◌++◌, length,
}
use june_2026_tictactoe_bots.Text.{Text}
use june_2026_tictactoe_bots.Pods.{raised}
use june_2026_tictactoe_bots.Web.Dashboard.{
  SendEnd, was_sent, HandlerEnd, waits, raises, Tab, Session,
}

-- The texts sent are the first of the events; they are all of them while the loop waits, and else a
-- send failed behind them.
abbrev pub Streams : (ℕ → SendEnd) → ℕ → List Text → List Text → HandlerEnd → Type 0
Streams sends k bodies sent ends =
    ((sent ≡ bodies) × (ends ≡ waits))
    ⊎ ((body : Text) × ((rest : List Text) × (bodies ≡ sent ++ body ∷ rest)
          × (sends (k + length sent) ≢ was_sent)
          × (ends ≢ waits)))

-- No connection is left open by a handler that is over.
abbrev pub LeavesNone : Tab → Session → Type 0
LeavesNone tab s =
    (s.ends ≡ waits) ⊎ (s.opened ≡ false) ⊎ (tab.is_closed ≡ true) ⊎ (s.closes ≡ true)

-- The tab's queue is bound and the events are streamed; or it is not, nothing is sent and the handler
-- raises.
abbrev pub Serves : Tab → List Text → Session → Type 0
Serves tab bodies s =
    ((tab.connect ≢ raised) × (tab.binds ≡ true) × Streams tab.sends 0 bodies s.sent s.ends)
    ⊎ (((tab.connect ≡ raised) ⊎ (tab.binds ≡ false)) × (s.sent ≡ []) × (s.ends ≡ raises))
