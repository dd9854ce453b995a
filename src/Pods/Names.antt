-- ===== src/Pods/Names.antt =====
-- Pod names: distinct bots never share a pod.
use june_2026_tictactoe_bots.Prelude.{ℕ, ◌≡◌}
use june_2026_tictactoe_bots.Text.Decimal.{decimal_injective}
use june_2026_tictactoe_bots.Pods.{pod_name}

-- Two bots with one pod name are one bot.
pub pod_name-injective : (m n : ℕ) → pod_name m ≡ pod_name n → m ≡ n
unfolding pod_name
pod_name-injective m n e = decimal_injective m n (cc)
