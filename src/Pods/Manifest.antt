-- ===== src/Pods/Manifest.antt =====
-- `build_bot_pod_manifest` of dispatcher/pods.py: what the pod of a bot is created from.
use june_2026_tictactoe_bots.Prelude.{ℕ, Bool, false, List, [], ◌∷◌}
use june_2026_tictactoe_bots.Text.{Text, codes, decimal}

-- An entry of `containers`; limits and requests are of CPU and memory, in this order.
pub record Container : Type 0 where
  pub name : Text
  pub image : Text
  pub image_pull_policy : Text
  pub env : List (Text × Text)
  pub limits : Text × Text
  pub requests : Text × Text
  pub ports : List ℕ

pub record PodManifest : Type 0 where
  pub api_version : Text
  pub kind : Text
  pub name : Text
  pub namespace : Text
  pub labels : List (Text × Text)
  pub restart_policy : Text
  pub automount_service_account_token : Bool
  pub containers : List Container

-- `TURN_PORT`
abbrev pub turn_port : ℕ
turn_port = 8080

unfoldable pub build_bot_pod_manifest : Text → Text → Text → ℕ → PodManifest
build_bot_pod_manifest pod_name image source_b64 bot_id = record {
  api_version = codes "v1";
  kind = codes "Pod";
  name = pod_name;
  namespace = codes "bots";
  labels = (codes "app", codes "bot-runner") ∷ (codes "bot-id", decimal bot_id) ∷ [];
  restart_policy = codes "Never";
  automount_service_account_token = false;
  containers =
      record {
        name = codes "bot";
        image = image;
        image_pull_policy = codes "Never";
        env = (codes "SOURCE_B64", source_b64) ∷ [];
        limits = (codes "500m", codes "256Mi");
        requests = (codes "100m", codes "64Mi");
        ports = turn_port ∷ [];
      }
      ∷ [];
}
