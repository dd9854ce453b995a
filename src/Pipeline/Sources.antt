-- ===== src/Pipeline/Sources.antt =====
-- From a bot's source in the database to the source that its pod runs: dispatcher/pod_builder.py,
-- dispatcher/pods.py and bot-runner-images/python/turn_server.py.
use june_2026_tictactoe_bots.Prelude.{
  ℕ, ◌≡◌, refl, true, inl, inr, Bool-cases, Option, some, List, [], ◌∷◌, All, All-member,
}
use june_2026_tictactoe_bots.Text.{Text, codes}
use june_2026_tictactoe_bots.Text.Base64.{IsByte, b64encode, b64decode-b64encode}
use june_2026_tictactoe_bots.Pods.{ok, pod_name}
use june_2026_tictactoe_bots.Pods.Manifest.{Container, PodManifest, build_bot_pod_manifest}
use june_2026_tictactoe_bots.Runner.{decoded, startup_source}
use june_2026_tictactoe_bots.Store.{Db, Bot}
use june_2026_tictactoe_bots.Submit.{BuildPodMessage}
use june_2026_tictactoe_bots.Pipeline.{
  Cluster, build_and_wait, source_of, image_of, handle_build_pod_message,
}
use june_2026_tictactoe_bots.Pipeline.Steps.{Member, handle_build_pod_message-Building}

-- The source of a bot is made of bytes.
abbrev pub HasBytes : Bot → Type 0
HasBytes bot = All IsByte (source_of bot)

-- Kubernetes sets the variable that a container's specification names, where it names just one.
abbrev pub SetsVariable : (Container → Text → Option Text) → Type 0
SetsVariable environ =
    (c : Container) (name value : Text) → c.env ≡ (name, value) ∷ [] → environ c name ≡ some value

decoded-b64encode : (s : Text) → All IsByte s → decoded (b64encode s) ≡ some s
unfolding decoded b64encode
decoded-b64encode [] h = refl
decoded-b64encode (a ∷ []) h = b64decode-b64encode (a ∷ []) h
decoded-b64encode (a ∷ b ∷ []) h = b64decode-b64encode (a ∷ b ∷ []) h
decoded-b64encode (a ∷ b ∷ c ∷ s) h = b64decode-b64encode (a ∷ b ∷ c ∷ s) h

startup_source-b64encode :
    (environ : Container → Text → Option Text) (c : Container) (s : Text)
    → SetsVariable environ
    → All IsByte s
    → c.env ≡ (codes "SOURCE_B64", b64encode s) ∷ []
    → startup_source (environ c) ≡ some s
unfolding startup_source
startup_source-b64encode environ c s sets h e =
    rw (sets c (codes "SOURCE_B64") (b64encode s) e) (decoded-b64encode s h)

-- Every container of the manifest starts a server of the source.
abbrev pub Serves : (Container → Text → Option Text) → PodManifest → Text → Type 0
Serves environ manifest source =
    All (λ c. startup_source (environ c) ≡ some source) manifest.containers

build_bot_pod_manifest-Serves :
    (environ : Container → Text → Option Text) (name image s : Text) (bot_id : ℕ)
    → SetsVariable environ
    → All IsByte s
    → Serves environ (build_bot_pod_manifest name image (b64encode s) bot_id) s
unfolding build_bot_pod_manifest
build_bot_pod_manifest-Serves environ name image s bot_id sets h =
    (startup_source-b64encode environ _ s sets h refl, tt)

-- A pod of the bot was created, which serves the bot's source.
abbrev pub RunsSource :
    Cluster → (Container → Text → Option Text) → Db → Option BuildPodMessage → Type 0
RunsSource c environ db message =
    (b : Bot) × ((key : Text) × ((manifest : PodManifest) × Member b db.bots
        × (message ≡ some (record { bot_id = b.id; runtime_key = key }))
        × (c.create_pod manifest ≡ true)
        × (manifest.name ≡ pod_name b.id)
        × Serves environ manifest (source_of b)))

build_and_wait-creates :
    (c : Cluster) (name image source_b64 : Text) (bot_id : ℕ)
    → build_and_wait c name image source_b64 bot_id ≡ true
    → c.create_pod (build_bot_pod_manifest name image source_b64 bot_id) ≡ true
unfolding build_and_wait
build_and_wait-creates c name image source_b64 bot_id e =
    elim (Bool-cases (c.create_pod (build_bot_pod_manifest name image source_b64 bot_id))) [
      | inl created ↦ created
      | inr refused ↦ cc (rw refused at e)
    ]

-- Where the sources of the table are made of bytes, a build job that succeeds created a pod under the
-- name of the bot that the message names, and each server that starts in that pod, with the variables
-- that Kubernetes sets, runs exactly that bot's source.
pub handle_build_pod_message-RunsSource :
    (c : Cluster) (environ : Container → Text → Option Text) (db : Db) (q : List ℕ)
    (m : Option BuildPodMessage)
    → SetsVariable environ
    → All HasBytes db.bots
    → (handle_build_pod_message c db q m).outcome ≡ ok true
    → RunsSource c environ db m
unfolding build_bot_pod_manifest
handle_build_pod_message-RunsSource c environ db q m sets bytes succeeded =
    elim (handle_build_pod_message-Building c db q m) [
      | inl (same, kept, failed) ↦ elim (failed succeeded) [ ]
      | inr (b, (key, known, found, named, built, e, f, done)) ↦ (
        b,
        (
          key,
          (
            build_bot_pod_manifest (pod_name b.id) (image_of key) (b64encode (source_of b)) b.id,
            found,
            named,
            build_and_wait-creates c (pod_name b.id) (image_of key) (b64encode (source_of b)) b.id
                built,
            refl,
            build_bot_pod_manifest-Serves environ (pod_name b.id) (image_of key) (source_of b) b.id
                sets (All-member HasBytes db.bots found bytes),
          ),
        ),
      )
    ]
