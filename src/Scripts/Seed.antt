-- ===== src/Scripts/Seed.antt =====
-- scripts/seed_example_bots.py: the tables are cleared, the example bots are inserted file by file, and
-- every row gets a build job.
use june_2026_tictactoe_bots.Prelude.{ℕ, ◌+◌, Option, none, some, List, [], ◌∷◌, map}
use june_2026_tictactoe_bots.Text.{Text}
use june_2026_tictactoe_bots.Pods.{Attempt, ok, raised}
use june_2026_tictactoe_bots.Store.{Db, Bot, create}
use june_2026_tictactoe_bots.Store.Leaderboard.{all_bots}
use june_2026_tictactoe_bots.Utils.{
  Source, extract_bot_name, extract_runtime_key, default_runtime_key,
}
use june_2026_tictactoe_bots.Submit.{BuildPodMessage, new_bot}

-- `_clear_tables`; the keys go on from where they are.
abbrev pub clear_tables : Db → Db
clear_tables db = record db { bots = []; matches = []; moves = [] }

-- `extract_runtime_key(source_text) or DEFAULT_RUNTIME_KEY`
abbrev pub key_or_default : Option Text → Text
key_or_default none = default_runtime_key
key_or_default (some []) = default_runtime_key
key_or_default (some (c ∷ s)) = c ∷ s

unfoldable pub after_create : Attempt (Db × Bot) → ℕ → Attempt (Db × ℕ)
after_create raised inserted = raised
after_create (ok (db, b)) inserted = ok (db, inserted + 1)

unfoldable pub insert_named : Db → ℕ → Option Text → Text → Text → Text → Attempt (Db × ℕ)
unfolding after_create
insert_named db inserted none token key bytes = ok (db, inserted)
insert_named db inserted (some []) token key bytes = ok (db, inserted)
insert_named db inserted (some (c ∷ s)) token key bytes =
    after_create (create db (new_bot db (c ∷ s) token key bytes)) inserted

-- One round of the loop of `_insert_bots`; `tokens` are the values of `secrets.token_hex`.
unfoldable pub insert_bot : (Text → Source) → (ℕ → Text) → Text → Db × ℕ → Attempt (Db × ℕ)
unfolding insert_named
insert_bot parse tokens bytes (db, inserted) =
    insert_named db inserted (extract_bot_name (parse bytes)) (tokens inserted)
      (key_or_default (extract_runtime_key (parse bytes))) bytes

-- `_insert_bots`: an exception of an insert ends the script.
unfoldable pub insert_bots : (Text → Source) → (ℕ → Text) → List Text → Db × ℕ → Attempt (Db × ℕ)
insert_bots parse tokens [] out = ok out
insert_bots parse tokens (bytes ∷ files) out = elim (insert_bot parse tokens bytes out) [
  | raised ↦ raised
  | ok next ↦ insert_bots parse tokens files next
]

abbrev pub build_job : Bot → BuildPodMessage
build_job b = record { bot_id = b.id; runtime_key = b.runtime_key }

-- `_enqueue_builds`: the messages; their count is the number that it returns.
unfoldable pub enqueue_builds : Db → List BuildPodMessage
enqueue_builds db = map build_job (all_bots db)

-- `main`, with the files of the directory in their order: the database, the number of rows inserted
-- and the jobs. Without a file the tables are cleared all the same.
unfoldable pub seed :
    (Text → Source) → (ℕ → Text) → List Text → Db → Attempt (Db × ℕ × List BuildPodMessage)
unfolding insert_bots
seed parse tokens [] db = ok (clear_tables db, 0, [])
seed parse tokens (bytes ∷ files) db =
    elim (insert_bots parse tokens (bytes ∷ files) (clear_tables db, 0)) [
      | raised ↦ raised
      | ok (next, inserted) ↦ ok (next, inserted, enqueue_builds next)
    ]
