-- ===== src/Submit/Inserts.antt =====
-- The one write of an upload: web/submit.py over entities/bot/repository.py.
use june_2026_tictactoe_bots.Prelude.{
  ℕ, ◌≡◌, refl, ◌⊎◌, inl, inr, Bool, Option, none, some, Bool-cases, Option-cases,
}
use june_2026_tictactoe_bots.Text.{Text}
use june_2026_tictactoe_bots.Pods.{ok, Attempt-cases}
use june_2026_tictactoe_bots.Store.{Db, Bot, NewBot, create, owner_token}
use june_2026_tictactoe_bots.Utils.{Source, extract_bot_name, extract_runtime_key}
use june_2026_tictactoe_bots.Submit.{
  World, Owned, owned_token, resolve_owner_token, new_bot, Response, announce, store_bot,
  submit_valid, validate_bot_name, with_runtime, with_name, handle_submission,
}
use june_2026_tictactoe_bots.Submit.Effects.{Ownership-cases}

-- The table is as it was, or `create` inserted one row.
abbrev pub InsertsTo : World → World → Type 0
InsertsTo w w' = (w'.db ≡ w.db) ⊎ ((n : NewBot) × ((b : Bot) × (create w.db n ≡ ok (w'.db, b))))

abbrev pub Inserts : World → Response → Type 0
Inserts w r = InsertsTo w r.0

announce-Inserts :
    (w : World) (owned : Owned) (name token : Text) (n : NewBot) (db : Db) (b : Bot)
    → create w.db n ≡ ok (db, b)
    → Inserts w (announce w owned name token (db, b))
unfolding announce
announce-Inserts w owned name token n db b e = elim (Bool-cases w.takes_job) [
  | inl job ↦ elim (Bool-cases w.takes_event) [
    | inl event ↦ rw (job, event) (inr (n, (b, e)))
    | inr no_event ↦ rw (job, no_event) (inr (n, (b, e)))
  ]
  | inr no_job ↦ rw no_job (inr (n, (b, e)))
]

store_bot-Inserts :
    (w : World) (owned : Owned) (name token key bytes : Text)
    → Inserts w (store_bot w owned name token key bytes)
unfolding store_bot
store_bot-Inserts w owned name token key bytes =
    elim (Attempt-cases (create w.db (new_bot w.db name token key bytes))) [
      | inl e ↦ rw (e, store_bot) (inl refl)
      | inr ((db, b), e) ↦
          rw (e, store_bot)
            (announce-Inserts w owned name token (new_bot w.db name token key bytes) db b e)
    ]

submit_valid-Inserts :
    (w : World) (owned : Owned) (name new_token key bytes : Text)
    → Inserts w (submit_valid w owned name new_token key bytes)
unfolding submit_valid
submit_valid-Inserts w owned name new_token key bytes =
    elim (Ownership-cases
      (resolve_owner_token new_token (owned_token name owned) (owner_token w.db name))) [
        | inl e ↦ rw (e, submit_valid) (inl refl)
        | inr (t, e) ↦ rw (e, submit_valid) (store_bot-Inserts w owned name t key bytes)
      ]

with_runtime-Inserts :
    (w : World) (owned : Owned) (name new_token bytes : Text) (key : Option Text)
    → Inserts w (with_runtime w owned name new_token bytes key)
unfolding with_runtime
with_runtime-Inserts w owned name new_token bytes none = inl refl
with_runtime-Inserts w owned name new_token bytes (some key) =
    submit_valid-Inserts w owned name new_token key bytes

with_name-Inserts :
    (is_digit : ℕ → Bool) (w : World) (owned : Owned) (new_token bytes : Text)
    (key name : Option Text)
    → Inserts w (with_name is_digit w owned new_token bytes key name)
unfolding with_name
with_name-Inserts is_digit w owned new_token bytes key none = inl refl
with_name-Inserts is_digit w owned new_token bytes key (some name) =
    elim (Option-cases (validate_bot_name is_digit (some name))) [
      | inl fine ↦ rw (fine, with_name) (with_runtime-Inserts w owned name new_token bytes key)
      | inr (error, e) ↦ rw (e, with_name) (inl refl)
    ]

-- Whatever is uploaded, the table of bots stays as it was or one row was inserted by `create`.
pub handle_submission-Inserts :
    (is_digit : ℕ → Bool) (parse : Text → Source) (w : World) (owned : Owned)
    (new_token bytes : Text)
    → Inserts w (handle_submission is_digit parse w owned new_token bytes)
unfolding handle_submission
handle_submission-Inserts is_digit parse w owned new_token bytes =
    with_name-Inserts is_digit w owned new_token bytes (extract_runtime_key (parse bytes))
      (extract_bot_name (parse bytes))
