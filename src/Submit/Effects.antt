-- ===== src/Submit/Effects.antt =====
-- What an upload does on each of its branches, and the invariants that uploads keep.
use june_2026_tictactoe_bots.Prelude.{
  All-append, ℕ, suc, ◌≡◌, refl, ◌⊎◌, inl, inr, Bool, true, false, Option, none, some, [], ◌∷◌,
  ◌++◌, All, Bool-cases, Option-cases,
}
use june_2026_tictactoe_bots.Text.{Text}
use june_2026_tictactoe_bots.Pods.{ok, raised}
use june_2026_tictactoe_bots.Store.{Db, Bot, bot_row, next_version, owner_token}
use june_2026_tictactoe_bots.Utils.{
  Source, extract_bot_name, extract_runtime_key, versioned_name, in_runtimes,
}
use june_2026_tictactoe_bots.Utils.Fields.{extract_runtime_key-known}
use june_2026_tictactoe_bots.Submit.{
  bot_uploaded, World, Owned, owned_token, set_owned, SubmitError, missing_name, invalid_runtime,
  taken, rejected, submitted, is_reserved, validate_bot_name, Ownership, granted, refused,
  resolve_owner_token, new_bot, Response, announce, store_bot, submit_valid, with_runtime,
  with_name, handle_submission,
}
use june_2026_tictactoe_bots.Submit.Names.{IsDigitClass}
use june_2026_tictactoe_bots.Submit.Versions.{IsNamed, create-new_bot}

-- The row that an accepted upload adds.
abbrev pub added_row : World → Text → Text → Text → Text → Bot
added_row w name token key bytes =
    bot_row w.db.next_bot_id w.db.now (new_bot w.db name token key bytes)

abbrev pub grown : World → Text → Text → Text → Text → Db
grown w name token key bytes = record w.db {
  bots = w.db.bots ++ added_row w name token key bytes ∷ [];
  next_bot_id = suc w.db.next_bot_id;
}

-- A row was added. If the broker takes the build job and the event, they follow, and the page with the
-- cookie; if it does not take the event, the handler raises behind the job; if it does not take the job,
-- the handler raises and the row stays without one.
abbrev pub Stored : World → Owned → Text → Text → Text → Text → Response → Type 0
Stored w owned name token key bytes (w', page) =
    (w'.db ≡ grown w name token key bytes)
    × (((w.takes_job ≡ true)
          × (w.takes_event ≡ true)
          × (w'.build_queue
              ≡ w.build_queue ++ record { bot_id = w.db.next_bot_id; runtime_key = key } ∷ [])
          × (w'.events
              ≡ w.events ++ bot_uploaded (versioned_name name (next_version w.db name)) ∷ [])
          × (page
              ≡ ok (
                  submitted (versioned_name name (next_version w.db name))
                    (set_owned name token owned))))
        ⊎ ((w.takes_job ≡ true)
            × (w.takes_event ≡ false)
            × (w'.build_queue
                ≡ w.build_queue ++ record { bot_id = w.db.next_bot_id; runtime_key = key } ∷ [])
            × (w'.events ≡ w.events)
            × (page ≡ raised))
        ⊎ ((w.takes_job ≡ false)
            × (w'.build_queue ≡ w.build_queue)
            × (w'.events ≡ w.events)
            × (page ≡ raised)))

announce-Stored :
    (w : World) (owned : Owned) (name token key bytes : Text)
    → Stored w owned name token key bytes (
        announce w owned name token
          (grown w name token key bytes, added_row w name token key bytes))
unfolding announce
announce-Stored w owned name token key bytes = elim (Bool-cases w.takes_job) [
  | inl job ↦ elim (Bool-cases w.takes_event) [
    | inl event ↦ rw (job, event) (refl, inl (refl, refl, refl, refl, refl))
    | inr no_event ↦ rw (job, no_event) (refl, inr (inl (refl, refl, refl, refl, refl)))
  ]
  | inr no_job ↦ rw no_job (refl, inr (inr (refl, refl, refl, refl)))
]

-- The upload was rejected and changed nothing, or it was stored: under a name that is not reserved,
-- with a runtime of the allowlist and a token that the family's owner holds or that is new.
abbrev pub Handled : (ℕ → Bool) → World → Owned → Text → Text → Response → Type 0
Handled is_digit w owned new_token bytes r =
    ((e : SubmitError) × (r ≡ (w, ok (rejected e))))
    ⊎ ((name : Text) × ((token : Text) × ((key : Text) × (is_reserved is_digit name ≡ false)
            × (in_runtimes key ≡ true)
            × (resolve_owner_token new_token (owned_token name owned) (owner_token w.db name)
                ≡ granted token)
            × Stored w owned name token key bytes r)))

validate_bot_name-none :
    (is_digit : ℕ → Bool) (name : Text)
    → validate_bot_name is_digit (some name) ≡ none
    → is_reserved is_digit name ≡ false
unfolding validate_bot_name
validate_bot_name-none is_digit [] e = cc
validate_bot_name-none is_digit (c ∷ s) e = elim (Bool-cases (is_reserved is_digit (c ∷ s))) [
  | inl bad ↦ cc (rw bad at e)
  | inr good ↦ good
]

pub Ownership-cases : (r : Ownership) → (r ≡ refused) ⊎ ((t : Text) × (r ≡ granted t))
Ownership-cases refused = inl refl
Ownership-cases (granted t) = inr (t, refl)

module _ (is_digit : ℕ → Bool) (class : IsDigitClass is_digit) (w : World)
    (named : All (IsNamed is_digit) w.db.bots) where
  store_bot-Stored :
      (owned : Owned) (name token key bytes : Text)
      → is_reserved is_digit name ≡ false
      → Stored w owned name token key bytes (store_bot w owned name token key bytes)
  unfolding store_bot
  store_bot-Stored owned name token key bytes free =
      rw (create-new_bot is_digit class w.db name token key bytes free named, store_bot)
        (announce-Stored w owned name token key bytes)

  submit_valid-Handled :
      (owned : Owned) (name new_token key bytes : Text)
      → is_reserved is_digit name ≡ false
      → in_runtimes key ≡ true
      → Handled is_digit w owned new_token bytes (submit_valid w owned name new_token key bytes)
  unfolding submit_valid
  submit_valid-Handled owned name new_token key bytes free known =
      elim (Ownership-cases
        (resolve_owner_token new_token (owned_token name owned) (owner_token w.db name))) [
          | inl no_owner ↦ inl (taken name, rw (no_owner, submit_valid) refl)
          | inr (t, e) ↦ inr (
            name,
            (
              t,
              (
                key,
                free,
                known,
                e,
                rw (e, submit_valid) (store_bot-Stored owned name t key bytes free),
              ),
            ),
          )
        ]

  with_runtime-Handled :
      (owned : Owned) (name new_token bytes : Text) (key : Option Text)
      → is_reserved is_digit name ≡ false
      → ((k : Text) → key ≡ some k → in_runtimes k ≡ true)
      → Handled is_digit w owned new_token bytes (with_runtime w owned name new_token bytes key)
  unfolding with_runtime
  with_runtime-Handled owned name new_token bytes none free known = inl (invalid_runtime, refl)
  with_runtime-Handled owned name new_token bytes (some key) free known =
      submit_valid-Handled owned name new_token key bytes free (known key refl)

  with_name-Handled :
      (owned : Owned) (new_token bytes : Text) (key name : Option Text)
      → ((k : Text) → key ≡ some k → in_runtimes k ≡ true)
      → Handled is_digit w owned new_token bytes
          (with_name is_digit w owned new_token bytes key name)
  unfolding with_name
  with_name-Handled owned new_token bytes key none known = inl (missing_name, refl)
  with_name-Handled owned new_token bytes key (some name) known =
      elim (Option-cases (validate_bot_name is_digit (some name))) [
        | inl fine ↦
            rw (fine, with_name)
              (with_runtime-Handled owned name new_token bytes key
                (validate_bot_name-none is_digit name fine) known)
        | inr (error, e) ↦ inl (error, rw (e, with_name) refl)
      ]

  -- Over rows that are named by family and version, with a digit class that has the ASCII digits and
  -- not V, an upload is rejected with everything unchanged, or stored as the next version of a name
  -- that is not reserved, for a runtime of the allowlist, under a token that is granted. Its build job
  -- and its event follow if the broker takes them; the first that it does not take makes the handler
  -- raise, and what came before stays.
  pub handle_submission-Handled :
      (parse : Text → Source) (owned : Owned) (new_token bytes : Text)
      → Handled is_digit w owned new_token bytes
          (handle_submission is_digit parse w owned new_token bytes)
  unfolding handle_submission
  handle_submission-Handled parse owned new_token bytes =
      with_name-Handled owned new_token bytes (extract_runtime_key (parse bytes))
        (extract_bot_name (parse bytes)) (extract_runtime_key-known (parse bytes))

  added_IsNamed :
      (name token key bytes : Text)
      → is_reserved is_digit name ≡ false
      → All (IsNamed is_digit) (grown w name token key bytes).bots
  added_IsNamed name token key bytes free =
      All-append (IsNamed is_digit) w.db.bots (added_row w name token key bytes ∷ []) named
        (record { named = refl; unreserved = free }, tt)

  -- If every row has the name that its family and version give and no family has a reserved name, the
  -- same is so after any upload, with a digit class that has the ASCII digits and not V.
  pub handle_submission-IsNamed :
      (parse : Text → Source) (owned : Owned) (new_token bytes : Text)
      → All (IsNamed is_digit) (handle_submission is_digit parse w owned new_token bytes).0.db.bots
  handle_submission-IsNamed parse owned new_token bytes =
      elim (handle_submission-Handled parse owned new_token bytes) [
        | inl (e, same) ↦ rw same named
        | inr (name, (token, (key, free, known, right, stored))) ↦
            rw stored.0 (added_IsNamed name token key bytes free)
      ]
