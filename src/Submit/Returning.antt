-- ===== src/Submit/Returning.antt =====
-- An owner who comes back: two uploads of web/submit.py with the cookie that the first one sets.
use june_2026_tictactoe_bots.Prelude.{
  ℕ, ◌≡◌, refl, ◌≢◌, subst, ◌⊎◌, inl, inr, Bool, Option, none, some, [], ◌∷◌, Bool-cases,
}
use june_2026_tictactoe_bots.Text.{Text}
use june_2026_tictactoe_bots.Pods.{Attempt, ok, Attempt-cases}
use june_2026_tictactoe_bots.Store.{Db, Bot, create, owner_token}
use june_2026_tictactoe_bots.Utils.{Source, extract_bot_name, extract_runtime_key}
use june_2026_tictactoe_bots.Submit.{
  World, Owned, owned_token, Response, Page, rejected, submitted, taken, missing_name,
  reserved_name, is_reserved, resolve_owner_token, new_bot, announce, store_bot, submit_valid,
  validate_bot_name, with_runtime, with_name, handle_submission,
}
use june_2026_tictactoe_bots.Submit.Cookies.{
  Codec, IsCodec, encode_cookie, submit_cookie, parse_cookie-encode_cookie,
}
use june_2026_tictactoe_bots.Submit.Effects.{Ownership-cases}
use june_2026_tictactoe_bots.Submit.Opening.{Opens, IsOpening, handle_submission-IsOpening}

validate_bot_name-cases :
    (is_digit : ℕ → Bool) (name : Text)
    → (validate_bot_name is_digit (some name) ≡ none)
      ⊎ (validate_bot_name is_digit (some name) ≡ some missing_name)
      ⊎ (validate_bot_name is_digit (some name) ≡ some (reserved_name name))
unfolding validate_bot_name
validate_bot_name-cases is_digit [] = inr (inl refl)
validate_bot_name-cases is_digit (c ∷ s) = elim (Bool-cases (is_reserved is_digit (c ∷ s))) [
  | inl bad ↦ rw bad (inr (inr refl))
  | inr good ↦ rw good (inl refl)
]

abbrev NotTaken : Attempt Page → Type 0
NotTaken (ok (rejected (taken name))) = ⊥
NotTaken page = Unit

announce-NotTaken :
    (w : World) (owned : Owned) (name token : Text) (db : Db) (b : Bot)
    → NotTaken (announce w owned name token (db, b)).1
unfolding announce
announce-NotTaken w owned name token db b = elim (Bool-cases w.takes_job) [
  | inl job ↦ elim (Bool-cases w.takes_event) [
    | inl event ↦ rw (job, event) tt
    | inr no_event ↦ rw (job, no_event) tt
  ]
  | inr no_job ↦ rw no_job tt
]

module _ (w : World) (owned : Owned) (name : Text) (opens : Opens owned w.db name) where
  store_bot-NotTaken :
      (token key bytes : Text) → NotTaken (store_bot w owned name token key bytes).1
  unfolding store_bot
  store_bot-NotTaken token key bytes =
      elim (Attempt-cases (create w.db (new_bot w.db name token key bytes))) [
        | inl e ↦ rw (e, store_bot) tt
        | inr ((db, b), e) ↦ rw (e, store_bot) (announce-NotTaken w owned name token db b)
      ]

  submit_valid-NotTaken :
      (new_token key bytes : Text) → NotTaken (submit_valid w owned name new_token key bytes).1
  unfolding submit_valid
  submit_valid-NotTaken new_token key bytes =
      elim (Ownership-cases
        (resolve_owner_token new_token (owned_token name owned) (owner_token w.db name))) [
          | inl e ↦ elim (opens new_token e) [ ]
          | inr (t, e) ↦ rw (e, submit_valid) (store_bot-NotTaken t key bytes)
        ]

  with_runtime-NotTaken :
      (new_token bytes : Text) (key : Option Text)
      → NotTaken (with_runtime w owned name new_token bytes key).1
  unfolding with_runtime
  with_runtime-NotTaken new_token bytes none = tt
  with_runtime-NotTaken new_token bytes (some key) = submit_valid-NotTaken new_token key bytes

  with_name-NotTaken :
      (is_digit : ℕ → Bool) (new_token bytes : Text) (key : Option Text)
      → NotTaken (with_name is_digit w owned new_token bytes key (some name)).1
  unfolding with_name validate_bot_name
  with_name-NotTaken is_digit new_token bytes key = elim (validate_bot_name-cases is_digit name) [
    | inl fine ↦ rw (fine, with_name) (with_runtime-NotTaken new_token bytes key)
    | inr (inl e) ↦ rw (e, with_name) tt
    | inr (inr e) ↦ rw (e, with_name) tt
  ]

opened :
    (r : Response) (name : Text) (w : World) (versioned : Text) (owned : Owned)
    → IsOpening r name
    → r ≡ (w, ok (submitted versioned owned))
    → Opens owned w.db name
opened r name w versioned owned h e = subst (λ q. IsOpening q name) e h

not_taken : (page : Attempt Page) (name : Text) → NotTaken page → page ≢ ok (rejected (taken name))
not_taken page name h e = subst NotTaken e h

-- After an upload that was accepted, the browser that sends back the cookie of its response is not
-- told that a name is taken when it uploads a further file of the same bot's name, if the JSON of that
-- cookie's dict is ASCII with a brace first and is read back, and UTF-8 leaves ASCII bytes alone.
pub owner_returns :
    (codec : Codec) (is_digit : ℕ → Bool) (parse : Text → Source) (w w' : World)
    (owned owned' : Owned) (t t' bytes bytes' name versioned other : Text)
    → IsCodec codec owned'
    → extract_bot_name (parse bytes) ≡ some name
    → extract_bot_name (parse bytes') ≡ some name
    → handle_submission is_digit parse w owned t bytes ≡ (w', ok (submitted versioned owned'))
    → (submit_cookie codec is_digit parse w' (some (encode_cookie codec owned')) t' bytes').1
      ≢ ok (rejected (taken other))
unfolding handle_submission submit_cookie
owner_returns codec is_digit parse w w' owned owned' t t' bytes bytes' name versioned other v first
      again accepted =
    not_taken _ other (
      rw (parse_cookie-encode_cookie codec owned' v, again)
        (with_name-NotTaken w' owned' name
          (opened (handle_submission is_digit parse w owned t bytes) name w' versioned owned'
            (handle_submission-IsOpening is_digit parse w owned t bytes name first) accepted)
          is_digit t' bytes' (extract_runtime_key (parse bytes'))))
