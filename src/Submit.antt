-- ===== src/Submit.antt =====
-- web/submit.py: the handler of an upload, and the messages that it sends (messaging/contracts.py,
-- messaging/rabbitmq.py). The parser of the source, the digits of `\d`, the cookie and a new token are
-- arguments.
pub mod Names
pub mod Versions
pub mod Cookies
pub mod Effects
pub mod Inserts
pub mod Owners
pub mod Strangers
pub mod Opening
pub mod Returning
pub mod Families
mod Tests
use june_2026_tictactoe_bots.Prelude.{
  ℕ, zero, suc, Bool, true, false, ◌&&◌, ◌||◌, not, Option, none, some, List, [], ◌∷◌, ◌++◌,
  reverse, ◌==◌, if◌then◌else◌,
}
use june_2026_tictactoe_bots.Text.{Text, text_eq}
use june_2026_tictactoe_bots.Pods.{Attempt, ok, raised, is_truthy}
use june_2026_tictactoe_bots.Store.{Db, Bot, NewBot, owner_token, next_version, create}
use june_2026_tictactoe_bots.Utils.{
  Source, extract_bot_name, extract_runtime_key, python_version_from_runtime_key, versioned_name,
}

pub record BuildPodMessage : Type 0 where
  pub bot_id : ℕ
  pub runtime_key : Text

pub data Event : Type 0 where
  bot_uploaded : Text → Event

-- What an upload reads and writes: the database, the queue `matches.build` and the events exchange, and
-- whether the broker takes the upload's job and its event. A publish that it does not take raises.
pub record World : Type 0 where
  pub db : Db
  pub build_queue : List BuildPodMessage
  pub events : List Event
  pub takes_job : Bool
  pub takes_event : Bool

-- The dict of the ownership cookie, from base names to tokens.
abbrev pub Owned : Type 0
Owned = List (Text × Text)

abbrev pub owned_token : Text → Owned → Option Text
owned_token name [] = none
owned_token name ((k, t) ∷ rest) = if text_eq k name then some t else owned_token name rest

abbrev pub set_owned : Text → Text → Owned → Owned
set_owned name token [] = (name, token) ∷ []
set_owned name token ((k, t) ∷ rest) =
    if text_eq k name then (k, token) ∷ rest else (k, t) ∷ set_owned name token rest

pub data SubmitError : Type 0 where
  missing_name : SubmitError
  reserved_name : Text → SubmitError
  invalid_runtime : SubmitError
  taken : Text → SubmitError

-- The page of the response; `submitted` has the versioned name and the cookie that it sets.
pub data Page : Type 0 where
  rejected : SubmitError → Page
  submitted : Text → Owned → Page

-- Read from the end of a text: digits, one at least, and then a V.
unfoldable pub ends_in_version : (ℕ → Bool) → Bool → Text → Bool
ends_in_version is_digit seen [] = false
ends_in_version is_digit seen (c ∷ s) =
    let rest = ends_in_version is_digit true s in if is_digit c then rest else seen && (c == 86)

-- `$` also matches before a line feed that ends the text.
abbrev pub without_newline : Text → Text
without_newline [] = []
without_newline (c ∷ s) = if c == 10 then s else c ∷ s

-- `re.search(r"V\d+$", name)`
unfoldable pub is_reserved : (ℕ → Bool) → Text → Bool
unfolding ends_in_version
is_reserved is_digit name = ends_in_version is_digit false (without_newline (reverse name))

-- `_validate_bot_name`
unfoldable pub validate_bot_name : (ℕ → Bool) → Option Text → Option SubmitError
validate_bot_name is_digit none = some missing_name
validate_bot_name is_digit (some []) = some missing_name
validate_bot_name is_digit (some (c ∷ s)) =
    if is_reserved is_digit (c ∷ s) then some (reserved_name (c ∷ s)) else none

-- `_resolve_owner_token`: the token to store, or the error.
pub data Ownership : Type 0 where
  granted : Text → Ownership
  refused : Ownership

same_token : Option Text → Text → Bool
same_token none token = false
same_token (some t) token = text_eq t token

unfoldable pub resolve_owner_token : Text → Option Text → Option Text → Ownership
unfolding same_token
resolve_owner_token new_token held none = granted new_token
resolve_owner_token new_token held (some []) = granted new_token
resolve_owner_token new_token held (some (c ∷ s)) =
    if same_token held (c ∷ s) then granted (c ∷ s) else refused

-- The row that `_persist_bot` inserts.
abbrev pub new_bot : Db → Text → Text → Text → Text → NewBot
new_bot db name token key bytes = record {
  base_name = name;
  versioned_name = versioned_name name (next_version db name);
  version = next_version db name;
  owner_token = token;
  python_version = python_version_from_runtime_key key;
  runtime_key = key;
  source = some bytes;
}

abbrev pub Response : Type 0
Response = World × Attempt Page

-- After the insert: the build job, the event and the page. The row stays if a publish raises.
announce : World → Owned → Text → Text → Db × Bot → Response
announce w owned name token (db', bot) =
    let stored = record w { db = db' } in
    let queued = record stored {
      build_queue = w.build_queue ++ record { bot_id = bot.id; runtime_key = bot.runtime_key } ∷ [];
    } in
    if w.takes_job
    then if w.takes_event
      then (
        record queued { events = w.events ++ bot_uploaded bot.versioned_name ∷ [] },
        ok (submitted bot.versioned_name (set_owned name token owned)),
      )
      else (queued, raised)
    else (stored, raised)

unfoldable pub store_bot : World → Owned → Text → Text → Text → Text → Response
unfolding announce
store_bot w owned name token key bytes = elim (create w.db (new_bot w.db name token key bytes)) [
  | raised ↦ (w, raised)
  | ok created ↦ announce w owned name token created
]

-- The steps behind the two validations.
unfoldable pub submit_valid : World → Owned → Text → Text → Text → Text → Response
unfolding store_bot resolve_owner_token
submit_valid w owned name new_token key bytes =
    elim (resolve_owner_token new_token (owned_token name owned) (owner_token w.db name)) [
      | refused ↦ (w, ok (rejected (taken name)))
      | granted token ↦ store_bot w owned name token key bytes
    ]

with_runtime : World → Owned → Text → Text → Text → Option Text → Response
unfolding submit_valid
with_runtime w owned name new_token bytes none = (w, ok (rejected invalid_runtime))
with_runtime w owned name new_token bytes (some key) = submit_valid w owned name new_token key bytes

with_name : (ℕ → Bool) → World → Owned → Text → Text → Option Text → Option Text → Response
unfolding with_runtime validate_bot_name
with_name is_digit w owned new_token bytes key none = (w, ok (rejected missing_name))
with_name is_digit w owned new_token bytes key (some name) =
    elim (validate_bot_name is_digit (some name)) [
      | some error ↦ (w, ok (rejected error))
      | none ↦ with_runtime w owned name new_token bytes key
    ]

-- `handle_submission`
unfoldable pub handle_submission :
    (ℕ → Bool) → (Text → Source) → World → Owned → Text → Text → Response
unfolding with_name
handle_submission is_digit parse w owned new_token bytes =
    with_name is_digit w owned new_token bytes (extract_runtime_key (parse bytes))
      (extract_bot_name (parse bytes))
