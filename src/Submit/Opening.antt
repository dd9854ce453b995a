-- ===== src/Submit/Opening.antt =====
-- The cookie that an upload of web/submit.py sets, against the owner's check of the next one.
use june_2026_tictactoe_bots.Prelude.{
  ℕ, ◌≡◌, refl, sym, ap, ◌∙◌, ◌≢◌, inl, inr, Bool, Option, none, some, [], ◌∷◌, ◌++◌, Bool-cases,
  Option-cases, any,
}
use june_2026_tictactoe_bots.Text.{Text, text_eq}
use june_2026_tictactoe_bots.Text.Laws.{text_eq_refl}
use june_2026_tictactoe_bots.Pods.{Attempt, ok, raised, Attempt-cases}
use june_2026_tictactoe_bots.Store.{Db, Bot, NewBot, create, bot_row, owner_token}
use june_2026_tictactoe_bots.Utils.{Source, extract_bot_name, extract_runtime_key}
use june_2026_tictactoe_bots.Submit.{
  World, Owned, owned_token, set_owned, Response, Page, rejected, submitted, granted, refused,
  resolve_owner_token, same_token, new_bot, announce, store_bot, submit_valid, validate_bot_name,
  with_runtime, with_name, handle_submission,
}
use june_2026_tictactoe_bots.Submit.Effects.{Ownership-cases}
use june_2026_tictactoe_bots.Submit.Owners.{owner_token-append, owner_token-append_new}

owned_token-set_owned :
    (name token : Text) (owned : Owned) → owned_token name (set_owned name token owned) ≡ some token
owned_token-set_owned name token [] = rw (text_eq_refl name) refl
owned_token-set_owned name token ((k, t) ∷ rest) = elim (Bool-cases (text_eq k name)) [
  | inl hit ↦ rw (hit, hit) refl
  | inr miss ↦ rw (miss, miss) (owned_token-set_owned name token rest)
]

-- The dict gets a further upload to the family past its owner's check.
abbrev pub Opens : Owned → Db → Text → Type 0
Opens owned db name =
    (new_token : Text)
    → resolve_owner_token new_token (owned_token name owned) (owner_token db name) ≢ refused

opens_held :
    (owned : Owned) (db : Db) (name token : Text)
    → owned_token name owned ≡ some token
    → owner_token db name ≡ some token
    → Opens owned db name
unfolding resolve_owner_token same_token
opens_held owned db name [] held kept new_token h = cc (rw kept at h)
opens_held owned db name (c ∷ s) held kept new_token h =
    cc (rw (kept, held, text_eq_refl (c ∷ s)) at h)

create-bots :
    (db db' : Db) (n : NewBot) (b : Bot)
    → create db n ≡ ok (db', b)
    → db'.bots ≡ db.bots ++ bot_row db.next_bot_id db.now n ∷ []
unfolding create
create-bots db db' n b e =
    elim (Bool-cases (any (λ b. text_eq b.versioned_name n.versioned_name) db.bots)) [
      | inl in_use ↦ cc (rw in_use at e)
      | inr free ↦ stored (rw free at e)
    ]
  where
    stored : {x y : Db × Bot} → ◌≡◌ {A = Attempt (Db × Bot)} (ok x) (ok y) → y.0.bots ≡ x.0.bots
    stored h = cc

granted_same :
    (new_token token : Text) (held : Option Text) (c : ℕ) (s : Text)
    → resolve_owner_token new_token held (some (c ∷ s)) ≡ granted token
    → token ≡ c ∷ s
unfolding resolve_owner_token
granted_same new_token token held c s e = elim (Bool-cases (same_token held (c ∷ s))) [
  | inl same ↦ cc (rw same at e)
  | inr differs ↦ cc (rw differs at e)
]

opens_empty :
    (owned : Owned) (db : Db) (name : Text) → owner_token db name ≡ some [] → Opens owned db name
unfolding resolve_owner_token
opens_empty owned db name kept new_token h = cc (rw kept at h)

module _ (w : World) (owned : Owned) (name new_token token key bytes : Text) where
  created-Opens :
      (db : Db) (b : Bot) (family : Option Text)
      → create w.db (new_bot w.db name token key bytes) ≡ ok (db, b)
      → owner_token w.db name ≡ family
      → resolve_owner_token new_token (owned_token name owned) family ≡ granted token
      → Opens (set_owned name token owned) db name
  created-Opens db b none e f g =
      opens_held (set_owned name token owned) db name token (owned_token-set_owned name token owned)
        (owner_token-append_new w.db db
          (bot_row w.db.next_bot_id w.db.now (new_bot w.db name token key bytes))
          (create-bots w.db db (new_bot w.db name token key bytes) b e) f)
  created-Opens db b (some []) e f g = opens_empty (set_owned name token owned) db name (
      owner_token-append w.db db _ name []
        (create-bots w.db db (new_bot w.db name token key bytes) b e) f)
  created-Opens db b (some (c ∷ s)) e f g =
      let same = granted_same new_token token (owned_token name owned) c s g in
      opens_held (set_owned name token owned) db name token (owned_token-set_owned name token owned)
        (owner_token-append w.db db _ name token
          (create-bots w.db db (new_bot w.db name token key bytes) b e) (f ∙ ap some (sym same)))

-- If the upload was accepted, its cookie opens the family in its database.
abbrev pub PageOpens : Attempt Page → Db → Text → Type 0
PageOpens (ok (submitted versioned owned)) db name = Opens owned db name
PageOpens (ok (rejected error)) db name = Unit
PageOpens raised db name = Unit

abbrev pub IsOpening : Response → Text → Type 0
IsOpening r name = PageOpens r.1 r.0.db name

module _ (w : World) (owned : Owned) (name : Text) where
  announce-IsOpening :
      (token : Text) (db : Db) (b : Bot)
      → Opens (set_owned name token owned) db name
      → IsOpening (announce w owned name token (db, b)) name
  unfolding announce
  announce-IsOpening token db b h = elim (Bool-cases w.takes_job) [
    | inl job ↦ elim (Bool-cases w.takes_event) [
      | inl event ↦ rw (job, event) h
      | inr no_event ↦ rw (job, no_event) tt
    ]
    | inr no_job ↦ rw no_job tt
  ]

  store_bot-IsOpening :
      (new_token token key bytes : Text)
      → resolve_owner_token new_token (owned_token name owned) (owner_token w.db name)
        ≡ granted token
      → IsOpening (store_bot w owned name token key bytes) name
  unfolding store_bot
  store_bot-IsOpening new_token token key bytes g =
      elim (Attempt-cases (create w.db (new_bot w.db name token key bytes))) [
        | inl e ↦ rw (e, store_bot) tt
        | inr ((db, b), e) ↦
            rw (e, store_bot)
              (announce-IsOpening token db b (
                created-Opens w owned name new_token token key bytes db b (owner_token w.db name) e
                  refl g))
      ]

  submit_valid-IsOpening :
      (new_token key bytes : Text) → IsOpening (submit_valid w owned name new_token key bytes) name
  unfolding submit_valid
  submit_valid-IsOpening new_token key bytes =
      elim (Ownership-cases
        (resolve_owner_token new_token (owned_token name owned) (owner_token w.db name))) [
          | inl e ↦ rw (e, submit_valid) tt
          | inr (t, e) ↦ rw (e, submit_valid) (store_bot-IsOpening new_token t key bytes e)
        ]

  with_runtime-IsOpening :
      (new_token bytes : Text) (key : Option Text)
      → IsOpening (with_runtime w owned name new_token bytes key) name
  unfolding with_runtime
  with_runtime-IsOpening new_token bytes none = tt
  with_runtime-IsOpening new_token bytes (some key) = submit_valid-IsOpening new_token key bytes

  with_name-IsOpening :
      (is_digit : ℕ → Bool) (new_token bytes : Text) (key : Option Text)
      → IsOpening (with_name is_digit w owned new_token bytes key (some name)) name
  unfolding with_name
  with_name-IsOpening is_digit new_token bytes key =
      elim (Option-cases (validate_bot_name is_digit (some name))) [
        | inl fine ↦ rw (fine, with_name) (with_runtime-IsOpening new_token bytes key)
        | inr (error, e) ↦ rw (e, with_name) tt
      ]

-- An upload of a file under a name leaves a database that its cookie opens for that name.
pub handle_submission-IsOpening :
    (is_digit : ℕ → Bool) (parse : Text → Source) (w : World) (owned : Owned)
    (new_token bytes name : Text)
    → extract_bot_name (parse bytes) ≡ some name
    → IsOpening (handle_submission is_digit parse w owned new_token bytes) name
unfolding handle_submission
handle_submission-IsOpening is_digit parse w owned new_token bytes name e =
    rw e (
      with_name-IsOpening w owned name is_digit new_token bytes (extract_runtime_key (parse bytes)))
