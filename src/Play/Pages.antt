-- ===== src/Play/Pages.antt =====
-- web/play.py: the page of the play picker, the display name and the game page of one bot.
use june_2026_tictactoe_bots.Prelude.{
  ℕ, ◌≡◌, ◌≢◌, refl, true, not, Option, none, some, List, [], ◌∷◌, if◌then◌else◌, ◌⊎◌, inl, inr,
  ◌↔◌, Bool-cases,
}
use june_2026_tictactoe_bots.Text.{Text, strip}
use june_2026_tictactoe_bots.Engine.{Player, other}
use june_2026_tictactoe_bots.Store.{Db, Bot, by_id}
use june_2026_tictactoe_bots.Store.Leaderboard.{ready_bots_for_play}

-- The responses of the play pages, with what their templates are given.
pub data PlayPage : Type 0 where
  name_form : PlayPage
  name_error : PlayPage
  name_set : Text → PlayPage
  picker : Text → List Bot → PlayPage
  redirect : PlayPage
  game_page : ℕ → Text → Text → Player → Player → PlayPage
  not_found_page : PlayPage

-- `render_play_page`; a cookie that is empty is as one that is absent.
unfoldable pub render_play_page : Db → Option Text → PlayPage
render_play_page db none = name_form
render_play_page db (some []) = name_form
render_play_page db (some (c ∷ name)) = picker (c ∷ name) (ready_bots_for_play db)

set_name : Text → PlayPage × Option Text
set_name [] = (name_error, none)
set_name (c ∷ cleaned) = (name_set (c ∷ cleaned), some (c ∷ cleaned))

-- `handle_set_player_name`: the page, and the cookie that it sets.
unfoldable pub handle_set_player_name : Text → PlayPage × Option Text
unfolding set_name
handle_set_player_name player_name = set_name (strip player_name)

play_against : Player → Text → Option Bot → PlayPage
play_against human name none = not_found_page
play_against human name (some bot) =
    if not bot.pod_ready
    then not_found_page
    else game_page bot.id bot.versioned_name name human (other human)

-- `render_play_vs_page`; `human` is the choice of `secrets.choice`. The page's number is the one in the
-- address, which is the row's.
unfoldable pub render_play_vs_page : Player → Db → ℕ → Option Text → PlayPage
unfolding play_against
render_play_vs_page human db bot_id none = redirect
render_play_vs_page human db bot_id (some []) = redirect
render_play_vs_page human db bot_id (some (c ∷ name)) =
    play_against human (c ∷ name) (by_id db bot_id)

-- What the pages show after a name was sent.
abbrev pub Named : Db → Player → ℕ → Bot → Text → Option Text → Type 0
Named db human bot_id bot cleaned cookie =
    ((cleaned ≡ [])
      × (cookie ≡ none)
      × (render_play_page db cookie ≡ name_form)
      × (render_play_vs_page human db bot_id cookie ≡ redirect))
    ⊎ ((cleaned ≢ [])
        × (cookie ≡ some cleaned)
        × (render_play_page db cookie ≡ picker cleaned (ready_bots_for_play db))
        × ((render_play_vs_page human db bot_id cookie
              ≡ game_page bot.id bot.versioned_name cleaned human (other human))
            ↔ (bot.pod_ready ≡ true)))

set_name-Named :
    (db : Db) (human : Player) (bot_id : ℕ) (bot : Bot) (cleaned : Text)
    → by_id db bot_id ≡ some bot
    → Named db human bot_id bot cleaned (set_name cleaned).1
unfolding set_name render_play_page render_play_vs_page play_against
set_name-Named db human bot_id bot [] e = inl (refl, refl, refl, refl)
set_name-Named db human bot_id bot (c ∷ s) e = inr ((λ h. cc), refl, refl, shown)
  where
    shown :
        (play_against human (c ∷ s) (by_id db bot_id)
          ≡ game_page bot.id bot.versioned_name (c ∷ s) human (other human))
        ↔ (bot.pod_ready ≡ true)
    shown = rw e (elim (Bool-cases bot.pod_ready) [
      | inl f ↦ rw f (λ h. refl, λ h. refl)
      | inr f ↦ rw f (λ h. cc, λ h. cc)
    ])

-- After a name is sent: if it is blank, no cookie is set, the play page asks for a name and the page of
-- a bot leads back to it; otherwise the cookie is the name without the white space around it, the play
-- page shows the picker of the ready bots under this name, and the page of a bot that is in the
-- database shows its game, with the two symbols apart, exactly when the bot's pod is ready.
pub handle_set_player_name-Named :
    (db : Db) (human : Player) (bot_id : ℕ) (bot : Bot) (player_name : Text)
    → by_id db bot_id ≡ some bot
    → Named db human bot_id bot (strip player_name) (handle_set_player_name player_name).1
unfolding handle_set_player_name
handle_set_player_name-Named db human bot_id bot player_name e =
    set_name-Named db human bot_id bot (strip player_name) e
