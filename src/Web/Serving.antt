-- ===== src/Web/Serving.antt =====
-- What sequences of requests to web/main.py do to the state of the site.
use june_2026_tictactoe_bots.Prelude.{
  ℕ, ◌≡◌, refl, ◌≢◌, inl, inr, Bool, true, false, List, [], ◌∷◌, All, keep, Bool-cases,
}
use june_2026_tictactoe_bots.Text.{Text}
use june_2026_tictactoe_bots.Store.{Db}
use june_2026_tictactoe_bots.Store.Leaderboard.Ranking.{VersionsDiffer}
use june_2026_tictactoe_bots.Submit.{World, Owned, handle_submission}
use june_2026_tictactoe_bots.Submit.Cookies.{
  CookieValue, dict, not_dict, parse_cookie, submit_with, submit_cookie,
}
use june_2026_tictactoe_bots.Submit.Effects.{handle_submission-IsNamed}
use june_2026_tictactoe_bots.Submit.Families.{handle_submission-VersionsDiffer}
use june_2026_tictactoe_bots.Submit.Inserts.{InsertsTo, handle_submission-Inserts}
use june_2026_tictactoe_bots.Submit.Names.{IsDigitClass}
use june_2026_tictactoe_bots.Submit.Owners.{OneOwner, handle_submission-OneOwner}
use june_2026_tictactoe_bots.Submit.Versions.{IsNamed}
use june_2026_tictactoe_bots.Web.Routes.{Site, Request, serve, serve_all, post_submit}

abbrev pub is_upload : Request → Bool
is_upload (post_submit bytes cookie new_token) = true
is_upload _ = false

-- The token that is drawn for an upload is not empty.
abbrev pub HasToken : Request → Type 0
HasToken (post_submit bytes cookie new_token) = new_token ≢ []
HasToken _ = Unit

-- The bots have the names of their families and versions, no family has two rows of one version, and
-- each has one owner.
pub record IsWellKept (is_digit : ℕ → Bool) (db : Db) : Type 0 where
  pub named : All (IsNamed is_digit) db.bots
  pub versions : VersionsDiffer db.bots
  pub owners : OneOwner db

module _ (site : Site) (class : IsDigitClass site.is_digit) where
  upload-IsWellKept :
      (w : World) (owned : Owned) (new_token bytes : Text)
      → new_token ≢ []
      → IsWellKept site.is_digit w.db
      → IsWellKept site.is_digit
          (handle_submission site.is_digit site.parse w owned new_token bytes).0.db
  upload-IsWellKept w owned new_token bytes fresh v = record {
    named =
        handle_submission-IsNamed site.is_digit class w v.named site.parse owned new_token bytes;
    versions =
        handle_submission-VersionsDiffer site.is_digit site.parse w owned new_token bytes class
          v.named v.versions;
    owners =
        handle_submission-OneOwner site.is_digit site.parse w owned new_token bytes class v.named
          fresh v.owners;
  }

  submit_with-IsWellKept :
      (w : World) (cookie : CookieValue) (new_token bytes : Text)
      → new_token ≢ []
      → IsWellKept site.is_digit w.db
      → IsWellKept site.is_digit
          (submit_with site.is_digit site.parse w cookie new_token bytes).0.db
  submit_with-IsWellKept w (dict owned) new_token bytes fresh v =
      upload-IsWellKept w owned new_token bytes fresh v
  submit_with-IsWellKept w not_dict new_token bytes fresh v =
      upload-IsWellKept w [] new_token bytes fresh v

  serve-IsWellKept :
      (w : World) (r : Request)
      → HasToken r
      → IsWellKept site.is_digit w.db
      → IsWellKept site.is_digit (serve site w r).0.db
  unfolding serve submit_cookie
  serve-IsWellKept w (post_submit bytes cookie new_token) fresh v =
      submit_with-IsWellKept w (parse_cookie site.codec cookie) new_token bytes fresh v
  serve-IsWellKept w Request.get_home fresh v = v
  serve-IsWellKept w Request.get_submit fresh v = v
  serve-IsWellKept w (Request.get_play cookie) fresh v = v
  serve-IsWellKept w (Request.post_play_name player_name) fresh v = v
  serve-IsWellKept w (Request.get_play_vs bot_id cookie) fresh v = v
  serve-IsWellKept w (Request.post_play_turn payload) fresh v = v
  serve-IsWellKept w Request.get_leaderboard fresh v = v
  serve-IsWellKept w Request.get_dashboard fresh v = v
  serve-IsWellKept w Request.get_matches fresh v = v
  serve-IsWellKept w (Request.get_bot base_name) fresh v = v
  serve-IsWellKept w (Request.get_match match_id) fresh v = v
  serve-IsWellKept w (Request.get_bot_match base_name match_id) fresh v = v

  -- Any requests to the site, in any order and with whatever cookies and files, keep the bots' table
  -- well: each row named by its family and version, no version of a family twice, and one owner for each
  -- family, if the drawn tokens are not empty and the digit class has the ASCII digits and not V.
  pub serve_all-IsWellKept :
      (w : World) (rs : List Request)
      → All HasToken rs
      → IsWellKept site.is_digit w.db
      → IsWellKept site.is_digit (serve_all site w rs).db
  unfolding serve_all
  serve_all-IsWellKept w [] fresh v = v
  serve_all-IsWellKept w (r ∷ rs) fresh v =
      serve_all-IsWellKept (serve site w r).0 rs fresh.1 (serve-IsWellKept w r fresh.0 v)

submit_with-InsertsTo :
    (site : Site) (w : World) (cookie : CookieValue) (new_token bytes : Text)
    → InsertsTo w (submit_with site.is_digit site.parse w cookie new_token bytes).0
submit_with-InsertsTo site w (dict owned) new_token bytes =
    handle_submission-Inserts site.is_digit site.parse w owned new_token bytes
submit_with-InsertsTo site w not_dict new_token bytes =
    handle_submission-Inserts site.is_digit site.parse w [] new_token bytes

reads-World : (site : Site) (w : World) (r : Request) → is_upload r ≡ false → (serve site w r).0 ≡ w
unfolding serve
reads-World site w (post_submit bytes cookie new_token) e = cc
reads-World site w Request.get_home e = refl
reads-World site w Request.get_submit e = refl
reads-World site w (Request.get_play cookie) e = refl
reads-World site w (Request.post_play_name player_name) e = refl
reads-World site w (Request.get_play_vs bot_id cookie) e = refl
reads-World site w (Request.post_play_turn payload) e = refl
reads-World site w Request.get_leaderboard e = refl
reads-World site w Request.get_dashboard e = refl
reads-World site w Request.get_matches e = refl
reads-World site w (Request.get_bot base_name) e = refl
reads-World site w (Request.get_match match_id) e = refl
reads-World site w (Request.get_bot_match base_name match_id) e = refl

-- Whatever is requested, the tables stay as they were or one row was inserted into the bots by `create`.
pub serve-InsertsTo : (site : Site) (w : World) (r : Request) → InsertsTo w (serve site w r).0
unfolding serve submit_cookie
serve-InsertsTo site w (post_submit bytes cookie new_token) =
    submit_with-InsertsTo site w (parse_cookie site.codec cookie) new_token bytes
serve-InsertsTo site w Request.get_home = inl refl
serve-InsertsTo site w Request.get_submit = inl refl
serve-InsertsTo site w (Request.get_play cookie) = inl refl
serve-InsertsTo site w (Request.post_play_name player_name) = inl refl
serve-InsertsTo site w (Request.get_play_vs bot_id cookie) = inl refl
serve-InsertsTo site w (Request.post_play_turn payload) = inl refl
serve-InsertsTo site w Request.get_leaderboard = inl refl
serve-InsertsTo site w Request.get_dashboard = inl refl
serve-InsertsTo site w Request.get_matches = inl refl
serve-InsertsTo site w (Request.get_bot base_name) = inl refl
serve-InsertsTo site w (Request.get_match match_id) = inl refl
serve-InsertsTo site w (Request.get_bot_match base_name match_id) = inl refl

-- The state of the site after any requests is the one that their uploads alone lead to.
pub serve_all-uploads :
    (site : Site) (w : World) (rs : List Request)
    → serve_all site w rs ≡ serve_all site w (keep is_upload rs)
unfolding serve_all
serve_all-uploads site w [] = refl
serve_all-uploads site w (r ∷ rs) = elim (Bool-cases (is_upload r)) [
  | inl hit ↦ rw hit (serve_all-uploads site (serve site w r).0 rs)
  | inr miss ↦ rw (miss, reads-World site w r miss) (serve_all-uploads site w rs)
]
