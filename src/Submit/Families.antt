-- ===== src/Submit/Families.antt =====
-- The versions of a family, from upload to upload.
use june_2026_tictactoe_bots.Prelude.{
  ℕ, ◌<◌, ◌≡◌, ◌≢◌, sym, inl, inr, Bool, [], ◌∷◌, ◌++◌, List, All, arith,
}
use june_2026_tictactoe_bots.Text.{Text}
use june_2026_tictactoe_bots.Store.{Bot}
use june_2026_tictactoe_bots.Store.Versions.{versions_below}
use june_2026_tictactoe_bots.Store.Leaderboard.Ranking.{VersionsDiffer}
use june_2026_tictactoe_bots.Utils.{Source}
use june_2026_tictactoe_bots.Submit.{World, Owned, handle_submission}
use june_2026_tictactoe_bots.Submit.Names.{IsDigitClass}
use june_2026_tictactoe_bots.Submit.Versions.{IsNamed}
use june_2026_tictactoe_bots.Submit.Effects.{added_row, handle_submission-Handled}

-- A row whose version is above those of its family comes in at the end.
pub VersionsDiffer-append :
    (bs : List Bot) (c : Bot)
    → All (λ b. b.base_name ≡ c.base_name → b.version < c.version) bs
    → VersionsDiffer bs
    → VersionsDiffer (bs ++ c ∷ [])
VersionsDiffer-append [] c below h = (tt, tt)
VersionsDiffer-append (b ∷ bs) c below h = (differs bs h.0, VersionsDiffer-append bs c below.1 h.1)
  where
    differs :
        (ds : List Bot)
        → All (λ d. d.base_name ≡ b.base_name → d.version ≢ b.version) ds
        → All (λ d. d.base_name ≡ b.base_name → d.version ≢ b.version) (ds ++ c ∷ [])
    differs [] k = ((λ e f. omega (arith, below.0 (sym e), f)), tt)
    differs (d ∷ ds) k = (k.0, differs ds k.1)

-- Over rows that are named by family and version, with a digit class that has the ASCII digits and
-- not V, no upload gives a family two rows of one version, whether it is accepted, is rejected or
-- raises.
pub handle_submission-VersionsDiffer :
    (is_digit : ℕ → Bool) (parse : Text → Source) (w : World) (owned : Owned)
    (new_token bytes : Text)
    → IsDigitClass is_digit
    → All (IsNamed is_digit) w.db.bots
    → VersionsDiffer w.db.bots
    → VersionsDiffer (handle_submission is_digit parse w owned new_token bytes).0.db.bots
handle_submission-VersionsDiffer is_digit parse w owned new_token bytes class named h =
    elim (handle_submission-Handled is_digit class w named parse owned new_token bytes) [
      | inl (e, same) ↦ rw same h
      | inr (name, (token, (key, free, known, right, stored))) ↦ rw stored.0 (
          VersionsDiffer-append w.db.bots (added_row w name token key bytes)
            (versions_below w.db name) h)
    ]
