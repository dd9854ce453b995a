-- ===== src/Store/Lifetime/Balance.antt =====
-- The lifetime counts of a family against the matches that it played.
use june_2026_tictactoe_bots.Prelude.{
  ℕ, ◌+◌, ◌≡◌, refl, ap, ◌∙◌, Bool, true, false, ◌&&◌, ◌||◌, not, arith, Option, none, some, List,
  [], ◌∷◌, length, keep, All, ◌==◌, ==_iff, Bool-cases, ◌⊎◌, inl, inr,
}
use june_2026_tictactoe_bots.Text.{Text}
use june_2026_tictactoe_bots.Engine.{MatchOutcome, x_wins, o_wins, x_forfeit, o_forfeit, cat}
use june_2026_tictactoe_bots.Match.Rules.{one_if}
use june_2026_tictactoe_bots.Store.{Bot, MatchRow, winner_id, is_cat}
use june_2026_tictactoe_bots.Store.Stats.{IsScored, length-keep-cons}
use june_2026_tictactoe_bots.Store.Lifetime.{
  base_of, is_base, is_other_base, is_joined, winner_base, is_lifetime_win, is_lifetime_loss,
  lifetime_wins, lifetime_losses,
}

-- One side alone is of the family.
abbrev pub is_across : List Bot → Text → MatchRow → Bool
is_across bots name m =
    let x = is_base (base_of bots m.bot_x_id) name in
    let o = is_base (base_of bots m.bot_o_id) name in (x || o) && (not x || not o)

-- A draw against another family.
abbrev pub is_across_draw : List Bot → Text → MatchRow → Bool
is_across_draw bots name m = is_across bots name m && is_cat m.result

-- A bot of the family played against itself, and the match was not a draw.
abbrev pub is_self_win : List Bot → Text → MatchRow → Bool
is_self_win bots name m =
    (m.bot_x_id == m.bot_o_id) && is_base (base_of bots m.bot_x_id) name && not (is_cat m.result)

-- The stored winner is the one of the result, and both bots have a row.
abbrev pub IsPlayed : List Bot → MatchRow → Type 0
IsPlayed bots m =
    IsScored m
    × (is_joined (base_of bots m.bot_x_id) ≡ true)
    × (is_joined (base_of bots m.bot_o_id) ≡ true)

other_base-not :
    (t : Option Text) (name : Text)
    → is_joined t ≡ true
    → is_other_base t name ≡ not (is_base t name)
other_base-not none name h = cc
other_base-not (some t) name h = refl

-- The tests on one match as Boolean formulas: `e` that the bots are one, `a` and `b` that X and O are of
-- the family, `w` that the winner is, and `c` that the match is a draw.
abbrev tally : Bool → Bool → Bool → Bool → Bool → ℕ
tally e a b w c =
    one_if (w && (e || not a || not b))
    + one_if (not c && (a || b) && (not a || not b) && not w)
    + one_if ((a || b) && (not a || not b) && c)

tally-won :
    (e a b w : Bool)
    → (e ≡ true → a ≡ b)
    → (w ≡ a) ⊎ (w ≡ b)
    → tally e a b w false ≡ one_if ((a || b) && (not a || not b)) + one_if (e && a && true)
tally-won true true false w h s = cc (h refl)
tally-won true false true w h s = cc (h refl)
tally-won e a b w h (inl q) = ground (arith, q, h)
tally-won e a b w h (inr q) = ground (arith, q, h)

tally-drawn :
    (e a b w : Bool)
    → w ≡ false
    → tally e a b w true ≡ one_if ((a || b) && (not a || not b)) + one_if (e && a && false)
tally-drawn e a b w h = ground (arith, h)

winner_id-drawn : (x o : ℕ) (r : MatchOutcome) → is_cat r ≡ true → winner_id x o r ≡ none
unfolding winner_id
winner_id-drawn x o cat h = refl
winner_id-drawn x o x_wins h = cc
winner_id-drawn x o o_wins h = cc
winner_id-drawn x o x_forfeit h = cc
winner_id-drawn x o o_forfeit h = cc

winner_id-won :
    (x o : ℕ) (r : MatchOutcome)
    → is_cat r ≡ false
    → (winner_id x o r ≡ some x) ⊎ (winner_id x o r ≡ some o)
unfolding winner_id
winner_id-won x o cat h = cc
winner_id-won x o x_wins h = inl refl
winner_id-won x o o_wins h = inr refl
winner_id-won x o x_forfeit h = inr refl
winner_id-won x o o_forfeit h = inl refl

one_match :
    (bots : List Bot) (name : Text) (m : MatchRow)
    → IsPlayed bots m
    → one_if (is_lifetime_win bots name m)
        + one_if (is_lifetime_loss bots name m)
        + one_if (is_across_draw bots name m)
      ≡ one_if (is_across bots name m) + one_if (is_self_win bots name m)
one_match bots name m (s, jx, jo) =
    rw
      (
        other_base-not (base_of bots m.bot_x_id) name jx,
        other_base-not (base_of bots m.bot_o_id) name jo,
        jx,
        jo,
      )
      (elim (Bool-cases (is_cat m.result)) [
        | inl drawn ↦ rw drawn (
            tally-drawn e a b w (
              ap (λ v. is_base (winner_base bots v) name)
                (s ∙ winner_id-drawn m.bot_x_id m.bot_o_id m.result drawn)))
        | inr won ↦ rw won (
            tally-won e a b w same_base (elim (winner_id-won m.bot_x_id m.bot_o_id m.result won) [
              | inl x ↦ inl (ap (λ v. is_base (winner_base bots v) name) (s ∙ x))
              | inr o ↦ inr (ap (λ v. is_base (winner_base bots v) name) (s ∙ o))
            ]))
      ])
  where
    e : Bool
    e = m.bot_x_id == m.bot_o_id

    a : Bool
    a = is_base (base_of bots m.bot_x_id) name

    b : Bool
    b = is_base (base_of bots m.bot_o_id) name

    w : Bool
    w = is_base (winner_base bots m.winner_id) name

    same_base : e ≡ true → a ≡ b
    same_base h = ap (λ i. is_base (base_of bots i) name) ((==_iff m.bot_x_id m.bot_o_id).0 h)

-- Over played matches, the lifetime wins, the lifetime losses and the draws against other families add
-- up to the matches against other families and those that a bot of the family won against itself.
pub lifetime_balance :
    (bots : List Bot) (ms : List MatchRow) (name : Text)
    → All (IsPlayed bots) ms
    → lifetime_wins bots ms name
        + lifetime_losses bots ms name
        + length (keep (is_across_draw bots name) ms)
      ≡ length (keep (is_across bots name) ms) + length (keep (is_self_win bots name) ms)
unfolding lifetime_wins lifetime_losses
lifetime_balance bots [] name h = refl
lifetime_balance bots (m ∷ ms) name (played, h) = omega (
  arith,
  one_match bots name m played,
  lifetime_balance bots ms name h,
  length-keep-cons (is_lifetime_win bots name) m ms,
  length-keep-cons (is_lifetime_loss bots name) m ms,
  length-keep-cons (is_across_draw bots name) m ms,
  length-keep-cons (is_across bots name) m ms,
  length-keep-cons (is_self_win bots name) m ms,
)
