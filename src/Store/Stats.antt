-- ===== src/Store/Stats.antt =====
-- The four counts of the leaderboard partition a bot's matches.
use june_2026_tictactoe_bots.Prelude.{
  ℕ, ◌+◌, ◌≡◌, Bool, ◌&&◌, ◌||◌, not, Option, List, [], ◌∷◌, arith, length, keep, All, ◌==◌,
  Bool-cases, inl, inr,
}
use june_2026_tictactoe_bots.Engine.{MatchOutcome, x_wins, o_wins, x_forfeit, o_forfeit, cat}
use june_2026_tictactoe_bots.Match.Rules.{one_if}
use june_2026_tictactoe_bots.Store.{
  MatchRow, winner_id, id_is, is_win, is_forfeit, is_cat, takes_part, clean_wins, forfeit_wins,
  draws, losses,
}

-- The stored winner is the one that the result gives.
abbrev pub IsScored : MatchRow → Type 0
IsScored m = m.winner_id ≡ winner_id m.bot_x_id m.bot_o_id m.result

-- How many matches the bot took part in; a match against itself counts once.
abbrev pub played_by : List MatchRow → ℕ → ℕ
played_by ms bot_id = length (keep (takes_part bot_id) ms)

pub length-keep-cons {ℓ} :
    {A : Type ℓ} (p : A → Bool) (x : A) (xs : List A)
    → length (keep p (x ∷ xs)) ≡ one_if (p x) + length (keep p xs)
length-keep-cons p x xs = elim (Bool-cases (p x)) [
  | inl hit ↦ rw hit (omega arith)
  | inr miss ↦ rw miss (omega arith)
]

-- The tests of the four counts on one match.
abbrev tally : Option ℕ → ℕ → ℕ → MatchOutcome → ℕ → ℕ
tally w x o r i =
    one_if (id_is w i && is_win r)
    + one_if (id_is w i && is_forfeit r)
    + one_if (((x == i) || (o == i)) && is_cat r)
    + one_if (((x == i) || (o == i)) && not (is_cat r) && not (id_is w i))

-- Just one of the tests passes on a match of the bot, and none on another's.
tally_one :
    (x o i : ℕ) (r : MatchOutcome) → tally (winner_id x o r) x o r i ≡ one_if ((x == i) || (o == i))
unfolding winner_id
tally_one x o i x_wins = ground arith
tally_one x o i o_wins = ground arith
tally_one x o i x_forfeit = ground arith
tally_one x o i o_forfeit = ground arith
tally_one x o i cat = ground arith

tally_row :
    (m : MatchRow) (i : ℕ)
    → IsScored m
    → tally m.winner_id m.bot_x_id m.bot_o_id m.result i ≡ one_if (takes_part i m)
tally_row m i s = rw s (tally_one m.bot_x_id m.bot_o_id i m.result)

-- Over matches whose stored winner fits the result, the clean wins, the forfeit wins, the draws and
-- the losses of a bot add up to the matches that it took part in.
pub stats_partition :
    (ms : List MatchRow) (i : ℕ)
    → All IsScored ms
    → clean_wins ms i + forfeit_wins ms i + draws ms i + losses ms i ≡ played_by ms i
unfolding clean_wins forfeit_wins draws losses
stats_partition [] i h = omega arith
stats_partition (m ∷ ms) i (s, h) = omega (
  arith,
  tally_row m i s,
  stats_partition ms i h,
  length-keep-cons (λ (n : MatchRow). id_is n.winner_id i && is_win n.result) m ms,
  length-keep-cons (λ (n : MatchRow). id_is n.winner_id i && is_forfeit n.result) m ms,
  length-keep-cons (λ (n : MatchRow). takes_part i n && is_cat n.result) m ms,
  length-keep-cons
      (λ (n : MatchRow). takes_part i n && not (is_cat n.result) && not (id_is n.winner_id i)) m ms,
  length-keep-cons (takes_part i) m ms,
)
