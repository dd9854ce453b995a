-- ===== src/Pipeline/Tournament/Resting.antt =====
-- The loops of dispatcher/pod_builder.py, match_scheduler/main.py and dispatcher/ondeck_handler.py
-- between two requests.
use mathlib.Core.WellFounded.{Acc}
use june_2026_tictactoe_bots.Prelude.{ℕ, zero, suc, ◌≡◌, refl, ap, List, length, arith}
use june_2026_tictactoe_bots.Submit.{BuildPodMessage}
use june_2026_tictactoe_bots.Pipeline.{MatchOndeck}
use june_2026_tictactoe_bots.Pipeline.Tournament.{
  Tournament, Work, after_build, after_schedule, after_match,
}

-- The state after a round comes before the state that the round began in.
abbrev pub Precedes : Tournament → Tournament → Type 0
Precedes t s = Work s t

-- By the builds left, then the scheduling left, then the matches left.
rests_after :
    (builds ready matches : ℕ) (s : Tournament)
    → length s.build_queue ≡ builds
    → length s.ready_queue ≡ ready
    → length s.ondeck_queue ≡ matches
    → {t : Tournament} → Work s t
    → Acc Precedes t
rests_after zero r m s eb er em (Work.builds c e) =
    absurd (omega (arith, eb, ap (λ (q : List BuildPodMessage). length q) e))
rests_after (suc b) r m s eb er em (Work.builds {m = job} {rest = rest} c e) =
    let t = after_build s rest c job in
    Acc.intro t (λ u w.
      rests_after b (length t.ready_queue) (length t.ondeck_queue) t
        (omega (arith, eb, ap (λ (q : List BuildPodMessage). length q) e)) refl refl w)
rests_after b zero m s eb er em (Work.schedules tokens e) =
    absurd (omega (arith, er, ap (λ (q : List ℕ). length q) e))
rests_after b (suc r) m s eb er em (Work.schedules {i = i} {rest = rest} tokens e) =
    let t = after_schedule s rest tokens i in
    Acc.intro t (λ u w.
      rests_after b r (length t.ondeck_queue) t eb
        (omega (arith, er, ap (λ (q : List ℕ). length q) e)) refl w)
rests_after b r zero s eb er em (Work.plays read bots announced e) =
    absurd (omega (arith, em, ap (λ (q : List MatchOndeck). length q) e))
rests_after b r (suc n) s eb er em (Work.plays {m = m} {rest = rest} read bots announced e) =
    let t = after_match s rest read bots announced m in
    Acc.intro t (λ u w.
      rests_after b r n t eb er (omega (arith, em, ap (λ (q : List MatchOndeck). length q) e)) w)

-- Between two requests to the site the three workers come to rest: from no state is there an endless run of their
-- rounds, in whatever order, on whatever cluster and with whatever bots.
pub workers_rest : (s : Tournament) → Acc Precedes s
workers_rest s = Acc.intro s (λ t w.
    rests_after (length s.build_queue) (length s.ready_queue) (length s.ondeck_queue) s refl refl
      refl w)
