-- ===== src/Pipeline/Tournament/Finished.antt =====
-- Runs of requests and of the three workers' loops, to the end of the queues: dispatcher/pod_builder.py,
-- match_scheduler/main.py, dispatcher/ondeck_handler.py and web/submit.py.
use june_2026_tictactoe_bots.Prelude.{
  ℕ, ◌+◌, ◌≡◌, refl, sym, subst, inl, inr, ◌↔◌, List, [], length, ◌<◌, All, Any,
}
use june_2026_tictactoe_bots.Pipeline.Fetching.{Distinct, IsPodded}
use june_2026_tictactoe_bots.Pipeline.Ready.{IsReady}
use june_2026_tictactoe_bots.Pipeline.Rounds.{starts, round_robin}
use june_2026_tictactoe_bots.Pipeline.Tournament.{Tournament, IsEmpty, IsReached, empty, after}
use june_2026_tictactoe_bots.Pipeline.Tournament.Fair.{HasMatch, robin_view, IsFair}
use june_2026_tictactoe_bots.Pipeline.Tournament.Delivered.{Delivery-IsFair}

none_in {ℓ κ} : {A : Type ℓ} {P : A → Type κ} {xs : List A} → xs ≡ [] → ¬ Any P xs
none_in {P = P} e h = elim (subst (Any P) e h) [ ]

empty-IsFair : {s : Tournament} → IsEmpty s → IsFair s
empty-IsFair {s = s} z = record {
  sane = record {
    below = subst (All (λ b. b.id < s.db.next_bot_id)) (sym z.no_bots) tt;
    distinct = subst Distinct (sym z.no_bots) tt;
    podded = subst (All IsPodded) (sym z.no_bots) tt;
  };
  rounds = starts z.no_bots z.no_ready z.no_published;
  queued = λ i j h. elim (none_in z.no_ondeck h) [ ];
  paired = λ i j h. elim (none_in z.no_published h) [ ];
  settled = λ i j h. elim (none_in z.no_published h) [ ];
  stored = λ i j h. elim (none_in z.no_matches h) [ ];
  counted = rw (z.no_published, z.no_ondeck, z.no_matches, z.no_rejected) refl;
}

pub IsReached-IsFair : {s : Tournament} → IsReached s → IsFair s
IsReached-IsFair (empty z) = empty-IsFair z
IsReached-IsFair (after before d) = Delivery-IsFair d (IsReached-IsFair before)

-- In every state that requests to the site and the three workers reach from an empty system, in any order: once the
-- queues of ready bots and of matches are empty, and if no match message was rejected by an exception,
-- a match of one bot as X against another as O is stored exactly when both are ready.
pub finished_tournament :
    (s : Tournament)
    → IsReached s
    → s.ready_queue ≡ []
    → s.ondeck_queue ≡ []
    → s.rejected ≡ []
    → (i j : ℕ) → HasMatch s.db.matches i j ↔ (IsReady s.db i × IsReady s.db j)
finished_tournament s run scheduled played fine i j =
    let v = IsReached-IsFair run in
    (
      λ h. v.paired i j (v.stored i j h),
      λ (x, o). elim (v.settled i j (round_robin (robin_view s) v.rounds scheduled i j x o)) [
        | inl waits ↦ elim (none_in played waits) [ ]
        | inr (inl stored) ↦ stored
        | inr (inr lost) ↦ elim (none_in fine lost) [ ]
      ],
    )

-- In every state that requests to the site and the three workers reach from an empty system, as many match
-- messages were published as the messages in the queue, those that an exception rejected and the matches
-- that are stored make together.
pub messages_counted :
    (s : Tournament)
    → IsReached s
    → length s.published ≡ length s.ondeck_queue + (length s.db.matches + length s.rejected)
messages_counted s run = (IsReached-IsFair run).counted
