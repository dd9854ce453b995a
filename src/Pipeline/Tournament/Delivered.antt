-- ===== src/Pipeline/Tournament/Delivered.antt =====
-- One request, or one round of a worker's loop: dispatcher/pod_builder.py,
-- match_scheduler/main.py, dispatcher/ondeck_handler.py and web/submit.py.
use june_2026_tictactoe_bots.Prelude.{
  Any-append_left, Any-append_right, Any-append, ℕ, ◌+◌, ◌≡◌, refl, sym, ap, subst, ◌⊎◌, inl, inr,
  ◌↔◌, some, List, [], ◌∷◌, ◌++◌, length, length-append, arith, Any, here, there,
}
use june_2026_tictactoe_bots.Text.{Text}
use june_2026_tictactoe_bots.Engine.{MatchResult}
use june_2026_tictactoe_bots.Match.{Reason}
use june_2026_tictactoe_bots.Store.{Db, ready_bots, record_match, match_row}
use june_2026_tictactoe_bots.Pipeline.{
  MatchOndeck, handle_pod_ready_message, handle_match_ondeck, Played,
}
use june_2026_tictactoe_bots.Pipeline.Fetching.{record_match-IsSane}
use june_2026_tictactoe_bots.Pipeline.Ready.{IsReady}
use june_2026_tictactoe_bots.Pipeline.Rounds.{Step, Reachable, steps, Reachable-IsScheduled}
use june_2026_tictactoe_bots.Pipeline.Scheduling.{
  Published, IsPairing, handle_pod_ready_message-Published,
}
use june_2026_tictactoe_bots.Pipeline.Tournament.{
  Tournament, Work, Delivery, site_world, keep_rejected, after_schedule,
}
use june_2026_tictactoe_bots.Pipeline.Tournament.Fair.{
  HasMatch, IsFair, serves-IsFair, builds-IsFair, schedules-counted,
}
use june_2026_tictactoe_bots.Pipeline.Tournament.Matches.{Plays, handle_match_ondeck-Plays}
use june_2026_tictactoe_bots.Web.Routes.{serve}
use june_2026_tictactoe_bots.Web.Serving.{serve-InsertsTo}

-- A pairing of a ready bot is of two ready bots.
IsPairing-IsReady :
    (db : Db) (k i j : ℕ)
    → IsReady db k
    → IsPairing k (ready_bots db) i j
    → IsReady db i × IsReady db j
IsPairing-IsReady db k i j h (inl (e, r)) = (subst (IsReady db) (sym e) h, r)
IsPairing-IsReady db k i j h (inr (e, r)) = (r, subst (IsReady db) (sym e) h)

schedules-IsFair :
    (s : Tournament) (rest : List ℕ) (tokens : ℕ → Text) (k : ℕ)
    → s.ready_queue ≡ k ∷ rest
    → IsFair s
    → IsFair (after_schedule s rest tokens k)
schedules-IsFair s rest tokens k e v = record {
  sane = v.sane;
  rounds = steps v.rounds (Step.schedules tokens e);
  queued = λ i j h. elim ((now s.ondeck_queue i j).0 h) [
    | inl old ↦ (now s.published i j).1 (inl (v.queued i j old))
    | inr new ↦ (now s.published i j).1 (inr new)
  ];
  paired = λ i j h. elim ((now s.published i j).0 h) [
    | inl old ↦ v.paired i j old
    | inr new ↦ IsPairing-IsReady s.db k i j head new
  ];
  settled = λ i j h. elim ((now s.published i j).0 h) [
    | inl old ↦ elim (v.settled i j old) [
      | inl waits ↦ inl ((now s.ondeck_queue i j).1 (inl waits))
      | inr done ↦ inr done
    ]
    | inr new ↦ inl ((now s.ondeck_queue i j).1 (inr new))
  ];
  stored = λ i j h. (now s.published i j).1 (inl (v.stored i j h));
  counted =
      schedules-counted tokens s.db s.published s.ondeck_queue k
        (length s.db.matches + length s.rejected) v.counted;
}
  where
    now :
        (q : List MatchOndeck) (i j : ℕ)
        → Published (handle_pod_ready_message tokens s.db q (some k)) i j
          ↔ (Published q i j ⊎ IsPairing k (ready_bots s.db) i j)
    now q i j = handle_pod_ready_message-Published tokens s.db q k i j

    head : IsReady s.db k
    head =
        (Reachable-IsScheduled v.rounds).queued_ready k
          (subst (λ q. Any (λ i. i ≡ k) q) (sym e) (here refl))

-- The queue's head is of ready bots.
pub head-IsReady :
    (s : Tournament) (m : MatchOndeck) (rest : List MatchOndeck)
    → s.ondeck_queue ≡ m ∷ rest
    → IsFair s
    → IsReady s.db m.bot_x_id × IsReady s.db m.bot_o_id
head-IsReady s m rest e v = v.paired m.bot_x_id m.bot_o_id (
    v.queued m.bot_x_id m.bot_o_id
      (subst (λ q. Published q m.bot_x_id m.bot_o_id) (sym e) (here (refl, refl))))

-- The head of a queue leaves it for a list that it is appended to.
module _ (s : Tournament) (m : MatchOndeck) (rest : List MatchOndeck)
    (e : s.ondeck_queue ≡ m ∷ rest) (v : IsFair s) where
  still_queued : (i j : ℕ) → Published rest i j → Published s.published i j
  still_queued i j h = v.queued i j (subst (λ q. Published q i j) (sym e) (there h))

  leaves :
      (i j : ℕ)
      → Published s.published i j
      → Published rest i j
        ⊎ (((m.bot_x_id ≡ i) × (m.bot_o_id ≡ j))
            ⊎ HasMatch s.db.matches i j
            ⊎ Published s.rejected i j)
  leaves i j h = elim (v.settled i j h) [
    | inr done ↦ inr (inr done)
    | inl waits ↦ first_or_later (subst (λ q. Published q i j) e waits)
  ]
    where
      first_or_later :
          Published (m ∷ rest) i j
          → Published rest i j
            ⊎ (((m.bot_x_id ≡ i) × (m.bot_o_id ≡ j))
                ⊎ HasMatch s.db.matches i j
                ⊎ Published s.rejected i j)
      first_or_later (here same) = inr (inl same)
      first_or_later (there g) = inl g

  taken : length s.published ≡ length rest + (length s.db.matches + length s.rejected) + 1
  taken = omega (arith, v.counted, ap (λ (q : List MatchOndeck). length q) e)

  -- The message was rejected.
  raises-IsFair : IsFair (record s { ondeck_queue = rest; rejected = s.rejected ++ m ∷ [] })
  raises-IsFair = record {
    sane = v.sane;
    rounds = v.rounds;
    queued = still_queued;
    paired = v.paired;
    settled = λ i j h. elim (leaves i j h) [
      | inl waits ↦ inl waits
      | inr (inl same) ↦ inr (inr (Any-append_right s.rejected (here same)))
      | inr (inr (inl stored)) ↦ inr (inl stored)
      | inr (inr (inr old)) ↦ inr (inr (Any-append_left (m ∷ []) old))
    ];
    stored = v.stored;
    counted = omega (arith, taken, length-append s.rejected (m ∷ []));
  }

  -- The message was handled and its match stored.
  records-IsFair :
      (game : MatchResult Reason)
      → Reachable (record {
        db = record_match s.db m.bot_x_id m.bot_o_id game m.correlation_id;
        ready_queue = s.ready_queue;
        published = s.published;
      })
      → IsFair (record s {
        db = record_match s.db m.bot_x_id m.bot_o_id game m.correlation_id;
        ondeck_queue = rest;
      })
  unfolding record_match ready_bots
  records-IsFair game run = record {
    sane = record_match-IsSane s.db m.bot_x_id m.bot_o_id game m.correlation_id v.sane;
    rounds = run;
    queued = still_queued;
    paired = v.paired;
    settled = λ i j h. elim (leaves i j h) [
      | inl waits ↦ inl waits
      | inr (inl same) ↦ inr (inl (Any-append_right s.db.matches (here same)))
      | inr (inr (inl stored)) ↦ inr (inl (Any-append_left _ stored))
      | inr (inr (inr old)) ↦ inr (inr old)
    ];
    stored = λ i j h. elim (Any-append s.db.matches h) [
      | inl old ↦ v.stored i j old
      | inr (here (ex, eo)) ↦ v.queued i j (subst (λ q. Published q i j) (sym e) (here (ex, eo)))
      | inr (there g) ↦ elim g [ ]
    ];
    counted = omega (
      arith,
      taken,
      length-append s.db.matches
          (match_row s.db m.bot_x_id m.bot_o_id game.result m.correlation_id ∷ []),
    );
  }

  Plays-IsFair :
      (r : Played)
      → Plays s.db m r
      → Reachable (record { db = r.db; ready_queue = s.ready_queue; published = s.published })
      → IsFair (record s {
        db = r.db;
        ondeck_queue = rest;
        rejected = keep_rejected r.outcome m s.rejected;
      })
  Plays-IsFair r (inl (f, g)) run = rw (f, g) raises-IsFair
  Plays-IsFair r (inr (game, f, rules, g)) run =
      rw (f, g)
        (records-IsFair game (
          subst
            (λ d.
              Reachable (record { db = d; ready_queue = s.ready_queue; published = s.published }))
            g run))

Work-IsFair : {s s' : Tournament} → Work s s' → IsFair s → IsFair s'
Work-IsFair {s = s} (Work.builds {m = m} {rest = rest} c e) v = builds-IsFair s rest c m v
Work-IsFair {s = s} (Work.schedules {i = i} {rest = rest} tokens e) v =
    schedules-IsFair s rest tokens i e v
Work-IsFair {s = s} (Work.plays {m = m} {rest = rest} read bots announced e) v =
    let (x, o) = head-IsReady s m rest e v in
    Plays-IsFair s m rest e v (handle_match_ondeck read bots s.db announced (some m))
      (handle_match_ondeck-Plays read bots s.db announced m v.sane x o)
      (steps v.rounds (Step.plays read bots announced (some m)))

pub Delivery-IsFair : {s s' : Tournament} → Delivery s s' → IsFair s → IsFair s'
Delivery-IsFair {s = s} (Delivery.serves site r events job event) v =
    let w = site_world s events job event in
    serves-IsFair s w (serve site w r) refl (serve-InsertsTo site w r) v
Delivery-IsFair (Delivery.works w) v = Work-IsFair w v
