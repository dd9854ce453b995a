-- ===== src/Pipeline/Tournament/Fair.antt =====
-- The state that requests and the loops of the three workers keep: dispatcher/pod_builder.py,
-- match_scheduler/main.py, dispatcher/ondeck_handler.py and web/submit.py.
use june_2026_tictactoe_bots.Prelude.{
  ℕ, ◌+◌, ◌≡◌, refl, sym, ap, ◌∙◌, subst, ◌⊎◌, inl, inr, any, some, List, [], ◌∷◌, ◌++◌, append-nil,
  append_assoc, length, length-append, ◌==◌, arith, Bool-cases, Any, if◌then◌else◌,
}
use june_2026_tictactoe_bots.Text.{Text, text_eq}
use june_2026_tictactoe_bots.Pods.{Attempt, ok, pod_name}
use june_2026_tictactoe_bots.Store.{Db, Bot, NewBot, MatchRow, create, ready_bots, set_pod_ready}
use june_2026_tictactoe_bots.Submit.{BuildPodMessage, World}
use june_2026_tictactoe_bots.Submit.Inserts.{InsertsTo}
use june_2026_tictactoe_bots.Pipeline.{
  MatchOndeck, pairings, enqueue_from, enqueue_matches, handle_pod_ready_message, Cluster, Built,
  handle_build_pod_message,
}
use june_2026_tictactoe_bots.Pipeline.Fetching.{IsSane, create-IsSane, set_pod_ready-IsSane}
use june_2026_tictactoe_bots.Pipeline.Ready.{IsReady, create-IsReady, set_pod_ready-IsReady}
use june_2026_tictactoe_bots.Pipeline.Rounds.{System, Step, Reachable, steps}
use june_2026_tictactoe_bots.Pipeline.Scheduling.{Published}
use june_2026_tictactoe_bots.Pipeline.Steps.{Member-HasId, handle_build_pod_message-Building}
use june_2026_tictactoe_bots.Web.Routes.{Answer}
use june_2026_tictactoe_bots.Pipeline.Tournament.{Tournament, after_request, after_build}

-- A match of bot `i` as X against bot `j` as O is stored.
abbrev pub HasMatch : List MatchRow → ℕ → ℕ → Type 0
HasMatch rows i j = Any (λ m. (m.bot_x_id ≡ i) × (m.bot_o_id ≡ j)) rows

-- What the workers together see as one round robin.
abbrev pub robin_view : Tournament → System
robin_view s = record { db = s.db; ready_queue = s.ready_queue; published = s.published }

-- Each pair that was published is of ready bots, and it waits, is stored or was rejected; only such
-- pairs are stored; and no message is lost or handled twice.
pub record IsFair (s : Tournament) : Type 0 where
  pub sane : IsSane s.db
  pub rounds : Reachable (robin_view s)
  pub queued : (i j : ℕ) → Published s.ondeck_queue i j → Published s.published i j
  pub paired : (i j : ℕ) → Published s.published i j → IsReady s.db i × IsReady s.db j
  pub settled :
      (i j : ℕ)
      → Published s.published i j
      → Published s.ondeck_queue i j ⊎ HasMatch s.db.matches i j ⊎ Published s.rejected i j
  pub stored : (i j : ℕ) → HasMatch s.db.matches i j → Published s.published i j
  pub counted :
      length s.published ≡ length s.ondeck_queue + (length s.db.matches + length s.rejected)

-- A write of the table of bots that only adds to the ready ones.
writes_bots :
    (s : Tournament) (db : Db) (jobs : List BuildPodMessage) (ids : List ℕ)
    → IsSane db
    → Reachable (record { db = db; ready_queue = ids; published = s.published })
    → ((i : ℕ) → IsReady s.db i → IsReady db i)
    → s.db.matches ≡ db.matches
    → IsFair s
    → IsFair (record s { db = db; build_queue = jobs; ready_queue = ids })
writes_bots s db jobs ids sane run more same v = record {
  sane = sane;
  rounds = run;
  queued = v.queued;
  paired = λ i j h. let (x, o) = v.paired i j h in (more i x, more j o);
  settled = λ i j h.
      subst (λ rows. Published s.ondeck_queue i j ⊎ HasMatch rows i j ⊎ Published s.rejected i j)
        same (v.settled i j h);
  stored = λ i j h. v.stored i j (subst (λ rows. HasMatch rows i j) (sym same) h);
  counted =
      v.counted
      ∙ ap (λ (rows : List MatchRow). length s.ondeck_queue + (length rows + length s.rejected))
          same;
}

create-matches :
    (db db' : Db) (n : NewBot) (b : Bot) → create db n ≡ ok (db', b) → db.matches ≡ db'.matches
unfolding create
create-matches db db' n b e =
    elim (Bool-cases (any (λ b. text_eq b.versioned_name n.versioned_name) db.bots)) [
      | inl taken ↦ cc (rw taken at e)
      | inr free ↦ kept (rw free at e)
    ]
  where
    kept : {x y : Db × Bot} → ◌≡◌ {A = Attempt (Db × Bot)} (ok x) (ok y) → x.0.matches ≡ y.0.matches
    kept h = cc

pub serves-IsFair :
    (s : Tournament) (w : World) (r : World × Answer)
    → w.db ≡ s.db
    → InsertsTo w r.0
    → IsFair s
    → IsFair (after_request s r)
serves-IsFair s w (w', answer) same (inl e) v =
    rw (e ∙ same)
      (writes_bots s s.db w'.build_queue s.ready_queue v.sane v.rounds (λ i h. h) refl v)
serves-IsFair s w (w', answer) same (inr (n, (b, e))) v =
    let created : create s.db n ≡ ok (w'.db, b) = subst (λ d. create d n ≡ ok (w'.db, b)) same e in
    writes_bots s w'.db w'.build_queue s.ready_queue (create-IsSane s.db w'.db n b created v.sane)
      (steps v.rounds (Step.uploads n b created))
      (λ i h. (create-IsReady s.db w'.db n b i created).1 h) (create-matches s.db w'.db n b created)
      v

pub builds-IsFair :
    (s : Tournament) (rest : List BuildPodMessage) (c : Cluster) (m : BuildPodMessage)
    → IsFair s
    → IsFair (after_build s rest c m)
unfolding set_pod_ready
builds-IsFair s rest c m v =
    let built : Built = handle_build_pod_message c s.db s.ready_queue (some m) in
    let run = steps v.rounds (Step.builds c (some m)) in
    elim (handle_build_pod_message-Building c s.db s.ready_queue (some m)) [
      | inl (e, f, failed) ↦
          writes_bots s built.db rest built.ready_queue (subst IsSane (sym e) v.sane) run
            (λ i h. subst (λ d. IsReady d i) (sym e) h) (ap (λ (d : Db). d.matches) (sym e)) v
      | inr (b, (key, known, found, named, made, e, f, done)) ↦
          writes_bots s built.db rest built.ready_queue
            (subst IsSane (sym e) (set_pod_ready-IsSane s.db b.id (pod_name b.id) v.sane)) run
            (λ i h.
              subst (λ d. IsReady d i) (sym e)
                ((set_pod_ready-IsReady s.db b.id (pod_name b.id) (Member-HasId s.db.bots b found)
                    i).1
                  (inl h)))
            (ap (λ (d : Db). d.matches) (sym e)) v
    ]

-- A queue that is appended to first.
enqueue_from-append :
    (tokens : ℕ → Text) (bot_id : ℕ) (bots : List Bot) (n : ℕ) (q r : List MatchOndeck)
    → (enqueue_from tokens bot_id (q ++ r) n bots).0 ≡ q ++ (enqueue_from tokens bot_id r n bots).0
unfolding enqueue_from
enqueue_from-append tokens bot_id [] n q r = refl
enqueue_from-append tokens bot_id (b ∷ bs) n q r =
    let next = if b.id == bot_id then n + 1 else n + 2 in
    ap (λ t. (enqueue_from tokens bot_id t next bs).0)
      (append_assoc q r (pairings tokens bot_id n b.id))
    ∙ enqueue_from-append tokens bot_id bs next q (r ++ pairings tokens bot_id n b.id)

-- The messages that the scheduler adds do not depend on the queue.
handle_pod_ready_message-append :
    (tokens : ℕ → Text) (db : Db) (q : List MatchOndeck) (i : ℕ)
    → handle_pod_ready_message tokens db q (some i)
      ≡ q ++ handle_pod_ready_message tokens db [] (some i)
unfolding handle_pod_ready_message enqueue_matches
handle_pod_ready_message-append tokens db q i =
    ap (λ r. (enqueue_from tokens i r 0 (ready_bots db)).0) (sym (append-nil q))
    ∙ enqueue_from-append tokens i (ready_bots db) 0 q []

pub schedules-counted :
    (tokens : ℕ → Text) (db : Db) (p q : List MatchOndeck) (i n : ℕ)
    → length p ≡ length q + n
    → length (handle_pod_ready_message tokens db p (some i))
      ≡ length (handle_pod_ready_message tokens db q (some i)) + n
schedules-counted tokens db p q i n h =
    let new = handle_pod_ready_message tokens db [] (some i) in
    let before =
      ap (λ (l : List MatchOndeck). length l) (handle_pod_ready_message-append tokens db p i) in
    let behind =
      ap (λ (l : List MatchOndeck). length l) (handle_pod_ready_message-append tokens db q i) in
    omega (arith, before, behind, h, length-append p new, length-append q new)
