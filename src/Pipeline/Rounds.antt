-- ===== src/Pipeline/Rounds.antt =====
-- The system that uploads, the pod builder, the scheduler and the dispatcher make together, and what
-- its runs publish: a complete round robin.
use june_2026_tictactoe_bots.Prelude.{
  Any-append_left, Any-append_right, Any-append, ℕ, ◌≡◌, refl, sym, subst, ◌⊎◌, inl, inr, ◌↔◌,
  Option, some, List, [], ◌∷◌, Any, here, there, keep,
}
use june_2026_tictactoe_bots.Text.{Text}
use june_2026_tictactoe_bots.Pods.{Attempt, ok, PodStatus, pod_name}
use june_2026_tictactoe_bots.Engine.{MatchOutcome}
use june_2026_tictactoe_bots.Match.{Bots}
use june_2026_tictactoe_bots.Store.{Db, Bot, NewBot, create, ready_bots, record_match}
use june_2026_tictactoe_bots.Submit.{BuildPodMessage}
use june_2026_tictactoe_bots.Pipeline.{
  MatchOndeck, handle_pod_ready_message, handle_match_ondeck, Cluster, Built, Played,
  handle_build_pod_message,
}
use june_2026_tictactoe_bots.Pipeline.Steps.{
  Building, Member-HasId, handle_build_pod_message-Building, Recorded, handle_match_ondeck-Recorded,
}
use june_2026_tictactoe_bots.Pipeline.Ready.{IsReady, create-IsReady, set_pod_ready-IsReady}
use june_2026_tictactoe_bots.Pipeline.Scheduling.{
  Published, HasId, IsPairing, handle_pod_ready_message-Published,
}

-- The database, the ids in `matches.schedule`, and all that was ever published to `matches.ondeck`.
pub record System : Type 0 where
  pub db : Db
  pub ready_queue : List ℕ
  pub published : List MatchOndeck

-- One handler's run to its end: a bot is created, a pod is built, the head of `matches.schedule` is
-- handled, or a match is played.
pub data Step : System → System → Type 0 where
  uploads :
      {s : System} {db : Db} (n : NewBot) (b : Bot)
      → create s.db n ≡ ok (db, b)
      → Step s (record s { db = db })
  builds :
      {s : System} (c : Cluster) (m : Option BuildPodMessage)
      → Step s (record s {
        db = (handle_build_pod_message c s.db s.ready_queue m).db;
        ready_queue = (handle_build_pod_message c s.db s.ready_queue m).ready_queue;
      })
  schedules :
      {s : System} {i : ℕ} {rest : List ℕ} (tokens : ℕ → Text)
      → s.ready_queue ≡ i ∷ rest
      → Step s (record s {
        ready_queue = rest;
        published = handle_pod_ready_message tokens s.db s.published (some i);
      })
  plays :
      {s : System} (read : Text → Attempt PodStatus) (bots : Bots) (announced : List MatchOutcome)
      (m : Option MatchOndeck)
      → Step s (record s { db = (handle_match_ondeck read bots s.db announced m).db })

-- The runs from a system with no bot and nothing queued.
pub data Reachable : System → Type 0 where
  starts : {s : System} → s.db.bots ≡ [] → s.ready_queue ≡ [] → s.published ≡ [] → Reachable s
  steps : {s s' : System} → Reachable s → Step s s' → Reachable s'

abbrev pub IsQueued : List ℕ → ℕ → Type 0
IsQueued q i = Any (λ k. k ≡ i) q

-- A bot that plays itself has been scheduled: then it is ready and meets every other such bot; a bot
-- that is ready has been scheduled or is in the queue.
pub record IsScheduled (s : System) : Type 0 where
  pub meets :
      (i j : ℕ) → Published s.published i i → Published s.published j j → Published s.published i j
  pub scheduled_ready : (i : ℕ) → Published s.published i i → IsReady s.db i
  pub queued_ready : (i : ℕ) → IsQueued s.ready_queue i → IsReady s.db i
  pub ready_known : (i : ℕ) → IsReady s.db i → Published s.published i i ⊎ IsQueued s.ready_queue i

-- A write that leaves the ready bots as they are, and the queues.
same_ready :
    (s : System) (db : Db)
    → ((i : ℕ) → IsReady db i ↔ IsReady s.db i)
    → IsScheduled s
    → IsScheduled (record s { db = db })
same_ready s db same v = record {
  meets = v.meets;
  scheduled_ready = λ i h. (same i).1 (v.scheduled_ready i h);
  queued_ready = λ i h. (same i).1 (v.queued_ready i h);
  ready_known = λ i h. v.ready_known i ((same i).0 h);
}

builds-IsScheduled :
    (s : System) (c : Cluster) (r : Built) (m : Option BuildPodMessage)
    → Building c s.db s.ready_queue m r
    → IsScheduled s
    → IsScheduled (record s { db = r.db; ready_queue = r.ready_queue })
builds-IsScheduled s c r m (inl (e, f, failed)) v =
    rw f (same_ready s r.db (λ i. (subst (λ d. IsReady d i) e, subst (λ d. IsReady d i) (sym e))) v)
builds-IsScheduled s c r m (inr (b, (key, known, found, named, built, e, f, done))) v = record {
  meets = v.meets;
  scheduled_ready = λ i h. (now i).1 (inl (v.scheduled_ready i h));
  queued_ready =
      λ i h. (now i).1 (queue i (Any-append s.ready_queue (subst (λ q. IsQueued q i) f h)));
  ready_known = λ i h. elim ((now i).0 h) [
    | inl old ↦ elim (v.ready_known i old) [
      | inl p ↦ inl p
      | inr q ↦ inr (subst (λ q. IsQueued q i) (sym f) (Any-append_left (b.id ∷ []) q))
    ]
    | inr same ↦
        inr (subst (λ q. IsQueued q i) (sym f) (Any-append_right s.ready_queue (here same)))
  ];
}
  where
    now : (i : ℕ) → IsReady r.db i ↔ (IsReady s.db i ⊎ (b.id ≡ i))
    now i =
        subst (λ d. IsReady d i ↔ (IsReady s.db i ⊎ (b.id ≡ i))) (sym e)
          (set_pod_ready-IsReady s.db b.id (pod_name b.id) (Member-HasId s.db.bots b found) i)

    queue :
        (i : ℕ) → IsQueued s.ready_queue i ⊎ IsQueued (b.id ∷ []) i → IsReady s.db i ⊎ (b.id ≡ i)
    queue i (inl q) = inl (v.queued_ready i q)
    queue i (inr (here same)) = inr same
    queue i (inr (there h)) = elim h [ ]

-- The bots that meet themselves after the head of the queue is handled: the head, and those that did.
schedules_self :
    (tokens : ℕ → Text) (s : System) (k i : ℕ)
    → Published (handle_pod_ready_message tokens s.db s.published (some k)) i i
    → Published s.published i i ⊎ (i ≡ k)
schedules_self tokens s k i h =
    elim ((handle_pod_ready_message-Published tokens s.db s.published k i i).0 h) [
      | inl old ↦ inl old
      | inr (inl (e, r)) ↦ inr e
      | inr (inr (e, r)) ↦ inr e
    ]

schedules-IsScheduled :
    (s : System) (k : ℕ) (rest : List ℕ) (tokens : ℕ → Text)
    → s.ready_queue ≡ k ∷ rest
    → IsScheduled s
    → IsScheduled (record s {
      ready_queue = rest;
      published = handle_pod_ready_message tokens s.db s.published (some k);
    })
schedules-IsScheduled s k rest tokens e v = record {
  meets = λ i j hi hj.
      (now i j).1 (pair i j (schedules_self tokens s k i hi) (schedules_self tokens s k j hj));
  scheduled_ready = λ i h. ready i (schedules_self tokens s k i h);
  queued_ready = λ i h. v.queued_ready i (subst (λ q. IsQueued q i) (sym e) (there h));
  ready_known = λ i h. known i (v.ready_known i h);
}
  where
    now :
        (i j : ℕ)
        → Published (handle_pod_ready_message tokens s.db s.published (some k)) i j
          ↔ (Published s.published i j ⊎ IsPairing k (ready_bots s.db) i j)
    now = handle_pod_ready_message-Published tokens s.db s.published k

    head : IsReady s.db k
    head = v.queued_ready k (subst (λ q. IsQueued q k) (sym e) (here refl))

    ready : (i : ℕ) → Published s.published i i ⊎ (i ≡ k) → IsReady s.db i
    ready i (inl old) = v.scheduled_ready i old
    ready i (inr same) = subst (IsReady s.db) (sym same) head

    pair :
        (i j : ℕ)
        → Published s.published i i ⊎ (i ≡ k)
        → Published s.published j j ⊎ (j ≡ k)
        → Published s.published i j ⊎ IsPairing k (ready_bots s.db) i j
    pair i j (inl hi) (inl hj) = inl (v.meets i j hi hj)
    pair i j (inr same) hj = inr (inl (same, ready j hj))
    pair i j (inl hi) (inr same) = inr (inr (same, v.scheduled_ready i hi))

    met :
        (i : ℕ) → i ≡ k → Published (handle_pod_ready_message tokens s.db s.published (some k)) i i
    met i same = (now i i).1 (inr (inl (same, subst (IsReady s.db) (sym same) head)))

    queued : (i : ℕ) → IsQueued (k ∷ rest) i → (i ≡ k) ⊎ IsQueued rest i
    queued i (here same) = inl (sym same)
    queued i (there h) = inr h

    known :
        (i : ℕ)
        → Published s.published i i ⊎ IsQueued s.ready_queue i
        → Published (handle_pod_ready_message tokens s.db s.published (some k)) i i
          ⊎ IsQueued rest i
    known i (inl old) = inl ((now i i).1 (inl old))
    known i (inr q) = elim (queued i (subst (λ q. IsQueued q i) e q)) [
      | inl same ↦ inl (met i same)
      | inr later ↦ inr later
    ]

plays-IsScheduled :
    (s : System) (announced : List MatchOutcome) (message : Option MatchOndeck) (r : Played)
    → Recorded s.db announced message r
    → IsScheduled s
    → IsScheduled (record s { db = r.db })
unfolding record_match ready_bots
plays-IsScheduled s announced message r (inl (e, f)) v = rw e v
plays-IsScheduled s announced message r (inr (m, (game, e, g, stored, f))) v =
    rw stored (same_ready s _ (λ i. ((λ h. h), (λ h. h))) v)

Step-IsScheduled : {s s' : System} → Step s s' → IsScheduled s → IsScheduled s'
Step-IsScheduled {s = s} (uploads {db = db} n b e) v =
    same_ready s db (λ i. create-IsReady s.db db n b i e) v
Step-IsScheduled {s = s} (builds c m) v =
    builds-IsScheduled s c (handle_build_pod_message c s.db s.ready_queue m) m
      (handle_build_pod_message-Building c s.db s.ready_queue m) v
Step-IsScheduled {s = s} (schedules {i = i} {rest = rest} tokens e) v =
    schedules-IsScheduled s i rest tokens e v
Step-IsScheduled {s = s} (plays read bots announced m) v =
    plays-IsScheduled s announced m (handle_match_ondeck read bots s.db announced m)
      (handle_match_ondeck-Recorded read bots s.db announced m) v

none_at_first :
    (s : System) → s.db.bots ≡ [] → s.ready_queue ≡ [] → s.published ≡ [] → IsScheduled s
unfolding ready_bots
none_at_first s e f g = record {
  meets = λ i j h k. elim (subst (λ q. Published q i i) g h) [ ];
  scheduled_ready = λ i h. elim (subst (λ q. Published q i i) g h) [ ];
  queued_ready = λ i h. elim (subst (λ q. IsQueued q i) f h) [ ];
  ready_known = λ i h. elim (subst (λ bs. HasId (keep (λ b. b.pod_ready) bs) i) e h) [ ];
}

pub Reachable-IsScheduled : {s : System} → Reachable s → IsScheduled s
Reachable-IsScheduled {s = s} (starts e f g) = none_at_first s e f g
Reachable-IsScheduled (steps before step) = Step-IsScheduled step (Reachable-IsScheduled before)

-- In every state that uploads, builds, scheduling and matches lead to from an empty system, in any
-- order, with the queue of ready bots handled to its end, the match of any ready bot as X against any ready bot as O has been
-- published, each bot against itself included.
pub round_robin :
    (s : System)
    → Reachable s
    → s.ready_queue ≡ []
    → (i j : ℕ) → IsReady s.db i
    → IsReady s.db j
    → Published s.published i j
round_robin s run drained i j hi hj =
    let v = Reachable-IsScheduled run in v.meets i j (self v i hi) (self v j hj)
  where
    self : IsScheduled s → (k : ℕ) → IsReady s.db k → Published s.published k k
    self v k h = elim (v.ready_known k h) [
      | inl met ↦ met
      | inr queued ↦ elim (subst (λ q. IsQueued q k) drained queued) [ ]
    ]
