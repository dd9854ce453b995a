-- ===== src/Messaging/Table.antt =====
-- The table `_pending` of messaging/rpc_client.py, from event to event.
use june_2026_tictactoe_bots.Prelude.{
  ℕ, suc, ◌<◌, ◌≡◌, ◌≢◌, refl, sym, ap, ◌∙◌, subst, ◌⊎◌, inl, inr, arith, false, Option, none, some,
  List, [], ◌∷◌, ltb, ◌==◌, ==_iff, ==_refl, Bool-cases, Option-cases,
}
use june_2026_tictactoe_bots.Text.{Text, text_eq}
use june_2026_tictactoe_bots.Text.Laws.{text_eq_refl, eq_of_text_eq}
use june_2026_tictactoe_bots.Messaging.Rpc.{
  Message, Future, waiting, resolved, timed_out, Client, new_client, put, assign, start_call,
  settle, resolve, on_reply, give_up, time_out, RpcEvent, called, reply, expired, step,
}

-- The table holds exactly the calls that wait, each under its own id.
pub record Linked (s : Client) : Type 0 where
  pub held :
      (k : Text) (n : ℕ)
      → s.pending k ≡ some n
      → (n < s.count) × (s.caller n ≡ k) × (s.future n ≡ waiting)
  pub listed : (n : ℕ) → n < s.count → s.future n ≡ waiting → s.pending (s.caller n) ≡ some n

pub Linked-new_client : Linked new_client
Linked-new_client = record { held = λ k n h. cc; listed = λ n h w. absurd (omega arith) }

-- Each new call has an id that is not pending.
abbrev pub AreFresh : Client → List RpcEvent → Type 0
AreFresh s [] = Unit
AreFresh s (called id ∷ es) = (s.pending id ≡ none) × AreFresh (step (called id) s) es
AreFresh s (reply m ∷ es) = AreFresh (step (reply m) s) es
AreFresh s (expired n ∷ es) = AreFresh (step (expired n) s) es

put-cases :
    (key : Text) (v w : Option ℕ) (d : Text → Option ℕ) (k : Text)
    → put key v d k ≡ w
    → ((key ≡ k) × (v ≡ w)) ⊎ ((text_eq key k ≡ false) × (d k ≡ w))
put-cases key v w d k h = elim (Bool-cases (text_eq key k)) [
  | inl e ↦ inl (eq_of_text_eq key k e, rw e at h)
  | inr e ↦ inr (e, rw e at h)
]

pub put_same : (key : Text) (v : Option ℕ) (d : Text → Option ℕ) → put key v d key ≡ v
put_same key v d = rw (text_eq_refl key) refl

put_other : (key k : Text) (v : Option ℕ) (d : Text → Option ℕ) → key ≢ k → put key v d k ≡ d k
put_other key k v d h = elim (Bool-cases (text_eq key k)) [
  | inl e ↦ absurd (h (eq_of_text_eq key k e))
  | inr e ↦ rw e refl
]

module _ {ℓ} {A : Type ℓ} where
  pub assign_same : (n : ℕ) (v : A) (f : ℕ → A) → assign n v f n ≡ v
  assign_same n v f = rw (==_refl n) refl

  pub assign_other : (n m : ℕ) (v : A) (f : ℕ → A) → n ≢ m → assign n v f m ≡ f m
  assign_other n m v f h = elim (Bool-cases (n == m)) [
    | inl e ↦ absurd (h ((==_iff n m).0 e))
    | inr e ↦ rw e refl
  ]

pub same_or_other : (n m : ℕ) → (n ≡ m) ⊎ (n ≢ m)
same_or_other n m = elim (Bool-cases (n == m)) [
  | inl e ↦ inl ((==_iff n m).0 e)
  | inr e ↦ inr (λ h. cc (sym e ∙ (==_iff n m).1 h))
]

start_call-Linked :
    (id : Text) (s : Client) → s.pending id ≡ none → Linked s → Linked (start_call id s)
start_call-Linked id s fresh l = record {
  held = λ k n h. elim (put-cases id (some s.count) (some n) s.pending k h) [
    | inl (e, same) ↦
        let here : s.count ≡ n = cc in
        subst
          (λ m.
            (m < suc s.count)
            × (assign s.count id s.caller m ≡ k)
            × (assign s.count waiting s.future m ≡ waiting))
          here
          (omega arith, assign_same s.count id s.caller ∙ e, assign_same s.count waiting s.future)
    | inr (e, old) ↦
        let (small, mine, w) = l.held k n old in
        let apart : s.count ≢ n = λ q. omega (arith, q) in
        (
          omega arith,
          assign_other s.count n id s.caller apart ∙ mine,
          assign_other s.count n waiting s.future apart ∙ w,
        )
  ];
  listed = λ n small w. elim (same_or_other s.count n) [
    | inl here ↦
        subst (λ m. put id (some s.count) s.pending (assign s.count id s.caller m) ≡ some m) here
          (ap (put id (some s.count) s.pending) (assign_same s.count id s.caller)
            ∙ put_same id (some s.count) s.pending)
    | inr apart ↦
        let old =
          l.listed n (omega arith) (sym (assign_other s.count n waiting s.future apart) ∙ w) in
        ap (put id (some s.count) s.pending) (assign_other s.count n id s.caller apart)
        ∙ put_other id (s.caller n) (some s.count) s.pending
            (λ e. cc (sym fresh ∙ ap s.pending e ∙ old))
        ∙ old
  ];
}

-- An entry is dropped and its future done.
done_with : Text → ℕ → Future → Client → Client
done_with k n v s = record s { pending = put k none s.pending; future = assign n v s.future }

done_with-Linked :
    (k : Text) (n : ℕ) (v : Future) (s : Client)
    → s.pending k ≡ some n
    → v ≢ waiting
    → Linked s
    → Linked (done_with k n v s)
unfolding done_with
done_with-Linked k n v s found done l = record {
  held = λ j m h. elim (put-cases k none (some m) s.pending j h) [
    | inl (e, absurd_eq) ↦ cc
    | inr (e, old) ↦
        let (small, mine, w) = l.held j m old in
        let (small_n, mine_n, w_n) = l.held k n found in
        let apart : n ≢ m =
          λ q. cc (sym (text_eq_refl k) ∙ ap (text_eq k) (sym mine_n ∙ ap s.caller q ∙ mine) ∙ e) in
        (small, mine, assign_other n m v s.future apart ∙ w)
  ];
  listed = λ m small w. elim (same_or_other n m) [
    | inl here ↦ absurd (done (sym (assign_same n v s.future) ∙ ap (assign n v s.future) here ∙ w))
    | inr apart ↦
        let old = l.listed m small (sym (assign_other n m v s.future apart) ∙ w) in
        put_other k (s.caller m) none s.pending
          (λ e. let both : some n ≡ some m = sym found ∙ ap s.pending e ∙ old in apart (cc))
        ∙ old
  ];
}

pub Future-cases : (f : Future) → (f ≡ waiting) ⊎ (f ≢ waiting)
Future-cases waiting = inl refl
Future-cases (resolved b) = inr (λ e. cc)
Future-cases timed_out = inr (λ e. cc)

pub give_up_done : (n : ℕ) (f : Future) (s : Client) → f ≢ waiting → give_up n f s ≡ s
unfolding give_up
give_up_done n waiting s h = absurd (h refl)
give_up_done n (resolved b) s h = refl
give_up_done n timed_out s h = refl

pub settle_done : (v f : Future) → f ≢ waiting → settle v f ≡ f
settle_done v waiting h = absurd (h refl)
settle_done v (resolved b) h = refl
settle_done v timed_out h = refl

on_reply-Linked : (m : Message) (s : Client) → Linked s → Linked (on_reply m s)
unfolding on_reply resolve done_with
on_reply-Linked m s l = elim (Option-cases (s.pending m.correlation_id)) [
  | inl e ↦ rw (e, resolve) l
  | inr (n, e) ↦
      rw (e, resolve)
        (done_with-Linked m.correlation_id n (settle (resolved m.body) (s.future n)) s e
          (λ h. cc (ap (settle (resolved m.body)) (sym (l.held m.correlation_id n e).2) ∙ h)) l)
]

time_out-Linked : (n : ℕ) (s : Client) → Linked s → Linked (time_out n s)
unfolding time_out done_with
time_out-Linked n s l = elim (Bool-cases (ltb n s.count)) [
  | inr e ↦ rw (e, time_out) l
  | inl e ↦ elim (Future-cases (s.future n)) [
    | inr done ↦ rw (e, time_out) (rw (give_up_done n (s.future n) s done) l)
    | inl w ↦
        rw (e, time_out)
          (subst (λ f. Linked (give_up n f s)) (sym w)
            (unfold give_up in
              done_with-Linked (s.caller n) n timed_out s (l.listed n (ground arith) w) (λ h. cc)
                l))
  ]
]

-- Every event keeps the table in step with the calls.
pub step-Linked :
    (e : RpcEvent) (es : List RpcEvent) (s : Client)
    → AreFresh s (e ∷ es)
    → Linked s
    → Linked (step e s) × AreFresh (step e s) es
unfolding step
step-Linked (called id) es s (fresh, rest) l = (start_call-Linked id s fresh l, rest)
step-Linked (reply m) es s rest l = (on_reply-Linked m s l, rest)
step-Linked (expired n) es s rest l = (time_out-Linked n s l, rest)
