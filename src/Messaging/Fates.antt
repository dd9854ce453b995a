-- ===== src/Messaging/Fates.antt =====
-- The fate of a call: what its own replies and its own timeout make of it, whatever else happens.
use june_2026_tictactoe_bots.Prelude.{
  ℕ, ◌<◌, ◌≡◌, ◌≢◌, refl, sym, ap, ◌∙◌, subst, inl, inr, arith, false, some, List, [], ◌∷◌, ltb,
  ◌==◌, ==_iff, if◌then◌else◌, Bool-cases, Option-cases,
}
use june_2026_tictactoe_bots.Text.{Text, text_eq}
use june_2026_tictactoe_bots.Text.Laws.{text_eq_refl, eq_of_text_eq}
use june_2026_tictactoe_bots.Messaging.Rpc.{
  Message, Future, waiting, resolved, timed_out, Client, assign, start_call, settle, resolve,
  on_reply, give_up, time_out, RpcEvent, called, reply, expired, step, run,
}
use june_2026_tictactoe_bots.Messaging.Table.{
  Linked, AreFresh, step-Linked, assign_same, assign_other, same_or_other, Future-cases,
  settle_done, give_up_done,
}

-- What one event does to call `n`, whose id is `id`, with no table of pending calls.
abbrev pub after_event : Text → ℕ → Future → RpcEvent → Future
after_event id n f (called k) = f
after_event id n f (reply m) = if text_eq m.correlation_id id then settle (resolved m.body) f else f
after_event id n f (expired k) = if k == n then settle timed_out f else f

-- The first of the replies with its id and of its timeout decides.
unfoldable pub fate : Text → ℕ → Future → List RpcEvent → Future
fate id n f [] = f
fate id n f (e ∷ es) = fate id n (after_event id n f e) es

-- What an event leaves of call `n`.
abbrev Keeps : Client → ℕ → RpcEvent → Client → Type 0
Keeps s n e t =
    (t.future n ≡ after_event (s.caller n) n (s.future n) e)
    × (t.caller n ≡ s.caller n)
    × (n < t.count)

start_call-Keeps :
    (id : Text) (s : Client) (n : ℕ) → n < s.count → Keeps s n (called id) (start_call id s)
start_call-Keeps id s n small =
    let apart : s.count ≢ n = λ q. omega (arith, q) in
    (
      assign_other s.count n waiting s.future apart,
      assign_other s.count n id s.caller apart,
      omega arith,
    )

-- A reply finds the call with its id, if that still waits.
reply_other :
    (m : Message) (s : Client) (n : ℕ)
    → Linked s
    → n < s.count
    → (s.pending m.correlation_id ≢ some n)
    → after_event (s.caller n) n (s.future n) (reply m) ≡ s.future n
reply_other m s n l small absent = elim (Bool-cases (text_eq m.correlation_id (s.caller n))) [
  | inr e ↦ rw e refl
  | inl e ↦
      let same = eq_of_text_eq m.correlation_id (s.caller n) e in
      elim (Future-cases (s.future n)) [
        | inl w ↦ absurd (absent (ap s.pending same ∙ l.listed n small w))
        | inr done ↦ rw e (settle_done (resolved m.body) (s.future n) done)
      ]
]

reply_own :
    (m : Message) (s : Client) (n : ℕ)
    → Linked s
    → s.pending m.correlation_id ≡ some n
    → after_event (s.caller n) n (s.future n) (reply m) ≡ settle (resolved m.body) (s.future n)
reply_own m s n l e =
    let (small, mine, w) = l.held m.correlation_id n e in
    rw (ap (text_eq m.correlation_id) mine ∙ text_eq_refl m.correlation_id) refl

on_reply-Keeps :
    (m : Message) (s : Client) (n : ℕ) → Linked s → n < s.count → Keeps s n (reply m) (on_reply m s)
unfolding on_reply resolve
on_reply-Keeps m s n l small = elim (Option-cases (s.pending m.correlation_id)) [
  | inl e ↦ rw (e, resolve) (sym (reply_other m s n l small (λ h. cc (sym e ∙ h))), refl, small)
  | inr (k, e) ↦
      rw (e, resolve)
        (elim (same_or_other k n) [
          | inl here ↦
              let own = subst (λ j. s.pending m.correlation_id ≡ some j) here e in
              (
                subst
                    (λ j.
                      assign j (settle (resolved m.body) (s.future j)) s.future n
                      ≡ after_event (s.caller n) n (s.future n) (reply m))
                    (sym here)
                    (assign_same n (settle (resolved m.body) (s.future n)) s.future
                      ∙ sym (reply_own m s n l own)),
                refl,
                small,
              )
          | inr apart ↦ (
            assign_other k n (settle (resolved m.body) (s.future k)) s.future apart
                ∙ sym (
                    reply_other m s n l small
                      (λ h. let both : some k ≡ some n = sym e ∙ h in apart cc)),
            refl,
            small,
          )
        ])
]

time_out-Keeps : (k : ℕ) (s : Client) (n : ℕ) → n < s.count → Keeps s n (expired k) (time_out k s)
unfolding time_out give_up
time_out-Keeps k s n small = elim (Bool-cases (ltb k s.count)) [
  | inr e ↦
      let apart : (k == n) ≡ false = ground arith in rw (e, time_out) (rw apart refl, refl, small)
  | inl e ↦ elim (Future-cases (s.future k)) [
    | inr done ↦
        rw (e, time_out) (rw (give_up_done k (s.future k) s done) (sym (late done), refl, small))
    | inl w ↦
        rw (e, time_out)
          (subst (λ f. Keeps s n (expired k) (give_up k f s)) (sym w)
            (unfold give_up in (due w, refl, small)))
  ]
]
  where
    late : s.future k ≢ waiting → after_event (s.caller n) n (s.future n) (expired k) ≡ s.future n
    late done = elim (same_or_other k n) [
      | inl here ↦
          rw ((==_iff k n).1 here)
            (settle_done timed_out (s.future n) (λ w. done (ap s.future here ∙ w)))
      | inr apart ↦ assign_other k n (settle timed_out (s.future n)) s.future apart
    ]

    due :
        s.future k ≡ waiting
        → assign k timed_out s.future n ≡ after_event (s.caller n) n (s.future n) (expired k)
    due w = elim (Bool-cases (k == n)) [
      | inl here ↦ rw here (ap (settle timed_out) (sym w ∙ ap s.future ((==_iff k n).0 here)))
      | inr apart ↦ rw apart refl
    ]

step-Keeps :
    (e : RpcEvent) (es : List RpcEvent) (s : Client) (n : ℕ)
    → AreFresh s (e ∷ es)
    → Linked s
    → n < s.count
    → Keeps s n e (step e s)
unfolding step
step-Keeps (called id) es s n fresh l small = start_call-Keeps id s n small
step-Keeps (reply m) es s n fresh l small = on_reply-Keeps m s n l small
step-Keeps (expired k) es s n fresh l small = time_out-Keeps k s n small

-- From any state whose table is in step with its calls, and as long as each new call has an id that
-- is not pending, call `n` ends as its own replies and its own timeout decide: the first of them, in
-- the order of the events, settles it, and no event of another call touches it.
pub run-fate :
    (es : List RpcEvent) (s : Client) (n : ℕ)
    → Linked s
    → AreFresh s es
    → n < s.count
    → (run es s).future n ≡ fate (s.caller n) n (s.future n) es
unfolding run fate
run-fate [] s n l fresh small = refl
run-fate (e ∷ es) s n l fresh small =
    let (l_next, fresh_next) = step-Linked e es s fresh l in
    let (now, id, small_next) = step-Keeps e es s n fresh l small in
    run-fate es (step e s) n l_next fresh_next small_next
    ∙ ap (λ k. fate k n ((step e s).future n) es) id
    ∙ ap (λ f. fate (s.caller n) n f es) now
