-- ===== src/Scripts/Innermost.antt =====
-- `_innermost_count` of js_coverage_report.py, by what makes a range the innermost one.
use june_2026_tictactoe_bots.Prelude.{
  append-nil, ℕ, ◌≤◌, ◌<◌, ◌≡◌, refl, sym, ◌∙◌, ap, true, false, Option, none, some, List, [], ◌∷◌,
  ◌++◌, All, All-append, All-map, subst, arith, inl, inr, Bool-cases, leb, if◌then◌else◌,
}
use june_2026_tictactoe_bots.Scripts.Coverage.{Range, size, contains, better, innermost}

-- `r` is innermost at the offset: each range before it that holds the offset is as large at least, and
-- each range after it is larger.
pub record IsInnermost (offset : ℕ) (ranges : List Range) (r : Range) : Type 0 where
  pub before : List Range
  pub after : List Range
  pub splits : ranges ≡ before ++ r ∷ after
  pub holds : contains offset r ≡ true
  pub above : All (λ q. contains offset q ≡ true → size r ≤ size q) before
  pub below : All (λ q. contains offset q ≡ true → size r < size q) after

-- The best range after some of the ranges.
abbrev pub Best : ℕ → List Range → Option Range → Type 0
Best offset ranges none = All (λ q. contains offset q ≡ false) ranges
Best offset ranges (some r) = IsInnermost offset ranges r

append_one :
    (xs ys : List Range) (x y : Range) → (xs ++ x ∷ ys) ++ y ∷ [] ≡ xs ++ x ∷ (ys ++ y ∷ [])
append_one [] ys x y = refl
append_one (z ∷ xs) ys x y = ap (λ l. z ∷ l) (append_one xs ys x y)

-- A range that holds the offset and is not larger than the best so far.
take_new :
    (offset : ℕ) (done : List Range) (b x : Range)
    → contains offset x ≡ true
    → size x ≤ size b
    → IsInnermost offset done b
    → IsInnermost offset (done ++ x ∷ []) x
take_new offset done b x here small h = record {
  before = done;
  after = [];
  splits = refl;
  holds = here;
  above = subst (All (λ q. contains offset q ≡ true → size x ≤ size q)) (sym h.splits) (
      All-append (λ q. contains offset q ≡ true → size x ≤ size q) h.before (b ∷ h.after)
        (All-map (λ q. contains offset q ≡ true → size b ≤ size q)
          (λ q. contains offset q ≡ true → size x ≤ size q) h.before (λ q f e. omega (arith, f e))
          h.above)
        (
          (λ e. small),
          All-map (λ q. contains offset q ≡ true → size b < size q)
              (λ q. contains offset q ≡ true → size x ≤ size q) h.after
              (λ q f e. omega (arith, f e)) h.below,
        ));
  below = tt;
}

keep_best :
    (offset : ℕ) (done : List Range) (b x : Range)
    → (contains offset x ≡ true → size b < size x)
    → IsInnermost offset done b
    → IsInnermost offset (done ++ x ∷ []) b
keep_best offset done b x large h = record {
  before = h.before;
  after = h.after ++ x ∷ [];
  splits = ap (λ l. l ++ x ∷ []) h.splits ∙ append_one h.before h.after b x;
  holds = h.holds;
  above = h.above;
  below =
      All-append (λ q. contains offset q ≡ true → size b < size q) h.after (x ∷ []) h.below
        (large, tt);
}

Best-step :
    (offset : ℕ) (done : List Range) (best : Option Range) (x : Range)
    → Best offset done best
    → Best offset (done ++ x ∷ []) (if contains offset x then some (better best x) else best)
Best-step offset done none x h = elim (Bool-cases (contains offset x)) [
  | inr e ↦ rw e (All-append (λ q. contains offset q ≡ false) done (x ∷ []) h (e, tt))
  | inl e ↦ rw e (record {
    before = done;
    after = [];
    splits = refl;
    holds = e;
    above =
        All-map (λ q. contains offset q ≡ false) (λ q. contains offset q ≡ true → size x ≤ size q)
          done (λ q f g. absurd (cc (sym f ∙ g))) h;
    below = tt;
  })
]
Best-step offset done (some b) x h = elim (Bool-cases (contains offset x)) [
  | inr e ↦ rw e (keep_best offset done b x (λ f. absurd (cc (sym e ∙ f))) h)
  | inl e ↦ rw e (elim (Bool-cases (leb (size x) (size b))) [
    | inl small ↦ rw small (take_new offset done b x e (ground arith) h)
    | inr large ↦ rw large (keep_best offset done b x (λ f. ground arith) h)
  ])
]

shift_one : (xs ys : List Range) (x : Range) → (xs ++ x ∷ []) ++ ys ≡ xs ++ x ∷ ys
shift_one [] ys x = refl
shift_one (z ∷ xs) ys x = ap (λ l. z ∷ l) (shift_one xs ys x)

Best-run :
    (offset : ℕ) (ranges done : List Range) (best : Option Range)
    → Best offset done best
    → Best offset (done ++ ranges) (innermost offset best ranges)
unfolding innermost
Best-run offset [] done best h = subst (λ l. Best offset l best) (sym (append-nil done)) h
Best-run offset (r ∷ ranges) done best h =
    let next : Option Range = if contains offset r then some (better best r) else best in
    subst (λ l. Best offset l (innermost offset next ranges)) (shift_one done ranges r)
      (Best-run offset ranges (done ++ r ∷ []) next (Best-step offset done best r h))

-- What the count of an offset is read from: the innermost of the ranges, and no range only where
-- none of them holds the offset.
pub innermost-Best :
    (offset : ℕ) (ranges : List Range) → Best offset ranges (innermost offset none ranges)
innermost-Best offset ranges = Best-run offset ranges [] none tt
