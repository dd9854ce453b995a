-- ===== src/Store/Leaderboard/Ranking.antt =====
-- The rows of `BotRepository.leaderboard`: how many a family has, and which, in which order.
use Prim.Native.Nat.{max}
use june_2026_tictactoe_bots.Prelude.{
  ℕ, suc, ◌≤◌, ◌≡◌, ◌≢◌, refl, sym, ap, ◌∙◌, inl, inr, Bool, true, false, ◌&&◌, none, some, List,
  [], ◌∷◌, map, keep, any, All, length, keep-sort_by, ◌==◌, ==_iff, arith, Bool-cases, Option-cases,
  both, ◌↔◌,
}
use june_2026_tictactoe_bots.Text.{Text, text_eq}
use june_2026_tictactoe_bots.Text.Laws.{text_eq_iff, eq_of_text_eq}
use june_2026_tictactoe_bots.Match.Rules.{one_if}
use june_2026_tictactoe_bots.Store.{Db, Bot, max_version}
use june_2026_tictactoe_bots.Store.Leaderboard.Newest.{
  IsOfNewest, InOrder, sorted-IsOfNewest, sort_by-InOrder,
}
use june_2026_tictactoe_bots.Store.Leaderboard.{
  is_latest, latest_bots, standing, ranks_before, leaderboard,
}

-- No two rows of one family have one version.
abbrev pub VersionsDiffer : List Bot → Type 0
VersionsDiffer [] = Unit
VersionsDiffer (b ∷ bs) =
    All (λ c. c.base_name ≡ b.base_name → c.version ≢ b.version) bs × VersionsDiffer bs

-- The rows of a family with one version.
abbrev has_version : Text → ℕ → Bot → Bool
has_version name v b = text_eq b.base_name name && (b.version == v)

has_version_iff :
    (name : Text) (v : ℕ) (b : Bot)
    → (has_version name v b ≡ true) ↔ ((b.base_name ≡ name) × (b.version ≡ v))
has_version_iff name v b = (
  λ h.
      let (e, f) = both (text_eq b.base_name name) (b.version == v) h in
      (eq_of_text_eq b.base_name name e, (==_iff b.version v).0 f),
  λ (e, f). rw ((text_eq_iff b.base_name name).1 e, (==_iff b.version v).1 f) refl,
)

-- What differs in version from a row of the family leaves no other row with its version.
no_other :
    (name : Text) (v : ℕ) (b : Bot) (bs : List Bot)
    → b.base_name ≡ name
    → b.version ≡ v
    → All (λ c. c.base_name ≡ b.base_name → c.version ≢ b.version) bs
    → length (keep (has_version name v) bs) ≡ 0
no_other name v b [] e f h = refl
no_other name v b (c ∷ bs) e f h = elim (Bool-cases (has_version name v c)) [
  | inl g ↦
      let (same, version) = (has_version_iff name v c).0 g in
      absurd (h.0 (same ∙ sym e) (version ∙ sym f))
  | inr g ↦ rw g (no_other name v b bs e f h.1)
]

version_once :
    (name : Text) (v : ℕ) (bs : List Bot)
    → VersionsDiffer bs
    → length (keep (has_version name v) bs) ≤ 1
version_once name v [] h = omega arith
version_once name v (b ∷ bs) h = elim (Bool-cases (has_version name v b)) [
  | inl g ↦
      let (same, version) = (has_version_iff name v b).0 g in
      rw g (omega (arith, no_other name v b bs same version h.0))
  | inr g ↦ rw g (version_once name v bs h.1)
]

head_counts :
    (name : Text) (v : ℕ) (b : Bot) (bs : List Bot)
    → has_version name v b ≡ true
    → 1 ≤ length (keep (has_version name v) (b ∷ bs))
head_counts name v b bs e = rw e (omega arith)

later_counts :
    (name : Text) (v : ℕ) (b : Bot) (bs : List Bot)
    → 1 ≤ length (keep (has_version name v) bs)
    → 1 ≤ length (keep (has_version name v) (b ∷ bs))
later_counts name v b bs h = elim (Bool-cases (has_version name v b)) [
  | inl e ↦ head_counts name v b bs e
  | inr e ↦ rw e h
]

max_version-some :
    (name : Text) (v : ℕ) (bs : List Bot)
    → max_version name bs ≡ some v
    → 1 ≤ length (keep (has_version name v) bs)
unfolding max_version
max_version-some name v [] e = cc
max_version-some name v (b ∷ bs) e = elim (Bool-cases (text_eq b.base_name name)) [
  | inr f ↦ rw f (max_version-some name v bs (rw f at e))
  | inl f ↦ elim (Option-cases (max_version name bs)) [
    | inl g ↦
        let version : b.version ≡ v = cc (rw (f, g) at e) in
        head_counts name v b bs
          ((has_version_iff name v b).1 (eq_of_text_eq b.base_name name f, version))
    | inr (w, g) ↦
        let greatest : max b.version w ≡ v = cc (rw (f, g) at e) in
        elim (Bool-cases (b.version == v)) [
          | inl here ↦ head_counts name v b bs (
              (has_version_iff name v b).1
                (eq_of_text_eq b.base_name name f, (==_iff b.version v).0 here))
          | inr apart ↦
              let other : w ≡ v = ground (arith, greatest, apart) in
              later_counts name v b bs (max_version-some name v bs (g ∙ ap some other))
        ]
  ]
]

max_version-none :
    (name : Text) (bs : List Bot)
    → max_version name bs ≡ none
    → any (λ b. text_eq b.base_name name) bs ≡ false
unfolding max_version
max_version-none name [] e = refl
max_version-none name (b ∷ bs) e = elim (Bool-cases (text_eq b.base_name name)) [
  | inr f ↦ rw f (max_version-none name bs (rw f at e))
  | inl f ↦ elim (Option-cases (max_version name bs)) [
    | inl g ↦ cc (rw (f, g) at e)
    | inr (w, g) ↦ cc (rw (f, g) at e)
  ]
]

module _ (name : Text) where
  abbrev is_of : Bot → Bool
  is_of b = text_eq b.base_name name

  latest_count :
      (bots : List Bot) (v : ℕ) (bs : List Bot)
      → max_version name bots ≡ some v
      → length (keep is_of (keep (is_latest bots) bs)) ≡ length (keep (has_version name v) bs)
  unfolding is_latest
  latest_count bots v [] e = refl
  latest_count bots v (b ∷ bs) e = elim (Bool-cases (is_of b)) [
    | inl f ↦
        let greatest : max_version b.base_name bots ≡ some v =
          ap (λ t. max_version t bots) (eq_of_text_eq b.base_name name f) ∙ e in
        elim (Bool-cases (v == b.version)) [
          | inl g ↦
              let turned : (b.version == v) ≡ true = ground (arith, g) in
              rw (greatest, g, f, turned) (ap suc (latest_count bots v bs e))
          | inr g ↦
              let turned : (b.version == v) ≡ false = ground (arith, g) in
              rw (greatest, g, f, turned) (latest_count bots v bs e)
        ]
    | inr f ↦ elim (Bool-cases (is_latest bots b)) [
      | inl g ↦ rw (g, f) (latest_count bots v bs e)
      | inr g ↦ rw (g, f) (latest_count bots v bs e)
    ]
  ]

  none_kept :
      (q : Bot → Bool) (bs : List Bot) → any is_of bs ≡ false → length (keep is_of (keep q bs)) ≡ 0
  none_kept q [] e = refl
  none_kept q (b ∷ bs) e =
      let none_here : is_of b ≡ false = ground (arith, e) in
      let none_later : any is_of bs ≡ false = ground (arith, e) in
      elim (Bool-cases (q b)) [
        | inl f ↦ rw (f, none_here) (none_kept q bs none_later)
        | inr f ↦ rw f (none_kept q bs none_later)
      ]

  latest_bots-one :
      (bots : List Bot)
      → VersionsDiffer bots
      → length (keep is_of (latest_bots bots)) ≡ one_if (any is_of bots)
  unfolding latest_bots
  latest_bots-one bots h = elim (Bool-cases (any is_of bots)) [
    | inr absent ↦ rw absent (none_kept (is_latest bots) bots absent)
    | inl present ↦ elim (Option-cases (max_version name bots)) [
      | inl e ↦ cc (sym present ∙ max_version-none name bots e)
      | inr (v, e) ↦ rw present (
          omega (
            arith,
            latest_count bots v bots e,
            version_once name v bots h,
            max_version-some name v bots e,
          ))
    ]
  ]

  keep-standing :
      (db : Db) (bs : List Bot)
      → length (keep (λ r. text_eq r.base_name name) (map (standing db) bs))
        ≡ length (keep is_of bs)
  unfolding standing
  keep-standing db [] = refl
  keep-standing db (b ∷ bs) = elim (Bool-cases (is_of b)) [
    | inl e ↦ rw e (ap suc (keep-standing db bs))
    | inr e ↦ rw e (keep-standing db bs)
  ]

-- Where no two versions of a family are equal, the leaderboard has just one row for each family that
-- has a bot and none for any other name; each row is that of its family's newest version; and each row
-- has more wins, clean and by forfeit, than every row below it, or as many and was not submitted later.
pub leaderboard-IsRanked :
    (db : Db) (name : Text)
    → VersionsDiffer db.bots
    → (length (keep (λ r. text_eq r.base_name name) (leaderboard db))
        ≡ one_if (any (λ b. text_eq b.base_name name) db.bots))
      × All (IsOfNewest db) (leaderboard db)
      × InOrder (leaderboard db)
unfolding leaderboard
leaderboard-IsRanked db name h = (
  keep-sort_by ranks_before (λ r. text_eq r.base_name name)
        (map (standing db) (latest_bots db.bots))
      ∙ keep-standing name db (latest_bots db.bots)
      ∙ latest_bots-one name db.bots h,
  sorted-IsOfNewest db,
  sort_by-InOrder (map (standing db) (latest_bots db.bots)),
)
