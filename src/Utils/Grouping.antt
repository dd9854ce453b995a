-- ===== src/Utils/Grouping.antt =====
-- Each group holds exactly the matches that its bot took part in.
use june_2026_tictactoe_bots.Prelude.{
  ◌≡◌, refl, sym, ◌∙◌, ap, inl, inr, Bool, true, false, ◌||◌, Option, none, some, List, [], ◌∷◌,
  ◌++◌, map, arith, any, keep, if◌then◌else◌, Bool-cases,
}
use mathlib.Core.List.{append-nil, append_assoc}
use june_2026_tictactoe_bots.Text.{Text, text_eq}
use june_2026_tictactoe_bots.Text.Laws.{text_eq_iff}
use june_2026_tictactoe_bots.Utils.{
  NamedMatch, Groups, append_to, group_one, group_all, group_matches_by_version,
}

-- `grouped[name]`
abbrev pub group_of : Text → Groups → Option (List NamedMatch)
group_of k [] = none
group_of k ((key, ms) ∷ rest) = if text_eq key k then some ms else group_of k rest

-- The bot is on a side of the match.
abbrev pub involves : Text → NamedMatch → Bool
involves k m = text_eq m.bot_x k || text_eq m.bot_o k

-- More matches at the end of a group.
abbrev add_all : Option (List NamedMatch) → List NamedMatch → Option (List NamedMatch)
add_all none ms = none
add_all (some old) ms = some (old ++ ms)

group_of-append_to :
    (k name : Text) (m : NamedMatch) (g : Groups)
    → group_of k (append_to name m g)
      ≡ (if text_eq name k then add_all (group_of k g) (m ∷ []) else group_of k g)
unfolding append_to
group_of-append_to k name m [] = ground arith
group_of-append_to k name m ((key, ms) ∷ rest) = ground (
  arith,
  text_eq_iff key name,
  text_eq_iff key k,
  text_eq_iff name k,
  group_of-append_to k name m rest,
)

known_name :
    (k t : Text) (names : List Text)
    → any (text_eq k) names ≡ true
    → text_eq t k ≡ true
    → any (text_eq t) names ≡ true
known_name k t names h e = rw ((text_eq_iff t k).0 e) h

-- One match is added to the groups of its sides, once to each.
group_of-group_one :
    (k : Text) (names : List Text) (m : NamedMatch) (g : Groups)
    → any (text_eq k) names ≡ true
    → group_of k (group_one names g m)
      ≡ (if involves k m then add_all (group_of k g) (m ∷ []) else group_of k g)
unfolding group_one
group_of-group_one k names m g h = ground (
  arith,
  h,
  known_name k m.bot_x names h,
  known_name k m.bot_o names h,
  group_of-append_to k m.bot_x m g,
  group_of-append_to k m.bot_o m g,
  group_of-append_to k m.bot_o m (append_to m.bot_x m g),
  text_eq_iff m.bot_x k,
  text_eq_iff m.bot_o k,
  text_eq_iff m.bot_o m.bot_x,
)

add_all-nil : (o : Option (List NamedMatch)) → add_all o [] ≡ o
add_all-nil none = refl
add_all-nil (some ms) = ap some (append-nil ms)

add_all-append :
    (o : Option (List NamedMatch)) (m : NamedMatch) (ms : List NamedMatch)
    → add_all (add_all o (m ∷ [])) ms ≡ add_all o (m ∷ ms)
add_all-append none m ms = refl
add_all-append (some old) m ms = ap some (append_assoc old (m ∷ []) ms)

group_of-group_all :
    (k : Text) (names : List Text) (g : Groups) (ms : List NamedMatch)
    → any (text_eq k) names ≡ true
    → group_of k (group_all names g ms) ≡ add_all (group_of k g) (keep (involves k) ms)
unfolding group_all
group_of-group_all k names g [] h = sym (add_all-nil (group_of k g))
group_of-group_all k names g (m ∷ ms) h =
    group_of-group_all k names (group_one names g m) ms h
    ∙ ap (λ o. add_all o (keep (involves k) ms)) (group_of-group_one k names m g h)
    ∙ added (involves k m)
  where
    added :
        (b : Bool)
        → add_all
            (if b then add_all (group_of k g) (m ∷ []) else group_of k g)
            (keep (involves k) ms)
          ≡ add_all (group_of k g) (if b then m ∷ keep (involves k) ms else keep (involves k) ms)
    added true = add_all-append (group_of k g) m (keep (involves k) ms)
    added false = refl

group_of-start :
    (k : Text) (names : List Text)
    → any (text_eq k) names ≡ true
    → group_of k (map (λ name. (name, [])) names) ≡ some []
group_of-start k [] h = cc
group_of-start k (n ∷ ns) h = elim (Bool-cases (text_eq n k)) [
  | inl same ↦ rw same refl
  | inr diff ↦ rw diff (group_of-start k ns (ground (arith, text_eq_iff k n, text_eq_iff n k)))
]

-- For each versioned name of the family, the group is the list, in order, of the matches with that
-- bot on either side; a match of the bot against itself is listed once.
pub group_matches_by_version_lem :
    (k : Text) (names : List Text) (ms : List NamedMatch)
    → any (text_eq k) names ≡ true
    → group_of k (group_matches_by_version names ms) ≡ some (keep (involves k) ms)
unfolding group_matches_by_version
group_matches_by_version_lem k names ms h =
    group_of-group_all k names (map (λ name. (name, [])) names) ms h
    ∙ ap (λ o. add_all o (keep (involves k) ms)) (group_of-start k names h)
