-- ===== src/Utils/Fields.antt =====
-- What the docstring's fields can yield.
use june_2026_tictactoe_bots.Prelude.{
  ℕ, ◌↔◌, ap, ◌∙◌, both, ◌==◌, ==_iff, length, if◌then◌else◌, ◌≡◌, refl, ◌≢◌, inl, inr, true,
  Option, none, some, List, [], ◌∷◌, ◌++◌, Bool-cases, Option-cases, subst,
}
use june_2026_tictactoe_bots.Text.{Text, codes, splitlines, starts_with}
use june_2026_tictactoe_bots.Utils.{
  drop, extract_python_version, Source, docstring, name_in, non_empty, field_value, has_field,
  in_runtimes, default_runtime_key, if_known, choose_runtime, extract_runtime_key, declared_in,
}

if_known-known : (key k : Text) → if_known key ≡ some k → in_runtimes k ≡ true
if_known-known key k e = elim (Bool-cases (in_runtimes key)) [
  | inl known ↦
      let same : key ≡ k = cc (rw known at e) in subst (λ x. in_runtimes x ≡ true) same known
  | inr unknown ↦ cc (rw unknown at e)
]

choose_runtime-known :
    (l p : Option Text) (k : Text) → choose_runtime l p ≡ some k → in_runtimes k ≡ true
unfolding choose_runtime
choose_runtime-known (some key) p k e = if_known-known key k e
choose_runtime-known none (some ver) k e = if_known-known (codes "python-" ++ ver) k e
choose_runtime-known none none k e =
    let same : default_runtime_key ≡ k = cc e in subst (λ x. in_runtimes x ≡ true) same refl

-- Every runtime key that is extracted from a source is a key of the allowlist.
pub extract_runtime_key-known :
    (source : Source) (k : Text) → extract_runtime_key source ≡ some k → in_runtimes k ≡ true
unfolding extract_runtime_key
extract_runtime_key-known source k e = elim (Option-cases (docstring source)) [
  | inl n ↦ cc (rw (n, extract_runtime_key) at e)
  | inr (s, h) ↦
      let d = declared_in (record { language_key = none; python_ver = none }) (splitlines s) in
      choose_runtime-known d.language_key d.python_ver k (rw (h, extract_runtime_key) at e)
]

non_empty-ne-nil : (t n : Text) → non_empty t ≡ some n → n ≢ []
non_empty-ne-nil [] n e h = cc
non_empty-ne-nil (c ∷ s) n e h = cc

pub name_in-ne-nil : (lines : List Text) (n : Text) → name_in lines ≡ some n → n ≢ []
unfolding name_in
name_in-ne-nil [] n e = cc
name_in-ne-nil (line ∷ lines) n e = elim (Bool-cases (has_field (codes "name:") line)) [
  | inl here_ ↦ non_empty-ne-nil (field_value (codes "name:") line) n (rw here_ at e)
  | inr later ↦ name_in-ne-nil lines n (rw later at e)
]

prefix_split : (p s : Text) → starts_with p s ≡ true → s ≡ p ++ drop (length p) s
prefix_split [] s e = refl
prefix_split (c ∷ p) [] e = cc
prefix_split (c ∷ p) (d ∷ s) e =
    let (same, rest) = both (c == d) (starts_with p s) e in
    cons_equal c d (p ++ drop (length p) s) s ((==_iff c d).0 same) (prefix_split p s rest)
  where
    cons_equal : (a b : ℕ) (t u : Text) → a ≡ b → u ≡ t → b ∷ u ≡ a ∷ t
    cons_equal a b t u e f = cc

version_of-key :
    (key v : Text)
    → (if starts_with (codes "python-") key then some (drop 7 key) else none) ≡ some v
    → key ≡ codes "python-" ++ v
version_of-key key v e = elim (Bool-cases (starts_with (codes "python-") key)) [
  | inl python ↦
      let same : drop 7 key ≡ v = cc (rw python at e) in
      prefix_split (codes "python-") key python ∙ ap (λ t. codes "python-" ++ t) same
  | inr other ↦ cc (rw other at e)
]

-- A source has a Python version exactly when its runtime key is "python-" and that version; the key is
-- then one of the allowlist.
pub extract_python_version_iff :
    (source : Source) (v : Text)
    → (extract_python_version source ≡ some v) ↔ (
        (extract_runtime_key source ≡ some (codes "python-" ++ v))
        × (in_runtimes (codes "python-" ++ v) ≡ true))
unfolding extract_python_version
extract_python_version_iff source v = (
  λ e. elim (Option-cases (extract_runtime_key source)) [
    | inl n ↦ cc (rw (n, extract_python_version) at e)
    | inr (key, h) ↦
        let same = version_of-key key v (rw (h, extract_python_version) at e) in
        let found = h ∙ ap some same in
        (found, extract_runtime_key-known source (codes "python-" ++ v) found)
  ],
  λ (e, known). rw (e, extract_python_version) refl,
)
