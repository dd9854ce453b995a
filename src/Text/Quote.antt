-- ===== src/Text/Quote.antt =====
-- `urllib.parse.quote(text, safe="")` and `urllib.parse.unquote(text)` of Python, as web/utils.py and
-- scripts/reset_db.py use them.
use Prim.Native.Nat.{◌*◌, ◌/◌, ◌%◌}
use june_2026_tictactoe_bots.Prelude.{
  ℕ, ◌≢◌, ◌+◌, ◌-◌, ◌<◌, ◌≡◌, refl, sym, ap, ◌∙◌, Bool, true, false, ◌||◌, ◌&&◌, Option, none, some,
  List, [], ◌∷◌, ◌++◌, All, arith, leb, ltb, ◌==◌, if◌then◌else◌, Bool-cases, inl, inr, append-nil,
  append_assoc,
}

-- The letters, the digits, and the signs `_`, `.`, `-` and `~`.
unfoldable pub is_unreserved : ℕ → Bool
is_unreserved c =
    (leb 65 c && leb c 90)
    || (leb 97 c && leb c 122)
    || (leb 48 c && leb c 57)
    || (c == 95)
    || (c == 46)
    || (c == 45)
    || (c == 126)

-- A value below 16 as an upper-case digit.
unfoldable pub hex_digit : ℕ → ℕ
hex_digit v = if ltb v 10 then v + 48 else v + 55

unfoldable pub hex_value : ℕ → Option ℕ
hex_value c =
    if leb 48 c && leb c 57
    then some (c - 48)
    else if leb 65 c && leb c 70
    then some (c - 55)
    else if leb 97 c && leb c 102
    then some (c - 87)
    else none

-- A byte, as itself or as `%XX`.
quoted : ℕ → List ℕ
quoted c = if is_unreserved c then c ∷ [] else 37 ∷ hex_digit (c / 16) ∷ hex_digit (c % 16) ∷ []

-- `quote` of an ASCII text, whose bytes in UTF-8 are its code points.
unfoldable pub quote : List ℕ → List ℕ
unfolding quoted
quote [] = []
quote (c ∷ s) = quoted c ++ quote s

-- `unquote_to_bytes`: a `%` without two digits behind it stays.
unfoldable pub unquote_bytes : List ℕ → List ℕ
unquote_bytes [] = []
unquote_bytes (c ∷ []) = c ∷ []
unquote_bytes (c ∷ d ∷ []) = c ∷ d ∷ []
unquote_bytes (c ∷ d ∷ e ∷ s) =
    let next = unquote_bytes (d ∷ e ∷ s) in
    let after = unquote_bytes s in
    if c == 37
    then elim (hex_value d) [
      | none ↦ c ∷ next
      | some high ↦ elim (hex_value e) [ none ↦ c ∷ next | some low ↦ (high * 16 + low) ∷ after ]
    ]
    else c ∷ next

-- The runs of ASCII characters are unquoted and decoded by `decode`, which is the decoding of UTF-8
-- with replacement characters; the others stay.
unfoldable pub unquote_from : (List ℕ → List ℕ) → List ℕ → List ℕ → List ℕ
unquote_from decode run [] = decode (unquote_bytes run)
unquote_from decode run (c ∷ s) =
    let ascii = unquote_from decode (run ++ c ∷ []) s in
    let other = decode (unquote_bytes run) ++ c ∷ unquote_from decode [] s in
    if ltb c 128 then ascii else other

unfoldable pub unquote : (List ℕ → List ℕ) → List ℕ → List ℕ
unfolding unquote_from
unquote decode s = unquote_from decode [] s

abbrev pub IsAscii : ℕ → Type 0
IsAscii c = c < 128

hex_value-hex_digit : (v : ℕ) → v < 16 → hex_value (hex_digit v) ≡ some v
unfolding hex_value hex_digit
hex_value-hex_digit v h = ground arith

unreserved-plain : (c : ℕ) → is_unreserved c ≡ true → (c == 37) ≡ false
unfolding is_unreserved
unreserved-plain c h = ground (arith, h)

unquote_bytes-plain :
    (c : ℕ) (s : List ℕ) → (c == 37) ≡ false → unquote_bytes (c ∷ s) ≡ c ∷ unquote_bytes s
unfolding unquote_bytes
unquote_bytes-plain c [] h = refl
unquote_bytes-plain c (d ∷ []) h = refl
unquote_bytes-plain c (d ∷ e ∷ s) h = rw h refl

unquote_bytes-hex :
    (v w : ℕ) (s : List ℕ)
    → v < 16
    → w < 16
    → unquote_bytes (37 ∷ hex_digit v ∷ hex_digit w ∷ s) ≡ (v * 16 + w) ∷ unquote_bytes s
unfolding unquote_bytes
unquote_bytes-hex v w s hv hw = rw (hex_value-hex_digit v hv, hex_value-hex_digit w hw) refl

unquote_bytes-nil : unquote_bytes [] ≡ []
unfolding unquote_bytes
unquote_bytes-nil = refl

-- What was quoted is unquoted to itself.
unquote_bytes-quote : (s : List ℕ) → All IsAscii s → unquote_bytes (quote s) ≡ s
unfolding quote quoted
unquote_bytes-quote [] h = unquote_bytes-nil
unquote_bytes-quote (c ∷ s) h = elim (Bool-cases (is_unreserved c)) [
  | inl plain ↦ rw plain (
      unquote_bytes-plain c (quote s) (unreserved-plain c plain)
      ∙ ap (λ t. c ∷ t) (unquote_bytes-quote s h.1))
  | inr coded ↦ rw coded (
      unquote_bytes-hex (c / 16) (c % 16) (quote s) (omega (arith, h.0)) (omega arith)
      ∙ rw (unquote_bytes-quote s h.1) (ap (λ (n : ℕ). n ∷ s) (omega arith)))
]

hex_digit-IsAscii : (v : ℕ) → v < 16 → IsAscii (hex_digit v)
unfolding hex_digit
hex_digit-IsAscii v h = ground arith

quote-IsAscii : (s : List ℕ) → All IsAscii s → All IsAscii (quote s)
unfolding quote quoted
quote-IsAscii [] h = tt
quote-IsAscii (c ∷ s) h = elim (Bool-cases (is_unreserved c)) [
  | inl plain ↦ rw plain (h.0, quote-IsAscii s h.1)
  | inr coded ↦ rw coded (
    omega arith,
    (
      hex_digit-IsAscii (c / 16) (omega (arith, h.0)),
      (hex_digit-IsAscii (c % 16) (omega arith), quote-IsAscii s h.1),
    ),
  )
]

unquote_from-ascii :
    (decode : List ℕ → List ℕ) (run s : List ℕ)
    → All IsAscii s
    → unquote_from decode run s ≡ decode (unquote_bytes (run ++ s))
unfolding unquote_from
unquote_from-ascii decode run [] h = ap (λ t. decode (unquote_bytes t)) (sym (append-nil run))
unquote_from-ascii decode run (c ∷ s) h =
    let small : ltb c 128 ≡ true = ground (arith, h.0) in
    rw small (
      unquote_from-ascii decode (run ++ c ∷ []) s h.1
      ∙ ap (λ t. decode (unquote_bytes t)) (append_assoc run (c ∷ []) s))

-- A quoted ASCII text is unquoted to itself, with a decoding that leaves ASCII bytes alone.
pub unquote-quote :
    (decode : List ℕ → List ℕ) (s : List ℕ)
    → ((t : List ℕ) → All IsAscii t → decode t ≡ t)
    → All IsAscii s
    → unquote decode (quote s) ≡ s
unfolding unquote
unquote-quote decode s plain h =
    unquote_from-ascii decode [] (quote s) (quote-IsAscii s h)
    ∙ ap decode (unquote_bytes-quote s h)
    ∙ plain s h

pub quote-ne-nil : (c : ℕ) (s : List ℕ) → quote (c ∷ s) ≢ []
unfolding quote quoted
quote-ne-nil c s h = elim (Bool-cases (is_unreserved c)) [
  | inl plain ↦ cc (rw plain at h)
  | inr coded ↦ cc (rw coded at h)
]

abbrev pub IsNoSlash : ℕ → Type 0
IsNoSlash c = (c == 47) ≡ false

unreserved-IsNoSlash : (c : ℕ) → is_unreserved c ≡ true → IsNoSlash c
unfolding is_unreserved
unreserved-IsNoSlash c h = ground (arith, h)

hex_digit-IsNoSlash : (v : ℕ) → IsNoSlash (hex_digit v)
unfolding hex_digit
hex_digit-IsNoSlash v = ground arith

-- No slash is left.
pub quote-IsNoSlash : (s : List ℕ) → All IsNoSlash (quote s)
unfolding quote quoted
quote-IsNoSlash [] = tt
quote-IsNoSlash (c ∷ s) = elim (Bool-cases (is_unreserved c)) [
  | inl plain ↦ rw plain (unreserved-IsNoSlash c plain, quote-IsNoSlash s)
  | inr coded ↦
      rw coded
        (refl, (hex_digit-IsNoSlash (c / 16), (hex_digit-IsNoSlash (c % 16), quote-IsNoSlash s)))
]

-- Texts that differ are quoted differently.
pub quote_injective : (s t : List ℕ) → All IsAscii s → All IsAscii t → quote s ≡ quote t → s ≡ t
quote_injective s t h k e =
    sym (unquote_bytes-quote s h) ∙ ap unquote_bytes e ∙ unquote_bytes-quote t k

IsNoSlash-ne : (c : ℕ) → IsNoSlash c → 47 ≢ c
IsNoSlash-ne c h e = ground (arith, h, e)

-- Texts without a slash end at the first one.
pub slash_injective :
    (a b s t : List ℕ)
    → All IsNoSlash a
    → All IsNoSlash b
    → a ++ 47 ∷ s ≡ b ++ 47 ∷ t
    → (a ≡ b) × (s ≡ t)
slash_injective [] [] s t h k e = (refl, cc)
slash_injective [] (y ∷ b) s t h k e = absurd (IsNoSlash-ne y k.0 cc)
slash_injective (x ∷ a) [] s t h k e = absurd (IsNoSlash-ne x h.0 cc)
slash_injective (x ∷ a) (y ∷ b) s t h k e =
    let (p, q) = slash_injective a b s t h.1 k.1 cc in (cc, q)
