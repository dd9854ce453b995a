-- ===== src/Text/Base64.antt =====
-- `base64.b64encode` and `base64.b64decode` of Python, as dispatcher/pod_builder.py and
-- bot-runner-images/python/turn_server.py use them. A byte string is a list of its bytes.
use Prim.Native.Nat.{◌*◌, ◌/◌, ◌%◌}
use june_2026_tictactoe_bots.Prelude.{
  ℕ, ◌+◌, ◌-◌, ◌<◌, ◌≡◌, refl, false, ◌∙◌, ap, Bool, Option, none, some, List, [], ◌∷◌, ◌++◌, All,
  arith, ◌&&◌, leb, ltb, ◌==◌, if◌then◌else◌,
}

-- The characters A-Z, a-z, 0-9, + and / of the values below 64.
unfoldable pub b64_char : ℕ → ℕ
b64_char v =
    if ltb v 26
    then v + 65
    else if ltb v 52
    then v + 71
    else if ltb v 62
    then v - 4
    else if v == 62
    then 43
    else 47

-- The value of a character, or `none` for one that is not of the alphabet.
unfoldable pub b64_value : ℕ → Option ℕ
b64_value c =
    if leb 65 c && leb c 90
    then some (c - 65)
    else if leb 97 c && leb c 122
    then some (c - 71)
    else if leb 48 c && leb c 57
    then some (c + 4)
    else if c == 43
    then some 62
    else if c == 47
    then some 63
    else none

-- `base64.b64encode(data)`: four characters for three bytes, padded with `=`.
unfoldable pub b64encode : List ℕ → List ℕ
b64encode [] = []
b64encode (a ∷ []) = b64_char (a / 4) ∷ b64_char (a % 4 * 16) ∷ 61 ∷ 61 ∷ []
b64encode (a ∷ b ∷ []) =
    b64_char (a / 4) ∷ b64_char (a % 4 * 16 + b / 16) ∷ b64_char (b % 16 * 4) ∷ 61 ∷ []
b64encode (a ∷ b ∷ c ∷ s) =
    b64_char (a / 4)
    ∷ b64_char (a % 4 * 16 + b / 16)
    ∷ b64_char (b % 16 * 4 + c / 64)
    ∷ b64_char (c % 64)
    ∷ b64encode s

-- The characters of a group of four that were read, with the bits that no byte has taken.
pub data Group : Type 0 where
  at_start : Group
  after_one after_two after_three : ℕ → Group

-- One more value of the group: the group after it, and the bytes that it completes.
unfoldable pub b64_step : Group → ℕ → Group × List ℕ
b64_step at_start v = (after_one v, [])
b64_step (after_one left) v = (after_two (v % 16), (left * 4 + v / 16) ∷ [])
b64_step (after_two left) v = (after_three (v % 4), (left * 16 + v / 4) ∷ [])
b64_step (after_three left) v = (at_start, (left * 64 + v) ∷ [])

-- Whether the `=` that is the `pads`-th in a row completes the group.
unfoldable pub completes : Group → ℕ → Bool
completes at_start pads = false
completes (after_one left) pads = false
completes (after_two left) pads = leb 2 pads
completes (after_three left) pads = leb 1 pads

-- `binascii.Error` for an input that ends within a group.
unfoldable pub at_end : Group → Option (List ℕ)
at_end at_start = some []
at_end _ = none

prepend : List ℕ → Option (List ℕ) → Option (List ℕ)
prepend s none = none
prepend [] (some t) = some t
prepend (b ∷ s) (some t) = some (b ∷ s ++ t)

-- The rest of the input in a group after `pads` signs `=`: characters that are not of the alphabet
-- are skipped.
unfoldable pub b64_from : Group → ℕ → List ℕ → Option (List ℕ)
unfolding prepend
b64_from g pads [] = at_end g
b64_from g pads (c ∷ s) =
    let skipped = b64_from g (pads + 1) s in
    let same = b64_from g pads s in
    if c == 61 then if completes g (pads + 1) then some [] else skipped else elim (b64_value c) [
      | none ↦ same
      | some v ↦ prepend (b64_step g v).1 (b64_from (b64_step g v).0 0 s)
    ]

-- `base64.b64decode(text)`, or `none` where it raises.
unfoldable pub b64decode : List ℕ → Option (List ℕ)
unfolding b64_from
b64decode text = b64_from at_start 0 text

abbrev pub IsByte : ℕ → Type 0
IsByte b = b < 256

prepend-nil : (o : Option (List ℕ)) → prepend [] o ≡ o
unfolding prepend
prepend-nil none = refl
prepend-nil (some t) = refl

pub b64_value-b64_char : (v : ℕ) → v < 64 → b64_value (b64_char v) ≡ some v
unfolding b64_value b64_char
b64_value-b64_char v h = ground arith

b64_char-ne-pad : (v : ℕ) → v < 64 → (b64_char v == 61) ≡ false
unfolding b64_char
b64_char-ne-pad v h = ground arith

-- A character of the alphabet is one step.
b64_from-b64_char :
    (g : Group) (pads v : ℕ) (s : List ℕ)
    → v < 64
    → b64_from g pads (b64_char v ∷ s) ≡ prepend (b64_step g v).1 (b64_from (b64_step g v).0 0 s)
unfolding b64_from
b64_from-b64_char g pads v s h = rw (b64_char-ne-pad v h, b64_value-b64_char v h) refl

-- The two characters in front of a byte, with what follows them.
decode-two :
    (v w : ℕ) (s : List ℕ)
    → v < 64
    → w < 64
    → b64decode (b64_char v ∷ b64_char w ∷ s)
      ≡ prepend ((v * 4 + w / 16) ∷ []) (b64_from (after_two (w % 16)) 0 s)
unfolding b64decode b64_step prepend
decode-two v w s hv hw =
    b64_from-b64_char at_start 0 v (b64_char w ∷ s) hv
    ∙ ap (prepend []) (b64_from-b64_char (after_one v) 0 w s hw)
    ∙ prepend-nil _

decode-three :
    (v w x : ℕ) (s : List ℕ)
    → v < 64
    → w < 64
    → x < 64
    → b64decode (b64_char v ∷ b64_char w ∷ b64_char x ∷ s)
      ≡ prepend
          ((v * 4 + w / 16) ∷ [])
          (prepend ((w % 16 * 16 + x / 4) ∷ []) (b64_from (after_three (x % 4)) 0 s))
unfolding b64_step
decode-three v w x s hv hw hx =
    decode-two v w (b64_char x ∷ s) hv hw
    ∙ ap (prepend ((v * 4 + w / 16) ∷ [])) (b64_from-b64_char (after_two (w % 16)) 0 x s hx)

-- A whole group is three bytes.
decode-four :
    (v w x y : ℕ) (s : List ℕ)
    → v < 64
    → w < 64
    → x < 64
    → y < 64
    → b64decode (b64_char v ∷ b64_char w ∷ b64_char x ∷ b64_char y ∷ s)
      ≡ prepend
          ((v * 4 + w / 16) ∷ [])
          (prepend ((w % 16 * 16 + x / 4) ∷ []) (prepend ((x % 4 * 64 + y) ∷ []) (b64decode s)))
unfolding b64decode b64_step
decode-four v w x y s hv hw hx hy =
    decode-three v w x (b64_char y ∷ s) hv hw hx
    ∙ ap (λ r. prepend ((v * 4 + w / 16) ∷ []) (prepend ((w % 16 * 16 + x / 4) ∷ []) r))
        (b64_from-b64_char (after_three (x % 4)) 0 y s hy)

two_pads : (left : ℕ) → b64_from (after_two left) 0 (61 ∷ 61 ∷ []) ≡ some []
unfolding b64_from completes
two_pads left = refl

one_pad : (left : ℕ) → b64_from (after_three left) 0 (61 ∷ []) ≡ some []
unfolding b64_from completes
one_pad left = refl

decode-nil : b64decode [] ≡ some []
unfolding b64decode b64_from at_end
decode-nil = refl

two_equal : (x y a b : ℕ) → x ≡ a → y ≡ b → some (x ∷ y ∷ []) ≡ some (a ∷ b ∷ [])
two_equal x y a b e f = cc

three_equal :
    (x y z a b c : ℕ) (s : List ℕ)
    → x ≡ a
    → y ≡ b
    → z ≡ c
    → some (x ∷ y ∷ z ∷ s) ≡ some (a ∷ b ∷ c ∷ s)
three_equal x y z a b c s e f g = cc

-- What was encoded decodes to itself.
pub b64decode-b64encode : (s : List ℕ) → All IsByte s → b64decode (b64encode s) ≡ some s
unfolding b64encode prepend
b64decode-b64encode [] h = decode-nil
b64decode-b64encode (a ∷ []) h =
    decode-two (a / 4) (a % 4 * 16) (61 ∷ 61 ∷ []) (omega (arith, h.0)) (omega (arith, h.0))
    ∙ ap (prepend ((a / 4 * 4 + a % 4 * 16 / 16) ∷ [])) (two_pads (a % 4 * 16 % 16))
    ∙ ap (λ x. some (x ∷ [])) (omega (arith, h.0))
b64decode-b64encode (a ∷ b ∷ []) h =
    decode-three (a / 4) (a % 4 * 16 + b / 16) (b % 16 * 4) (61 ∷ []) (omega (arith, h.0))
      (omega (arith, h.0, h.1.0)) (omega (arith, h.1.0))
    ∙ ap
        (λ r.
          prepend ((a / 4 * 4 + (a % 4 * 16 + b / 16) / 16) ∷ [])
            (prepend (((a % 4 * 16 + b / 16) % 16 * 16 + b % 16 * 4 / 4) ∷ []) r))
        (one_pad (b % 16 * 4 % 4))
    ∙ two_equal _ _ a b (omega (arith, h.0, h.1.0)) (omega (arith, h.0, h.1.0))
b64decode-b64encode (a ∷ b ∷ c ∷ s) h =
    decode-four (a / 4) (a % 4 * 16 + b / 16) (b % 16 * 4 + c / 64) (c % 64) (b64encode s)
      (omega (arith, h.0)) (omega (arith, h.0, h.1.0)) (omega (arith, h.1.0, h.1.1.0)) (omega arith)
    ∙ rw (b64decode-b64encode s h.1.1.1) (
        three_equal _ _ _ a b c s (omega (arith, h.0, h.1.0)) (omega (arith, h.1.0, h.1.1.0))
          (omega (arith, h.1.1.0)))
