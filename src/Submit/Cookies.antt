-- ===== src/Submit/Cookies.antt =====
-- The ownership cookie: `parse_cookie` and `encode_cookie` of web/utils.py, and the upload of
-- web/submit.py with the cookie that the browser sends.
use june_2026_tictactoe_bots.Prelude.{
  ℕ, ◌≡◌, refl, sym, ap, ◌∙◌, ◌≢◌, Bool, Option, none, some, List, [], ◌∷◌, All,
}
use june_2026_tictactoe_bots.Text.{Text}
use june_2026_tictactoe_bots.Text.Quote.{quote, unquote, IsAscii, unquote-quote, quote-ne-nil}
use june_2026_tictactoe_bots.Pods.{Attempt, ok, raised}
use june_2026_tictactoe_bots.Utils.{Source}
use june_2026_tictactoe_bots.Submit.{
  World, Owned, Response, Page, rejected, submitted, taken, handle_submission,
}

-- The value of a cookie: a dict of strings, or JSON that is no dict.
pub data CookieValue : Type 0 where
  dict : Owned → CookieValue
  not_dict : CookieValue

-- `json.loads` and `json.dumps` on such values, and the decoding of UTF-8.
pub record Codec : Type 0 where
  pub loads : Text → Attempt CookieValue
  pub dumps : Owned → Text
  pub decode : List ℕ → Text

-- `parse_cookie`; the exceptions of `json.loads` give the empty dict.
unfoldable pub parse_cookie : Codec → Option Text → CookieValue
parse_cookie codec none = dict []
parse_cookie codec (some []) = dict []
parse_cookie codec (some (c ∷ s)) = elim (codec.loads (unquote codec.decode (c ∷ s))) [
  | raised ↦ dict []
  | ok value ↦ value
]

-- `encode_cookie`
unfoldable pub encode_cookie : Codec → Owned → Text
encode_cookie codec owned = quote (codec.dumps owned)

-- A value that is no dict raises where it is read, if the name has an owner, and else where it is
-- written, behind the insert and the messages.
abbrev pub raise_late : Attempt Page → Attempt Page
raise_late (ok (submitted name owned)) = raised
raise_late (ok (rejected (taken name))) = raised
raise_late page = page

abbrev pub submit_with : (ℕ → Bool) → (Text → Source) → World → CookieValue → Text → Text → Response
submit_with is_digit parse w (dict owned) new_token bytes =
    handle_submission is_digit parse w owned new_token bytes
submit_with is_digit parse w not_dict new_token bytes =
    let r = handle_submission is_digit parse w [] new_token bytes in (r.0, raise_late r.1)

-- `handle_submission` with the cookie of the request.
unfoldable pub submit_cookie :
    Codec → (ℕ → Bool) → (Text → Source) → World → Option Text → Text → Text → Response
submit_cookie codec is_digit parse w cookie new_token bytes =
    submit_with is_digit parse w (parse_cookie codec cookie) new_token bytes

-- `json.dumps` prints the dict in ASCII, with a brace first, and `json.loads` reads it back; UTF-8 leaves
-- ASCII bytes alone.
pub record IsCodec (codec : Codec) (owned : Owned) : Type 0 where
  pub reads_back : codec.loads (codec.dumps owned) ≡ ok (dict owned)
  pub ascii : All IsAscii (codec.dumps owned)
  pub brace : (s : Text) × (codec.dumps owned ≡ 123 ∷ s)
  pub utf8 : (s : Text) → All IsAscii s → codec.decode s ≡ s

loaded :
    (codec : Codec) (text : Text) (owned : Owned)
    → text ≢ []
    → codec.loads (unquote codec.decode text) ≡ ok (dict owned)
    → parse_cookie codec (some text) ≡ dict owned
unfolding parse_cookie
loaded codec [] owned n e = absurd (n refl)
loaded codec (c ∷ s) owned n e = rw (e, parse_cookie) refl

-- A cookie that the site sets is read back as the dict that it was made from.
pub parse_cookie-encode_cookie :
    (codec : Codec) (owned : Owned)
    → IsCodec codec owned
    → parse_cookie codec (some (encode_cookie codec owned)) ≡ dict owned
unfolding encode_cookie
parse_cookie-encode_cookie codec owned v =
    let (s, e) = v.brace in
    loaded codec (quote (codec.dumps owned)) owned (λ h. quote-ne-nil 123 s (ap quote (sym e) ∙ h))
      (ap codec.loads (unquote-quote codec.decode (codec.dumps owned) v.utf8 v.ascii)
        ∙ v.reads_back)
