-- ===== src/Submit/Tests.antt =====
-- Runs of web/submit.py, with the ASCII digits as the class of digits.
use june_2026_tictactoe_bots.Prelude.{
  ◌≢◌, if◌then◌else◌, ℕ, ◌≡◌, refl, arith, Bool, true, false, ◌&&◌, none, some, [], ◌∷◌, All, leb,
}
use june_2026_tictactoe_bots.Text.{Text, codes, text_eq, is_space, is_break}
use june_2026_tictactoe_bots.Pods.{ok, raised}
use june_2026_tictactoe_bots.Store.{NewBot, bot_row, owner_token, create, next_version, max_version}
use june_2026_tictactoe_bots.Utils.{
  Source, body, string_expr, docstring, declared_in, choose_runtime, name_in, extract_bot_name,
  extract_runtime_key, versioned_name, python_version_from_runtime_key,
}
use june_2026_tictactoe_bots.Submit.{
  World, Owned, bot_uploaded, submitted, resolve_owner_token, store_bot, submit_valid, rejected,
  taken, ends_in_version, is_reserved, validate_bot_name, handle_submission,
}
use june_2026_tictactoe_bots.Submit.Cookies.{Codec, dict, IsCodec, encode_cookie, submit_cookie}
use june_2026_tictactoe_bots.Submit.Returning.{owner_returns}
use june_2026_tictactoe_bots.Submit.Names.{IsDigitClass}
use june_2026_tictactoe_bots.Submit.Versions.{IsNamed}
use june_2026_tictactoe_bots.Submit.Effects.{Handled, handle_submission-Handled}
use june_2026_tictactoe_bots.Submit.Owners.{OneOwner}
use june_2026_tictactoe_bots.Submit.Strangers.{rows_of, strangers_shut_out}

abbrev is_ascii_digit : ℕ → Bool
is_ascii_digit c = leb 48 c && leb c 57

is_ascii_digit-IsDigitClass : IsDigitClass is_ascii_digit
is_ascii_digit-IsDigitClass = record { ascii = λ c h. ground (arith, h); not_v = refl }

abbrev alice : NewBot
alice = record {
  base_name = codes "alice";
  versioned_name = codes "alice";
  version = 1;
  owner_token = codes "a1";
  python_version = codes "3.12";
  runtime_key = codes "python-3.12";
  source = none;
}

abbrev world : World
world = record {
  db = record {
    bots = bot_row 1 0 alice ∷ [];
    matches = [];
    moves = [];
    next_bot_id = 2;
    next_match_id = 1;
    now = 0;
  };
  build_queue = [];
  events = [];
  takes_job = true;
  takes_event = true;
}

world-IsNamed : All (IsNamed is_ascii_digit) world.db.bots
unfolding versioned_name is_reserved ends_in_version
world-IsNamed = (record { named = refl; unreserved = refl }, tt)

world-OneOwner : OneOwner world.db
unfolding owner_token
world-OneOwner = ((refl, λ h. cc), tt)

-- Every file is a bot of the name alice.
abbrev parse : Text → Source
parse bytes = body (string_expr (codes "Name: alice\nLanguage: python-3.12\n") ∷ [])

bob_free : is_reserved is_ascii_digit (codes "bob") ≡ false
unfolding is_reserved ends_in_version
bob_free = refl

handle_submission-Handled_example :
    Handled is_ascii_digit world []
      (codes "t2")
      (codes "x")
      (handle_submission is_ascii_digit parse world [] (codes "t2") (codes "x"))
handle_submission-Handled_example =
    handle_submission-Handled is_ascii_digit is_ascii_digit-IsDigitClass world world-IsNamed parse
      [] (codes "t2") (codes "x")

parsed_name : extract_bot_name (parse []) ≡ some (codes "alice")
unfolding extract_bot_name docstring name_in is_space is_break
parsed_name = refl

alice_owner : owner_token world.db (codes "alice") ≡ some (codes "a1")
unfolding owner_token
alice_owner = refl

strangers_shut_out_example :
    rows_of
      (codes "alice")
      (handle_submission is_ascii_digit parse world [] (codes "t2") (codes "x")).0.db
    ≡ rows_of (codes "alice") world.db
strangers_shut_out_example =
    strangers_shut_out is_ascii_digit parse world [] (codes "t2") (codes "x") (codes "alice")
      (codes "a1") is_ascii_digit-IsDigitClass world-IsNamed alice_owner (λ h. cc) (λ h. cc)

abbrev empty_world : World
empty_world = record world { db = record world.db { bots = []; next_bot_id = 1 } }

abbrev held : Owned
held = (codes "alice", codes "t1") ∷ []

abbrev first_row : NewBot
first_row = record alice { owner_token = codes "t1"; source = some (codes "x") }

abbrev accepted : World
accepted = record empty_world {
  db = record empty_world.db { bots = bot_row 1 0 first_row ∷ []; next_bot_id = 2 };
  build_queue = record { bot_id = 1; runtime_key = codes "python-3.12" } ∷ [];
  events = bot_uploaded (codes "alice") ∷ [];
}

upload_runs :
    handle_submission is_ascii_digit parse empty_world [] (codes "t1") (codes "x")
    ≡ (accepted, ok (submitted (codes "alice") held))
unfolding handle_submission extract_bot_name docstring name_in extract_runtime_key declared_in
    choose_runtime is_space is_break validate_bot_name is_reserved ends_in_version submit_valid
    store_bot resolve_owner_token owner_token create next_version max_version versioned_name
    python_version_from_runtime_key
upload_runs = refl

-- A codec that knows one dict.
abbrev codec : Codec
codec = record {
  loads = λ text. if text_eq text (codes "{}") then ok (dict held) else raised;
  dumps = λ owned. codes "{}";
  decode = λ bytes. bytes;
}

codec-IsCodec : IsCodec codec held
codec-IsCodec = record {
  reads_back = refl;
  ascii = (omega arith, (omega arith, tt));
  brace = (125 ∷ [], refl);
  utf8 = λ s h. refl;
}

owner_returns_example :
    (submit_cookie codec is_ascii_digit parse accepted
      (some (encode_cookie codec held))
      (codes "t2")
      (codes "y")).1
    ≢ ok (rejected (taken (codes "alice")))
owner_returns_example =
    owner_returns codec is_ascii_digit parse empty_world accepted [] held (codes "t1") (codes "t2")
      (codes "x") (codes "y") (codes "alice") (codes "alice") (codes "alice") codec-IsCodec
      parsed_name parsed_name upload_runs
