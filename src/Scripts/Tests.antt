-- ===== src/Scripts/Tests.antt =====
-- Runs of the line coverage report.
use june_2026_tictactoe_bots.Prelude.{
  Bool-cases, inl, inr, List, if◌then◌else◌, ℕ, Bool, ◌&&◌, leb, ◌≡◌, refl, none, some, true, false,
  [], ◌∷◌, ◌++◌, ◌+◌, length, keep,
}
use june_2026_tictactoe_bots.Text.{Text, text_eq, codes, split, decimal}
use june_2026_tictactoe_bots.Pods.{is_truthy}
use june_2026_tictactoe_bots.Store.{Db, Bot}
use june_2026_tictactoe_bots.Utils.{Source, body, string_expr}
use june_2026_tictactoe_bots.Scripts.Export.{safe_filename, sanitize, read_file, export_all}
use june_2026_tictactoe_bots.Scripts.Exported.{last_source, export_all-last_source}
use june_2026_tictactoe_bots.Scripts.Coverage.{
  Range, Entry, line_coverage, summarize, spans, format_missing, is_code_line,
}
use june_2026_tictactoe_bots.Scripts.Report.{url_path, cut}
use june_2026_tictactoe_bots.Scripts.Lines.{scan_source, line_coverage-scan_source}
use june_2026_tictactoe_bots.Scripts.Counting.{uncovered, summarize-uncovered}
use june_2026_tictactoe_bots.Text.Quote.{quote, hex_digit, is_unreserved}
use june_2026_tictactoe_bots.Scripts.Reset.{
  QueueInfo, Management, ApiReply, replied, http_error, contents_url, purge_queue,
  purge_rabbitmq_queues,
}
use june_2026_tictactoe_bots.Scripts.Purging.{NeverRaises, Purges, purge_rabbitmq_queues-Purges}
use june_2026_tictactoe_bots.Scripts.Spans.{expand}

format_missing-four : format_missing (1 ∷ 2 ∷ 3 ∷ 7 ∷ []) ≡ codes "1-3, 7"
unfolding format_missing spans decimal
format_missing-four = refl

url_path-static : url_path (codes "http://web:8000/static/play.mjs") ≡ codes "/static/play.mjs"
unfolding url_path cut
url_path-static = refl

abbrev whole : Range
whole = record { start = 0; end = 9; count = 1 }

abbrev block : Range
block = record { start = 4; end = 9; count = 0 }

abbrev two_lines : Text
two_lines = codes "f()" ++ 10 ∷ codes "g()"

abbrev play_entry : Entry
play_entry = record {
  url = codes "http://web/static/play.mjs";
  source = some two_lines;
  functions = (whole ∷ []) ∷ (block ∷ []) ∷ [];
}

line_coverage-scan_source_example :
    line_coverage two_lines (whole ∷ block ∷ [])
    ≡ scan_source (whole ∷ block ∷ []) 0 false two_lines
line_coverage-scan_source_example = line_coverage-scan_source two_lines (whole ∷ block ∷ [])

summarize-uncovered_example :
    (expand (spans (summarize two_lines (true ∷ false ∷ [])).missing)
      ≡ uncovered 1 (split 10 two_lines) (true ∷ false ∷ []))
    × ((summarize two_lines (true ∷ false ∷ [])).hit
          + length (summarize two_lines (true ∷ false ∷ [])).missing
        ≡ (summarize two_lines (true ∷ false ∷ [])).total)
    × ((summarize two_lines (true ∷ false ∷ [])).total
        ≡ length (keep is_code_line (split 10 two_lines)))
summarize-uncovered_example = summarize-uncovered two_lines (true ∷ false ∷ [])

abbrev empty_site : Db
empty_site = record {
  bots = [];
  matches = [];
  moves = [];
  next_bot_id = 1;
  next_match_id = 1;
  now = 0;
}

abbrev stored : ℕ → Text → Bot
stored i name = record {
  id = i;
  base_name = name;
  versioned_name = name;
  version = 1;
  owner_token = codes "t";
  source = some (codes "print()");
  python_version = codes "3.12";
  runtime_key = codes "python-3.12";
  pod_name = none;
  pod_ready = false;
  submitted_at = i;
}

-- Two names that are made into one file name.
abbrev alike : Db
alike = record empty_site { bots = stored 1 (codes "a b") ∷ stored 2 (codes "a.b") ∷ [] }

one_file : safe_filename (codes "a b") ≡ safe_filename (codes "a.b")
unfolding safe_filename sanitize
one_file = refl

export_all-last_source_example :
    (read_file (codes "a_b.py") (export_all alike []).0
      ≡ last_source (codes "a_b.py") (read_file (codes "a_b.py") []) alike.bots)
    × ((export_all alike []).1 ≡ length (keep (λ b. is_truthy b.source) alike.bots))
export_all-last_source_example = export_all-last_source alike [] (codes "a_b.py")

abbrev is_ascii_digit : ℕ → Bool
is_ascii_digit c = leb 48 c && leb c 57

-- Every file is a bot of the name perfect.
abbrev parse : Text → Source
parse bytes = body (string_expr (codes "Name: perfect\n") ∷ [])

abbrev token : ℕ → Text
token n = decimal n

abbrev management : Management
management = record {
  url = codes "http://localhost:15672";
  user = codes "guest";
  password = codes "guest";
}

abbrev queues : List QueueInfo
queues =
    record { name = codes "matches.build"; vhost = codes "/" }
    ∷ record { name = codes "amq.gen-1"; vhost = codes "/" }
    ∷ record { name = codes "turn.312.requests"; vhost = codes "staging" }
    ∷ []

build_url :
    contents_url management (record { name = codes "matches.build"; vhost = codes "/" })
    ≡ codes "http://localhost:15672/api/queues/%2F/matches.build/contents"
unfolding quote hex_digit is_unreserved
build_url = refl

-- The first deletion is answered by 404.
abbrev delete : Text → ApiReply
delete url =
    if text_eq url (codes "http://localhost:15672/api/queues/%2F/matches.build/contents")
    then http_error 404
    else replied []

delete-NeverRaises : NeverRaises delete
unfolding purge_queue
delete-NeverRaises url h =
    elim (Bool-cases
      (text_eq url (codes "http://localhost:15672/api/queues/%2F/matches.build/contents"))) [
        | inl hit ↦ cc (rw hit at h)
        | inr miss ↦ cc (rw miss at h)
      ]

purge_rabbitmq_queues-Purges_example :
    Purges management delete
      (record { name = codes "matches.build"; vhost = codes "/" }
        ∷ record { name = codes "turn.312.requests"; vhost = codes "staging" }
        ∷ [])
      (purge_rabbitmq_queues management (replied queues) delete)
purge_rabbitmq_queues-Purges_example =
    purge_rabbitmq_queues-Purges management delete queues delete-NeverRaises
