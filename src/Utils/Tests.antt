-- ===== src/Utils/Tests.antt =====
-- Runs of web/utils.py.
use june_2026_tictactoe_bots.Prelude.{◌≡◌, ◌↔◌, refl, true, some, List, [], ◌∷◌, keep}
use june_2026_tictactoe_bots.Text.{codes, is_space, is_break}
use june_2026_tictactoe_bots.Utils.{
  Source, body, string_expr, docstring, declared_in, choose_runtime, extract_runtime_key,
  in_runtimes, extract_python_version, NamedMatch, group_matches_by_version,
}
use june_2026_tictactoe_bots.Utils.Fields.{extract_python_version_iff}
use june_2026_tictactoe_bots.Utils.Grouping.{group_of, involves, group_matches_by_version_lem}

abbrev source_312 : Source
source_312 = body (string_expr (codes "Name: Alice\nLanguage: python-3.12\n") ∷ [])

extract_runtime_key_runs : extract_runtime_key source_312 ≡ some (codes "python-3.12")
unfolding extract_runtime_key docstring declared_in choose_runtime is_space is_break
extract_runtime_key_runs = refl

-- A match of each version against another bot, and one of the first version against itself.
abbrev three_matches : List NamedMatch
three_matches =
    record { bot_x = codes "a"; bot_o = codes "b"; match_id = 1 }
    ∷ record { bot_x = codes "b"; bot_o = codes "aV2"; match_id = 2 }
    ∷ record { bot_x = codes "a"; bot_o = codes "a"; match_id = 3 }
    ∷ []

group_matches_by_version_lem_example :
    group_of (codes "a") (group_matches_by_version (codes "a" ∷ codes "aV2" ∷ []) three_matches)
    ≡ some (keep (involves (codes "a")) three_matches)
group_matches_by_version_lem_example =
    group_matches_by_version_lem (codes "a") (codes "a" ∷ codes "aV2" ∷ []) three_matches refl

extract_python_version_iff_example : (extract_python_version source_312 ≡ some (codes "3.12")) ↔ (
    (extract_runtime_key source_312 ≡ some (codes "python-3.12"))
    × (in_runtimes (codes "python-3.12") ≡ true))
extract_python_version_iff_example = extract_python_version_iff source_312 (codes "3.12")

version_312 : extract_python_version source_312 ≡ some (codes "3.12")
version_312 =
    (extract_python_version_iff source_312 (codes "3.12")).1 (extract_runtime_key_runs, refl)
