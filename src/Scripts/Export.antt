-- ===== src/Scripts/Export.antt =====
-- scripts/export_bots.py: the files that it writes, by their names, and the table of the leaderboard.
use june_2026_tictactoe_bots.Prelude.{
  ℕ, suc, ◌+◌, Bool, true, false, ◌&&◌, ◌||◌, Option, none, some, List, [], ◌∷◌, ◌++◌, leb, ◌==◌,
  if◌then◌else◌,
}
use june_2026_tictactoe_bots.Text.{Text, codes, text_eq, decimal}
use june_2026_tictactoe_bots.Store.{Db, Bot}
use june_2026_tictactoe_bots.Store.Leaderboard.{Standing, leaderboard}

-- `[A-Za-z0-9_-]`
abbrev pub is_plain : ℕ → Bool
is_plain c =
    (leb 65 c && leb c 90)
    || (leb 97 c && leb c 122)
    || (leb 48 c && leb c 57)
    || (c == 95)
    || (c == 45)

-- `_UNSAFE.sub("_", name)`; the flag tells that the character before was replaced.
unfoldable pub sanitize : Bool → Text → Text
sanitize in_run [] = []
sanitize in_run (c ∷ s) =
    let kept = sanitize false s in
    let replaced = sanitize true s in
    if is_plain c then c ∷ kept else if in_run then replaced else 95 ∷ replaced

-- `safe_filename`
unfoldable pub safe_filename : Text → Text
unfolding sanitize
safe_filename versioned_name = sanitize false versioned_name ++ codes ".py"

-- The files of the directory by their names: the newest one first.
abbrev pub Directory : Type 0
Directory = List (Text × Text)

-- What the file of a name holds.
unfoldable pub read_file : Text → Directory → Option Text
read_file name [] = none
read_file name ((n, bytes) ∷ files) = if text_eq n name then some bytes else read_file name files

-- One round of the loop of `export_all`; a row with no source is skipped.
abbrev pub export_source : Text → Option Text → Directory × ℕ → Directory × ℕ
export_source name none (files, written) = (files, written)
export_source name (some []) (files, written) = (files, written)
export_source name (some (c ∷ s)) (files, written) =
    ((safe_filename name, c ∷ s) ∷ files, written + 1)

unfoldable pub export_bots : List Bot → Directory × ℕ → Directory × ℕ
export_bots [] out = out
export_bots (b ∷ bs) out = export_bots bs (export_source b.versioned_name b.source out)

-- `export_all`, into a directory: its files after it, and the number that it returns.
unfoldable pub export_all : Db → Directory → Directory × ℕ
unfolding export_bots
export_all db files = export_bots db.bots (files, 0)

-- `_md_escape`
unfoldable pub md_escape : Text → Text
md_escape [] = []
md_escape (c ∷ s) = let rest = md_escape s in if c == 124 then 92 ∷ 124 ∷ rest else c ∷ rest

abbrev pub cell_end : Text
cell_end = codes " | "

-- A line of the table.
unfoldable pub md_row : ℕ → Standing → Text
unfolding md_escape
md_row i r =
    codes "| "
    ++ decimal i
    ++ cell_end
    ++ md_escape r.versioned_name
    ++ cell_end
    ++ decimal r.clean_wins
    ++ cell_end
    ++ decimal r.forfeit_wins
    ++ cell_end
    ++ decimal r.draws
    ++ cell_end
    ++ decimal r.losses
    ++ cell_end
    ++ decimal r.lifetime_wins
    ++ codes "-"
    ++ decimal r.lifetime_losses
    ++ codes " |"

-- The lines after the header, each with its line feed.
unfoldable pub md_rows : ℕ → List Standing → Text
unfolding md_row
md_rows i [] = []
md_rows i (r ∷ rows) = md_row i r ++ 10 ∷ md_rows (suc i) rows

-- `render_leaderboard_md`
unfoldable pub render_leaderboard_md : List Standing → Text
unfolding md_rows
render_leaderboard_md [] =
    codes "# Leaderboard" ++ 10 ∷ 10 ∷ codes "No bots submitted yet." ++ 10 ∷ []
render_leaderboard_md (r ∷ rows) =
    codes "# Leaderboard"
    ++ 10 ∷ 10 ∷ codes "| # | Bot | Clean Wins | Forfeit Wins | Draws | Losses | Lifetime |"
    ++ 10 ∷ codes "|---|-----|------------|--------------|-------|--------|----------|"
    ++ 10 ∷ md_rows 1 (r ∷ rows)

-- `export_leaderboard`
unfoldable pub export_leaderboard : Db → Directory → Directory
unfolding render_leaderboard_md
export_leaderboard db files =
    (codes "leaderboard.md", render_leaderboard_md (leaderboard db)) ∷ files
