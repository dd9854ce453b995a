-- ===== src/Scripts/Exported.antt =====
-- `export_all` of export_bots.py: the files that it leaves in the directory.
use june_2026_tictactoe_bots.Prelude.{
  ℕ, ◌+◌, ◌≡◌, refl, ◌∙◌, ap, Option, none, some, List, [], ◌∷◌, length, keep, arith, inl, inr,
  Bool-cases, if◌then◌else◌,
}
use june_2026_tictactoe_bots.Text.{Text, text_eq}
use june_2026_tictactoe_bots.Store.{Db, Bot}
use june_2026_tictactoe_bots.Pods.{is_truthy}
use june_2026_tictactoe_bots.Scripts.Export.{
  safe_filename, Directory, read_file, export_source, export_bots, export_all,
}

-- The source of the last of the rows that have one and this file name, or the file that was there.
unfoldable pub last_source : Text → Option Text → List Bot → Option Text
last_source name before [] = before
last_source name before (b ∷ bs) =
    last_source name
      (if is_truthy b.source
        then if text_eq (safe_filename b.versioned_name) name then b.source else before
        else before)
      bs

read_file-export_source :
    (name vname : Text) (source : Option Text) (files : Directory) (n : ℕ)
    → read_file name (export_source vname source (files, n)).0 ≡ (
        if is_truthy source
        then if text_eq (safe_filename vname) name then source else read_file name files
        else read_file name files)
unfolding read_file
read_file-export_source name vname none files n = refl
read_file-export_source name vname (some []) files n = refl
read_file-export_source name vname (some (c ∷ s)) files n = refl

written-export_source :
    (vname : Text) (source : Option Text) (files : Directory) (n : ℕ)
    → (export_source vname source (files, n)).1 ≡ (if is_truthy source then n + 1 else n)
written-export_source vname none files n = refl
written-export_source vname (some []) files n = refl
written-export_source vname (some (c ∷ s)) files n = refl

read_file-export_bots :
    (name : Text) (bs : List Bot) (files : Directory) (n : ℕ)
    → read_file name (export_bots bs (files, n)).0 ≡ last_source name (read_file name files) bs
unfolding export_bots last_source
read_file-export_bots name [] files n = refl
read_file-export_bots name (b ∷ bs) files n =
    let out : Directory × ℕ = export_source b.versioned_name b.source (files, n) in
    read_file-export_bots name bs out.0 out.1
    ∙ ap (λ o. last_source name o bs)
        (read_file-export_source name b.versioned_name b.source files n)

written-export_bots :
    (bs : List Bot) (files : Directory) (n : ℕ)
    → (export_bots bs (files, n)).1 ≡ n + length (keep (λ b. is_truthy b.source) bs)
unfolding export_bots
written-export_bots [] files n = omega arith
written-export_bots (b ∷ bs) files n =
    let out : Directory × ℕ = export_source b.versioned_name b.source (files, n) in
    let here = written-export_source b.versioned_name b.source files n in
    written-export_bots bs out.0 out.1 ∙ elim (Bool-cases (is_truthy b.source)) [
      | inl e ↦ rw e (omega (arith, rw e at here))
      | inr e ↦ rw e (omega (arith, rw e at here))
    ]

-- After the export the file of every name holds the source of the last row that has one and this file
-- name, and is as before where no row has; the number that is returned counts the rows with a source,
-- also where two of them share a file.
pub export_all-last_source :
    (db : Db) (files : Directory) (name : Text)
    → (read_file name (export_all db files).0 ≡ last_source name (read_file name files) db.bots)
      × ((export_all db files).1 ≡ length (keep (λ b. is_truthy b.source) db.bots))
unfolding export_all
export_all-last_source db files name =
    (read_file-export_bots name db.bots files 0, written-export_bots db.bots files 0 ∙ omega arith)
