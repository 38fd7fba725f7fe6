-- ===== src/Table/ReadCsv.antt =====
-- src/table/parse.rs: a CSV file read into columns and rows.
pub mod Written
pub mod Bounds
pub mod Shape
pub mod Width
use factbook_rs.Prelude.{
  ℕ, Bool, true, false, not, Option, none, some, List, [], ◌∷◌, map, ◌==◌, if◌then◌else◌, length,
}
use factbook_rs.Prelude.Text.{Text}
use factbook_rs.Table.Cell.{Cell, Parsed, cell_of_text}
use factbook_rs.Table.Config.{Schema, auto, named}
use factbook_rs.Table.Csv.{Record, Csv, new, feed, finish}
use factbook_rs.Table.Error.{
  io, malformed, width, names_required, no_names, empty, Result, ok, err, ◌>>=◌, ◌>>◌,
}

-- What the reader hands out, chunk by chunk: `none` is a failed read, and an empty chunk the end.
abbrev pub Reader : Type 0
Reader = List (Option Text)

unfoldable pub feed_chunks : Csv → Reader → Result Csv
feed_chunks c [] = ok c
feed_chunks c (none ∷ _) = err io
feed_chunks c (some [] ∷ _) = ok c
feed_chunks c (some (b ∷ bs) ∷ chunks) = do next ← feed c (b ∷ bs); feed_chunks next chunks

-- the byte-order mark, in UTF-8
unfoldable pub strip_mark : Text → Text
strip_mark (a ∷ b ∷ c ∷ rest) =
    if a == 0xef
    then if b == 0xbb then if c == 0xbf then rest else a ∷ b ∷ c ∷ rest else a ∷ b ∷ c ∷ rest
    else a ∷ b ∷ c ∷ rest
strip_mark short = short

unfoldable pub strip_first : List Text → List Text
strip_first [] = []
strip_first (first ∷ more) = strip_mark first ∷ more

unfoldable pub strip_bom : List Record → List Record
strip_bom [] = []
strip_bom (r ∷ rs) = (record { line = r.line; fields = strip_first r.fields }) ∷ rs

unfoldable pub records : Reader → ℕ → Result (List Record × ℕ)
records reader ceiling = do
  csv ← feed_chunks (new ceiling) reader
  (rs, held) ← finish csv
  ok (strip_bom rs, held)

-- the columns, and the records that are left for rows
unfoldable pub header_columns : Bool → Schema → List Record → Result (List Text × List Record)
header_columns true auto [] = err empty
header_columns true auto (first ∷ rs) = ok (first.fields, rs)
header_columns true (named names) [] = err empty
header_columns true (named names) (first ∷ rs) = ok (names, rs)
header_columns false auto rs = err names_required
header_columns false (named names) rs = ok (names, rs)

-- the loop over the records
unfoldable pub rows_of : ℕ → List Record → Result (List (List Cell))
rows_of wide [] = ok []
rows_of wide (r ∷ rs) =
    if not (length r.fields == wide)
    then err (malformed r.line (width (length r.fields) wide))
    else rows_of wide rs >>= (λ rows. ok (map cell_of_text r.fields ∷ rows))

unfoldable pub refuse_none {ℓ} : {A : Type ℓ} → List A → Result (Unit {0}) → Result (Unit {0})
refuse_none [] refusal = refusal
refuse_none (x ∷ xs) refusal = ok tt

unfoldable pub read_csv : Reader → Bool → Schema → ℕ → Result Parsed
read_csv reader header schema ceiling = do
  (rs, held) ← records reader ceiling
  (columns, body) ← header_columns header schema rs
  refuse_none columns (err no_names)
  rows ← rows_of (length columns) body
  refuse_none rows (err empty)
  ok (record { columns = columns; rows = rows; held = held })
