-- ===== src/Tests/Files.antt =====
-- The theorem on a flawed file applied: a short row behind a blank line and a row whose quoted field
-- holds a line feed.
use factbook_rs.Prelude.Text.{Text, codes}
use factbook_rs.Prelude.{List, [], ◌∷◌}
use factbook_rs.Table.Csv.Document.{Line, row, blank, bare, quoted, Written}

abbrev plain : Text → Written
plain text = record { style = bare; text = text }

abbrev good : List Line
good = blank ∷ row (record { style = quoted; text = codes "a\n" }) (plain (codes "b") ∷ []) ∷ []

abbrev pieces : List Text
pieces = codes "owner,ip\n\n\"a" ∷ codes "\n\",b\nshort\n" ∷ []
