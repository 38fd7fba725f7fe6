-- ===== src/Table/ReadCsv/Width.antt =====
-- A file with a record of the wrong width is refused, under the line that the record starts on.
use factbook_rs.Prelude.{ℕ, suc, ◌≡◌, List, ◌∷◌, ◌++◌, Option, length}
use factbook_rs.Prelude.Text.{Text}
use factbook_rs.Table.Csv.Document.{Document, Ending, Line, blank, row, Written, line_after}

-- a line of so many fields, or a blank one
abbrev pub Fits : ℕ → Line → Type 0
Fits wide blank = Unit
Fits wide (row w ws) = suc (length ws) ≡ wide

-- the document with a header, a row of some width behind good lines, and anything behind that
abbrev pub flawed :
    Ending
    → Written
    → List Written
    → List Line
    → Written
    → List Written
    → List Line
    → Option (Written × List Written)
    → Document
flawed ending h hs good w ws after last = record {
  ending = ending;
  lines = row h hs ∷ (good ++ row w ws ∷ after);
  last = last;
}

-- the line on which the flawed row starts
abbrev pub line_of : Written → List Written → List Line → ℕ
line_of h hs good = line_after 1 (row h hs ∷ good)
