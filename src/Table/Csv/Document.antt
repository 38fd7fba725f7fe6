-- ===== src/Table/Csv/Document.antt =====
-- CSV files as a publisher writes them, independent of the reader: each field is bare or quoted,
-- lines end in LF, CR or CRLF, and blank lines may stand between the records.
use factbook_rs.Prelude.{
  ℕ, ◌+◌, ◌≤◌, ◌≡◌, ◌≢◌, Bool, true, false, ◌||◌, List, [], ◌∷◌, ◌++◌, map, All, Option, none, some,
  ◌==◌, if◌then◌else◌, length,
}
use factbook_rs.Prelude.Text.{Text, is_utf8}
use factbook_rs.Table.Csv.{
  quote, delimiter, line_feed, carriage_return, cell_overhead, row_overhead, max_field, max_fields,
  Record,
}

pub data Style : Type 0 where
  bare quoted : Style

pub record Written : Type 0 where
  pub style : Style
  pub text : Text

-- each quote twice
abbrev pub doubled : Text → Text
doubled [] = []
doubled (b ∷ bs) = if b == quote then quote ∷ quote ∷ doubled bs else b ∷ doubled bs

-- a field, in front of what follows it
abbrev pub write_field : Style → Text → Text → Text
write_field bare text rest = text ++ rest
write_field quoted text rest = quote ∷ (doubled text ++ quote ∷ rest)

-- the fields behind the first of a record
abbrev pub write_more : List Written → Text → Text
write_more [] rest = rest
write_more (w ∷ ws) rest = delimiter ∷ write_field w.style w.text (write_more ws rest)

abbrev pub write_row : Written → List Written → Text → Text
write_row w ws rest = write_field w.style w.text (write_more ws rest)

pub data Ending : Type 0 where
  lf cr crlf : Ending

abbrev pub write_ending : Ending → Text → Text
write_ending lf rest = line_feed ∷ rest
write_ending cr rest = carriage_return ∷ rest
write_ending crlf rest = carriage_return ∷ line_feed ∷ rest

pub data Line : Type 0 where
  blank : Line
  row : Written → List Written → Line

abbrev pub write_lines : Ending → List Line → Text → Text
write_lines e [] rest = rest
write_lines e (blank ∷ ls) rest = write_ending e (write_lines e ls rest)
write_lines e (row w ws ∷ ls) rest = write_row w ws (write_ending e (write_lines e ls rest))

-- A bare field holds no byte that the reader acts on, and does not begin with a quote.
abbrev pub acts : ℕ → Bool
acts b = b == delimiter || (b == line_feed || b == carriage_return)

abbrev pub IsBare : Text → Type 0
IsBare [] = Unit
IsBare (b ∷ bs) = ((b == quote) ≡ false) × (acts b ≡ false) × All (λ c. acts c ≡ false) bs

abbrev pub StyleFits : Style → Text → Type 0
StyleFits bare text = IsBare text
StyleFits quoted text = Unit

abbrev pub IsField : Written → Type 0
IsField w = StyleFits w.style w.text × (is_utf8 w.text ≡ true) × (length w.text ≤ max_field)

-- what a list of fields costs as cells, and a record as a row
abbrev pub cells_cost : List Text → ℕ
cells_cost [] = 0
cells_cost (t ∷ ts) = length t + cell_overhead + cells_cost ts

abbrev pub texts : List Written → List Text
texts = map (λ w. w.text)

abbrev pub occurrences : ℕ → Text → ℕ
occurrences byte [] = 0
occurrences byte (x ∷ text) = (if x == byte then 1 else 0) + occurrences byte text

-- the line feeds that a list of fields holds
abbrev pub feeds : List Written → ℕ
feeds [] = 0
feeds (w ∷ ws) = occurrences line_feed w.text + feeds ws

-- The lone bare empty field would be a blank line.
abbrev pub NotBlank : Written → List Written → Type 0
NotBlank (w) [] = (w.style ≡ bare) → w.text ≢ []
NotBlank w (_ ∷ _) = Unit

abbrev pub IsLine : Line → Type 0
IsLine blank = Unit
IsLine (row w ws) = IsField w × All IsField ws × NotBlank w ws × (length ws + 1 ≤ max_fields)

-- what the whole document costs
abbrev pub lines_cost : List Line → ℕ
lines_cost [] = 0
lines_cost (blank ∷ ls) = lines_cost ls
lines_cost (row w ws ∷ ls) = row_overhead + cells_cost (texts (w ∷ ws)) + lines_cost ls

-- the records that the document states, and the line on which each starts
abbrev pub records_from : ℕ → List Line → List Record
records_from n [] = []
records_from n (blank ∷ ls) = records_from (n + 1) ls
records_from n (row w ws ∷ ls) =
    (record { line = n; fields = texts (w ∷ ws) }) ∷ records_from (n + feeds (w ∷ ws) + 1) ls

-- the line behind some lines that start on line `n`
abbrev pub line_after : ℕ → List Line → ℕ
line_after n [] = n
line_after n (blank ∷ ls) = line_after (n + 1) ls
line_after n (row w ws ∷ ls) = line_after (n + feeds (w ∷ ws) + 1) ls

-- A document: its lines, and perhaps a record with no line ending behind it.
pub record Document : Type 0 where
  pub ending : Ending
  pub lines : List Line
  pub last : Option (Written × List Written)

abbrev pub write_last : Option (Written × List Written) → Text
write_last none = []
write_last (some (w, ws)) = write_row w ws []

abbrev pub write_document : Document → Text
write_document d = write_lines d.ending d.lines (write_last d.last)

abbrev pub last_line : Option (Written × List Written) → List Line
last_line none = []
last_line (some (w, ws)) = row w ws ∷ []

-- The records that the document states.
abbrev pub document_records : Document → List Record
document_records d =
    records_from 1 d.lines ++ records_from (line_after 1 d.lines) (last_line d.last)

abbrev pub document_cost : Document → ℕ
document_cost d = lines_cost d.lines + lines_cost (last_line d.last)

abbrev pub IsDocument : Document → Type 0
IsDocument d = All IsLine d.lines × All IsLine (last_line d.last)
