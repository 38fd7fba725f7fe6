-- ===== src/Table/Cell.antt =====
-- src/table/parse.rs and mod.rs: cells, what they cost, and what the readers hand over.
use factbook_rs.Prelude.{ℕ, ◌+◌, ◌*◌, Option, none, some, List, [], ◌∷◌, length, get_elem?}
use factbook_rs.Prelude.Text.{Text}
use factbook_rs.Table.Csv.{cell_overhead, row_overhead}

-- One cell of a row. `none` is a value the source did not supply.
abbrev pub Cell : Type 0
Cell = Option Text

pub record Parsed : Type 0 where
  pub columns : List Text
  pub rows : List (List Cell)
  pub held : ℕ

-- `cell(cells, at)` of mod.rs
abbrev pub flat {ℓ} : {A : Type ℓ} → Option (Option A) → Option A
flat none = none
flat (some c) = c

unfoldable pub cell : List Cell → ℕ → Cell
cell cells at = flat (get_elem? cells at)

unfoldable pub cell_of_text : Text → Cell
cell_of_text [] = none
cell_of_text (b ∷ bs) = some (b ∷ bs)

abbrev pub cell_length : Cell → ℕ
cell_length none = 0
cell_length (some text) = length text

-- the sum of `footprint`
abbrev pub cells_footprint : List Cell → ℕ
cells_footprint [] = 0
cells_footprint (c ∷ cs) = cell_length c + cell_overhead + cells_footprint cs

unfoldable pub footprint : List Cell → ℕ
footprint row = cells_footprint row + row_overhead

unfoldable pub widened : ℕ → ℕ
widened rows = rows * cell_overhead
