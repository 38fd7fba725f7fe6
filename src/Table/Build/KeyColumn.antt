-- ===== src/Table/Build/KeyColumn.antt =====
-- The column that a table is keyed by is one of its columns.
use factbook_rs.Net.Networks.{Networks}
use factbook_rs.Prelude.Text.{Text, text_eq, to_ascii_lowercase}
use factbook_rs.Prelude.{
  ℕ, suc, ◌+◌, ◌<◌, ◌≡◌, Bool, Option, none, some, List, [], ◌∷◌, arith, length, take, any,
}
use factbook_rs.Table.Build.{ok_or, find_key_column, as_prefix, is_some}
use factbook_rs.Table.Cell.{Cell}
use factbook_rs.Table.Config.{Index, ip, column}
use factbook_rs.Table.Error.{TableError, ok}
use factbook_rs.Table.Index.{
  position, first_held, holds, keyed_column, address_columns, prefix_columns, address_sample,
}

-- an answer below a bound, if there is one
abbrev Below : ℕ → Option ℕ → Type 0
Below n none = Unit
Below n (some at) = at < n

position-lt {ℓ} : {A : Type ℓ} (p : A → Bool) (xs : List A) → Below (length xs) (position p xs)
unfolding position
position-lt p [] = tt
position-lt p (x ∷ xs) = ground (arith, position-lt p xs)

first_held-lt :
    (test : ℕ → Bool) (from : ℕ) (cs : List Text)
    → Below (from + length cs) (first_held test from cs)
unfolding first_held
first_held-lt test from [] = tt
first_held-lt test from (c ∷ cs) = ground (arith, first_held-lt test (suc from) cs)

keyed_column-lt :
    (columns : List Text) (rows : List (List Cell)) (names : List Text) (parses : Text → Bool)
    → Below (length columns) (keyed_column columns rows names parses)
unfolding keyed_column
keyed_column-lt columns rows names parses =
    let test = λ (at : ℕ). holds parses at 0 (take address_sample rows) in
    ground (
      arith,
      position-lt (λ c. any (text_eq (to_ascii_lowercase c)) names) columns,
      first_held-lt test 0 columns,
    )

Below-lt : (n : ℕ) (o : Option ℕ) (e : TableError) {at : ℕ} → Below n o → ok_or o e ≡ ok at → at < n
Below-lt n none e b h = cc
Below-lt n (some x) e b h = ground arith

module _ (net : Networks) where
  pub find_key_column-lt :
      (index : Index) (columns : List Text) (rows : List (List Cell)) {at : ℕ}
      → find_key_column net index columns rows ≡ ok at
      → at < length columns
  unfolding find_key_column
  find_key_column-lt (column name) columns rows e =
      Below-lt (length columns) _ _ (position-lt (λ c. text_eq c name) columns) e
  find_key_column-lt ip columns rows e =
      Below-lt (length columns) _ _
        (keyed_column-lt columns rows address_columns (λ raw. is_some (net.parse_address raw))) e
  find_key_column-lt Index.prefix columns rows e =
      Below-lt (length columns) _ _
        (keyed_column-lt columns rows prefix_columns (λ raw. is_some (as_prefix net raw))) e
