-- ===== src/Table/Build/Indexed.antt =====
-- What `build` guarantees of a table, and what its lookups answer.
use mathlib.Core.Path.{subst}
use factbook_rs.Net.Address.{IpAddr, v4, IpAddr-Eq, address_eq}
use factbook_rs.Net.Networks.{Networks}
use factbook_rs.Prelude.Keyed
use factbook_rs.Prelude.Text.{Text, text_eq}
use factbook_rs.Prelude.{ℕ, ◌<◌, ◌≡◌, sym, ap, ◌∙◌, some, List, [], ◌++◌, length}
use factbook_rs.Table.Build.Loops.{rows_under, rows_unparsed, get-file_text, get-file_address}
use factbook_rs.Table.Build.KeyColumn.{find_key_column-lt}
use factbook_rs.Table.Build.Ranges.{get-file_prefix}
use factbook_rs.Table.Build.{
  or_no_rows, as_prefix, Keys, text, address, prefix, Table, charge_columns, find_key_column,
  build_keys, build, file_text, file_address, file_prefix,
}
use factbook_rs.Table.Cell.{Cell, Parsed}
use factbook_rs.Table.Config.{Index, ip, column}
use factbook_rs.Table.Error.{ok, >>=-eq-ok, ok-injective}
use factbook_rs.Table.Index.{Allocation, Budget, Text-Eq}

module _ (net : Networks) where
  open net use {IpNet, parse_address, host, same, contains, prefix_len}

  -- The keys are the specification's index of the rows by a column.
  abbrev pub KeysFiled : ℕ → List (List Cell) → Keys net → Type 0
  KeysFiled kc rows (text filed) =
      (k : Text) → or_no_rows (Keyed.get k filed) ≡ rows_under some text_eq k kc 0 rows
  KeysFiled kc rows (address filed unindexed) =
      ((k : IpAddr)
        → or_no_rows (Keyed.get k filed) ≡ rows_under parse_address address_eq k kc 0 rows)
      × (unindexed ≡ rows_unparsed parse_address kc 0 rows)
  KeysFiled kc rows (prefix filed unindexed) =
      ((k : IpNet) → or_no_rows (net.get k filed) ≡ rows_under (as_prefix net) same k kc 0 rows)
      × (unindexed ≡ rows_unparsed (as_prefix net) kc 0 rows)

  abbrev pub IsIndexed : Table net → Type 0
  IsIndexed t = KeysFiled t.key_column t.rows t.keys

abbrev unspecified : IpAddr
unspecified = v4 (record { a = 0; b = 0; c = 0; d = 0 })

module _ (net : Networks) (alloc : Allocation) where
  open net use {host, same}

  build_keys-KeysFiled :
      (index : Index) (kc : ℕ) (rows : List (List Cell)) (b : Budget) {keys : Keys net}
      → build_keys net alloc index kc rows b ≡ ok keys
      → KeysFiled net kc rows keys
  unfolding build_keys Keyed.get
  build_keys-KeysFiled (column name) kc rows b e =
      let (r, got, e₁) = >>=-eq-ok (file_text net alloc kc 0 rows b []) _ e in
      subst (KeysFiled net kc rows) {x = text r.1} (ok-injective e₁)
        (λ k. get-file_text net alloc kc rows 0 b [] k got)
  build_keys-KeysFiled ip kc rows b e =
      let (r, got, e₁) = >>=-eq-ok (file_address net alloc kc 0 rows b [] []) _ e in
      subst (KeysFiled net kc rows) {x = address r.1 r.2} (ok-injective e₁) (
        λ k. (get-file_address net alloc kc rows 0 b [] [] k got).0,
        (get-file_address net alloc kc rows 0 b [] [] unspecified got).1,
      )
  build_keys-KeysFiled Index.prefix kc rows b e =
      let (r, got, e₁) = >>=-eq-ok (file_prefix net alloc kc 0 rows b net.none_filed []) _ e in
      subst (KeysFiled net kc rows) {x = prefix r.1 r.2} (ok-injective e₁) (
        λ k.
            (get-file_prefix net alloc kc rows 0 b net.none_filed [] k got).0
            ∙ ap (λ l. or_no_rows l ++ rows_under (as_prefix net) same k kc 0 rows)
                (net.get-none_filed k),
        (get-file_prefix net alloc kc rows 0 b net.none_filed [] (host unspecified) got).1,
      )

  -- A table that is built keeps the columns and rows that were read, its key column is one of its
  -- columns, and its index files exactly the rows whose key cell reads as a key under that key, in
  -- file order, beside those whose key cell is there and does not read as one.
  pub build-IsIndexed :
      (parsed : Parsed) (index : Index) (ceiling : ℕ) {t : Table net}
      → build net alloc parsed index ceiling ≡ ok t
      → IsIndexed net t
        × (t.key_column < length t.columns)
        × (t.columns ≡ parsed.columns)
        × (t.rows ≡ parsed.rows)
  unfolding build
  build-IsIndexed parsed index ceiling e =
      let (b, charged, e₁) =
        >>=-eq-ok (charge_columns (record { held = parsed.held; ceiling = ceiling }) parsed.columns)
          _ e in
      let (kc, found, e₂) = >>=-eq-ok (find_key_column net index parsed.columns parsed.rows) _ e₁ in
      let (keys, made, e₃) = >>=-eq-ok (build_keys net alloc index kc parsed.rows b) _ e₂ in
      let same_table = ok-injective e₃ in
      (
        subst (IsIndexed net) same_table (build_keys-KeysFiled index kc parsed.rows b made),
        subst (λ t. t.key_column < length t.columns) same_table
            (find_key_column-lt net index parsed.columns parsed.rows found),
        ap (λ t. t.columns) (sym same_table),
        ap (λ t. t.rows) (sym same_table),
      )
