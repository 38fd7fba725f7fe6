-- ===== src/Table/Build.antt =====
-- src/table/mod.rs: `Table`, how it is built from parsed rows, and how a key reaches its rows.
-- The log line about rows without a key is left out.
pub mod KeyColumn
pub mod Filed
pub mod Loops
pub mod Ranges
pub mod Indexed
pub mod Nonempty
pub mod Lookup
use factbook_rs.Net.Address.{IpAddr, IpAddr-Eq}
use factbook_rs.Net.Networks.{Networks}
use factbook_rs.Prelude.Keyed
use factbook_rs.Prelude.Text.{Text, text_eq}
use factbook_rs.Prelude.{
  ℕ, suc, ◌+◌, Bool, true, false, Option, none, some, List, [], ◌∷◌, ◌++◌, length, get_elem?,
}
use factbook_rs.Table.Cell.{Cell, Parsed, cell, flat}
use factbook_rs.Table.Config.{Index, ip, column}
use factbook_rs.Table.Error.{
  TableError, unknown_column, no_address_column, no_prefix_column, Result, ok, err, ◌>>=◌,
}
use factbook_rs.Table.Index.{
  Allocation, Budget, Text-Eq, charge, push, file, position, keyed_column, address_columns,
  prefix_columns, string_bytes,
}

abbrev pub or_else {ℓ} : {A : Type ℓ} → Option A → Option A → Option A
or_else none y = y
or_else (some x) y = some x

abbrev pub map_option {ℓ κ} : {A : Type ℓ} {B : Type κ} → (A → B) → Option A → Option B
map_option f none = none
map_option f (some x) = some (f x)

abbrev pub is_some {ℓ} : {A : Type ℓ} → Option A → Bool
is_some none = false
is_some (some x) = true

abbrev pub or_no_rows : Option (List ℕ) → List ℕ
or_no_rows none = []
or_no_rows (some list) = list

abbrev pub ok_or {ℓ} : {A : Type ℓ} → Option A → TableError → Result A
ok_or none e = err e
ok_or (some x) e = ok x

-- the loop that charges the column names
unfoldable pub charge_columns : Budget → List Text → Result Budget
charge_columns b [] = ok b
charge_columns b (c ∷ cs) = do
  charged ← charge b (length c + string_bytes)
  charge_columns charged cs

-- The tables of a program that links these crates.
module _ (net : Networks) where
  open net use {IpNet, PrefixMap, parse_address, parse_net, host}

  unfoldable pub as_prefix : Text → Option IpNet
  as_prefix raw = or_else (parse_net raw) (map_option host (parse_address raw))

  pub data Keys : Type 0 where
    text : List (Text × List ℕ) → Keys
    address : List (IpAddr × List ℕ) → List ℕ → Keys
    prefix : PrefixMap → List ℕ → Keys

  pub record Table : Type 0 where
    pub columns : List Text
    pub key_column : ℕ
    pub rows : List (List Cell)
    pub keys : Keys

  -- the column that the index names or finds
  unfoldable pub find_key_column : Index → List Text → List (List Cell) → Result ℕ
  find_key_column (column name) columns rows =
      ok_or (position (λ c. text_eq c name) columns) (unknown_column name columns)
  find_key_column ip columns rows =
      ok_or (keyed_column columns rows address_columns (λ raw. is_some (parse_address raw)))
        (no_address_column columns)
  find_key_column Index.prefix columns rows =
      ok_or (keyed_column columns rows prefix_columns (λ raw. is_some (as_prefix raw)))
        (no_prefix_column columns)

  unfoldable pub positions_in : Keys → Text → List ℕ
  positions_in (text filed) key = or_no_rows (Keyed.get key filed)
  positions_in _ key = []

  unfoldable pub positions_of : Table → Text → List ℕ
  unfolding positions_in
  positions_of t key = positions_in t.keys key

  unfoldable pub positions_under : Keys → IpAddr → List ℕ
  positions_under (text filed) a = []
  positions_under (address filed unindexed) a = or_no_rows (Keyed.get a filed)
  positions_under (prefix filed unindexed) a =
      or_no_rows (map_option (λ found. found.1) (net.get_lpm (host a) filed))

  unfoldable pub positions_at : Table → IpAddr → List ℕ
  unfolding positions_under
  positions_at t a = positions_under t.keys a

-- How they are built, on an allocator.
module _ (net : Networks) (alloc : Allocation) where
  open net use {IpNet, PrefixMap, parse_address}

  -- the loop over the rows, one for each kind of key
  unfoldable pub file_text :
      ℕ
      → ℕ
      → List (List Cell)
      → Budget
      → List (Text × List ℕ)
      → Result (Budget × List (Text × List ℕ))
  file_text key_column at [] b filed = ok (b, filed)
  file_text key_column at (row ∷ rows) b filed = elim (cell row key_column) [
    | none ↦ file_text key_column (suc at) rows b filed
    | some key ↦ file alloc b filed alloc.text_entry key (length key) at >>= λ r.
        file_text key_column (suc at) rows r.0 r.1
  ]

  unfoldable pub file_address :
      ℕ
      → ℕ
      → List (List Cell)
      → Budget
      → List (IpAddr × List ℕ)
      → List ℕ
      → Result (Budget × List (IpAddr × List ℕ) × List ℕ)
  file_address key_column at [] b filed unindexed = ok (b, filed, unindexed)
  file_address key_column at (row ∷ rows) b filed unindexed = elim (cell row key_column) [
    | none ↦ file_address key_column (suc at) rows b filed unindexed
    | some raw ↦ elim (parse_address raw) [
      | none ↦
          push alloc b unindexed at >>= λ r. file_address key_column (suc at) rows r.0 filed r.1
      | some key ↦ file alloc b filed alloc.address_entry key 0 at >>= λ r.
          file_address key_column (suc at) rows r.0 r.1 unindexed
    ]
  ]

  -- one row of the prefix index
  unfoldable pub file_range : Budget → PrefixMap → IpNet → ℕ → Result (Budget × PrefixMap)
  file_range b filed key at = elim (net.get key filed) [
    | some list ↦ push alloc b list at >>= λ r. ok (r.0, net.insert key r.1 filed)
    | none ↦ charge b alloc.prefix_entry_bytes >>= λ charged.
        push alloc charged [] at >>= λ r. ok (r.0, net.insert key r.1 filed)
  ]

  unfoldable pub file_prefix :
      ℕ → ℕ → List (List Cell) → Budget → PrefixMap → List ℕ → Result (Budget × PrefixMap × List ℕ)
  file_prefix key_column at [] b filed unindexed = ok (b, filed, unindexed)
  file_prefix key_column at (row ∷ rows) b filed unindexed = elim (cell row key_column) [
    | none ↦ file_prefix key_column (suc at) rows b filed unindexed
    | some raw ↦ elim (as_prefix net raw) [
      | none ↦ push alloc b unindexed at >>= λ r. file_prefix key_column (suc at) rows r.0 filed r.1
      | some key ↦
          file_range b filed key at >>= λ r. file_prefix key_column (suc at) rows r.0 r.1 unindexed
    ]
  ]

  unfoldable pub build_keys : Index → ℕ → List (List Cell) → Budget → Result (Keys net)
  build_keys (column name) key_column rows b =
      file_text key_column 0 rows b [] >>= λ r. ok (text r.1)
  build_keys ip key_column rows b =
      file_address key_column 0 rows b [] [] >>= λ r. ok (address r.1 r.2)
  build_keys Index.prefix key_column rows b =
      file_prefix key_column 0 rows b net.none_filed [] >>= λ r. ok (prefix r.1 r.2)

  unfoldable pub build : Parsed → Index → ℕ → Result (Table net)
  build parsed index ceiling = do
    b ← charge_columns (record { held = parsed.held; ceiling = ceiling }) parsed.columns
    key_column ← find_key_column net index parsed.columns parsed.rows
    keys ← build_keys index key_column parsed.rows b
    ok (record {
      columns = parsed.columns;
      key_column = key_column;
      rows = parsed.rows;
      keys = keys;
    })
