-- ===== src/Table/Build/Lookup.antt =====
-- What `positions_of` and `positions_at` answer on a table that was built.
use factbook_rs.Net.Address.{IpAddr, IpAddr-Eq, address_eq}
use factbook_rs.Net.Networks.{Networks}
use factbook_rs.Prelude.Text.{Text, text_eq}
use factbook_rs.Prelude.{ℕ, ◌≤◌, ◌≡◌, ◌≢◌, true, some, List, [], ◌⊎◌}
use factbook_rs.Table.Build.Loops.{rows_under}
use factbook_rs.Table.Build.Nonempty.{NoneEmpty}
use factbook_rs.Table.Build.{
  as_prefix, Keys, text, address, prefix, Table, positions_of, positions_at,
}
use factbook_rs.Table.Cell.{Cell}
use factbook_rs.Table.Config.{Index, ip, column}
use factbook_rs.Table.Index.{Text-Eq}

module _ (net : Networks) where
  open net use {IpNet, parse_address, host, same, contains, prefix_len}

  -- The rows of the longest prefix among the key cells that holds the address, or no row when none
  -- of them holds it.
  abbrev pub IsLongest : ℕ → List (List Cell) → IpAddr → List ℕ → Type 0
  IsLongest kc rows a found =
      let under = λ (n : IpNet). rows_under (as_prefix net) same n kc 0 rows in
      ((n : IpNet) × (contains n (host a) ≡ true)
        × (found ≡ under n)
        × (found ≢ [])
        × ((k : IpNet) → contains k (host a) ≡ true → under k ≢ [] → prefix_len k ≤ prefix_len n))
      ⊎ ((found ≡ []) × ((k : IpNet) → contains k (host a) ≡ true → under k ≡ []))

  -- What lookups answer, by the index that the source states.
  abbrev pub Answers : Index → Table net → Type 0
  Answers (column name) t =
      ((k : Text) → positions_of net t k ≡ rows_under some text_eq k t.key_column 0 t.rows)
      × ((a : IpAddr) → positions_at net t a ≡ [])
  Answers ip t =
      ((k : Text) → positions_of net t k ≡ [])
      × ((a : IpAddr)
          → positions_at net t a ≡ rows_under parse_address address_eq a t.key_column 0 t.rows)
  Answers Index.prefix t =
      ((k : Text) → positions_of net t k ≡ [])
      × ((a : IpAddr) → IsLongest t.key_column t.rows a (positions_at net t a))

  -- the keys that each index builds
  abbrev KindOf : Index → Keys net → Type 0
  KindOf (column name) (text filed) = Unit
  KindOf ip (address filed unindexed) = Unit
  KindOf Index.prefix (prefix filed unindexed) = NoneEmpty net filed
  KindOf _ _ = ⊥
