-- ===== src/Net/Networks.antt =====
-- What `table` relies on of `std::net`'s text form of an address and of the crates `ipnet` and
-- `prefix_trie`, as an interface. The laws are those that the crates document: a prefix map files
-- one value under each network, where prefixes with the same network bits and length are the same
-- key, and `get_lpm` answers with the longest stored prefix that contains another.
use factbook_rs.Prelude.{ℕ, ◌≤◌, ◌≡◌, ◌≢◌, Bool, true, Option, none, some, List, if◌then◌else◌}
use factbook_rs.Prelude.Text.{Text}
use factbook_rs.Net.Address.{IpAddr}

pub record Networks : Type 1 where
  -- `str::parse::<IpAddr>().ok()`
  pub parse_address : Text → Option IpAddr
  pub IpNet : Type 0
  -- `str::parse::<IpNet>().ok()`, and `IpNet::from(IpAddr)`
  pub parse_net : Text → Option IpNet
  pub host : IpAddr → IpNet
  -- `IpNet`'s own `==`
  pub net_eq : IpNet → IpNet → Bool
  pub eq_of_net_eq : (m n : IpNet) → net_eq m n ≡ true → m ≡ n
  pub prefix_len : IpNet → ℕ
  -- whether the first holds every address of the second
  pub contains : IpNet → IpNet → Bool
  -- the key equality of the prefix map
  pub same : IpNet → IpNet → Bool
  pub same_refl : (n : IpNet) → same n n ≡ true
  -- `JointPrefixMap<IpNet, Vec<usize>>`
  pub PrefixMap : Type 0
  pub none_filed : PrefixMap
  pub get : IpNet → PrefixMap → Option (List ℕ)
  pub insert : IpNet → List ℕ → PrefixMap → PrefixMap
  pub get_lpm : IpNet → PrefixMap → Option (IpNet × List ℕ)
  pub get-none_filed : (n : IpNet) → get n none_filed ≡ none
  pub get_same : (n k : IpNet) (m : PrefixMap) → same n k ≡ true → get n m ≡ get k m
  pub get-insert :
      (n k : IpNet) (v : List ℕ) (m : PrefixMap)
      → get k (insert n v m) ≡ (if same n k then some v else get k m)
  pub get_lpm_contains :
      (a : IpNet) (m : PrefixMap) (n : IpNet) (v : List ℕ)
      → get_lpm a m ≡ some (n, v)
      → (contains n a ≡ true) × (get n m ≡ some v)
  pub get_lpm_longest :
      (a : IpNet) (m : PrefixMap) (n : IpNet) (v : List ℕ) (k : IpNet) (w : List ℕ)
      → get_lpm a m ≡ some (n, v)
      → contains k a ≡ true
      → get k m ≡ some w
      → prefix_len k ≤ prefix_len n
  pub get_lpm_none :
      (a : IpNet) (m : PrefixMap) (k : IpNet) (w : List ℕ)
      → get_lpm a m ≡ none
      → contains k a ≡ true
      → get k m ≢ some w
