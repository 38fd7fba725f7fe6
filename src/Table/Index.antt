-- ===== src/Table/Index.antt =====
-- src/table/mod.rs: `Budget`, the column that a source is keyed by, and the index of the rows.
use factbook_rs.Net.Address.{IpAddr-Eq}
use factbook_rs.Prelude.Keyed
use factbook_rs.Prelude.Keyed.{Eq}
use factbook_rs.Prelude.Text.{Text, text_eq, text_eq_iff, to_ascii_lowercase, codes}
use factbook_rs.Prelude.{
  ℕ, suc, ◌+◌, ◌-◌, ◌*◌, ◌/◌, Bool, ◌&&◌, Option, none, some, List, [], ◌∷◌, ◌++◌, ltb,
  if◌then◌else◌, length, take, any, saturating_add,
}
use factbook_rs.Table.Cell.{Cell, cell}
use factbook_rs.Table.Error.{over_resident_ceiling, Result, ok, err, ◌>>=◌}

instance abbrev pub Text-Eq : Eq Text
Text-Eq = record { beq = text_eq; beq_iff = text_eq_iff }

-- What a collection grown by `n` pushes, or a map that holds `n` keys, has asked the allocator for,
-- and the sizes of the types that are charged. The standard library leaves these open.
pub record Allocation : Type 0 where
  pub vec_capacity : ℕ → ℕ
  pub map_capacity : ℕ → ℕ
  pub text_entry : ℕ
  pub address_entry : ℕ
  pub prefix_entry_bytes : ℕ

abbrev pub usize_bytes : ℕ
usize_bytes = 8

abbrev pub string_bytes : ℕ
string_bytes = 24

abbrev pub address_columns : List Text
address_columns =
    codes "ip" ∷ codes "ip_address" ∷ codes "ipaddress" ∷ codes "address" ∷ codes "addr" ∷ []

abbrev pub prefix_columns : List Text
prefix_columns =
    codes "prefix" ∷ codes "network" ∷ codes "cidr" ∷ codes "range" ∷ codes "subnet" ∷ []

abbrev pub address_sample : ℕ
address_sample = 64

pub record Budget : Type 0 where
  pub held : ℕ
  pub ceiling : ℕ

unfoldable pub charge : Budget → ℕ → Result Budget
charge b bytes =
    let total = saturating_add b.held bytes in
    if ltb b.ceiling total
    then err (over_resident_ceiling b.ceiling)
    else ok (record b { held = total })

-- a value, once what it costs is charged
unfoldable pub paid {ℓ} : {A : Type ℓ} → Budget → ℕ → A → Result (Budget × A)
paid b bytes a = do charged ← charge b bytes; ok (charged, a)

abbrev pub shifted : Option ℕ → Option ℕ
shifted none = none
shifted (some at) = some (suc at)

-- `position`: of the first element that passes
unfoldable pub position {ℓ} : {A : Type ℓ} → (A → Bool) → List A → Option ℕ
position p [] = none
position p (x ∷ xs) = if p x then some 0 else shifted (position p xs)

-- `holds` of `keyed_column`, over the sampled rows
unfoldable pub holds : (Text → Bool) → ℕ → ℕ → List (List Cell) → Bool
holds parses at seen [] = ltb 0 seen
holds parses at seen (row ∷ rows) = elim (cell row at) [
  | none ↦ holds parses at seen rows
  | some text ↦ parses text && holds parses at (seen + 1) rows
]

-- `(0..columns.len()).find(holds)`, from column `at` on
unfoldable pub first_held : (ℕ → Bool) → ℕ → List Text → Option ℕ
first_held test at [] = none
first_held test at (c ∷ cs) = if test at then some at else first_held test (suc at) cs

unfoldable pub keyed_column : List Text → List (List Cell) → List Text → (Text → Bool) → Option ℕ
keyed_column columns rows names parses =
    let holds_at = λ (at : ℕ). holds parses at 0 (take address_sample rows) in
    let conventional = position (λ c. any (text_eq (to_ascii_lowercase c)) names) columns in
    let sampled = first_held holds_at 0 columns in
    elim conventional [ none ↦ sampled | some at ↦ if holds_at at then some at else sampled ]

module _ (alloc : Allocation) where
  -- `Budget::push`
  unfoldable pub push : Budget → List ℕ → ℕ → Result (Budget × List ℕ)
  push b list at = do
    let grown = alloc.vec_capacity (length list + 1) - alloc.vec_capacity (length list)
    paid b (grown * usize_bytes) (list ++ at ∷ [])

  -- the list that `Budget::file` lands in
  unfoldable pub entry : Budget → ℕ → Option (List ℕ) → Result (Budget × List ℕ)
  entry b key_bytes (some list) = ok (b, list)
  entry b key_bytes none = paid b key_bytes []

  -- `Budget::file`
  unfoldable pub file {ℓ} :
      {K : Type ℓ} ⦃e : Eq K⦄
      → Budget
      → List (K × List ℕ)
      → ℕ
      → K
      → ℕ
      → ℕ
      → Result (Budget × List (K × List ℕ))
  file b filed entry_bytes key key_bytes at = do
    (opened, list) ← entry b key_bytes (Keyed.get key filed)
    (pushed, longer) ← push opened list at
    let after = Keyed.insert key longer filed
    let grown = alloc.map_capacity (length after) - alloc.map_capacity (length filed)
    paid pushed (grown * (entry_bytes + 1) * 8 / 7) after
