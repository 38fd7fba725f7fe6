-- ===== src/Geoip/Extra.antt =====
-- src/geoip/extra.rs: the leaves of a database record that no typed field took, within bounds. A
-- record is the tree that following the reader's pointers unfolds; `faulty`, `torn` and `cut` are
-- where the reader refuses to go on.
pub mod Bounds
pub mod Leaves
use factbook_rs.Geoip.Record.{
  ExtraValue, str, bytes, uint, float, bool, from_i64, from_u128, as_str, GeoIpRecord,
}
use factbook_rs.Prelude.Int.{ℤ, decimal}
use factbook_rs.Prelude.Text.{Text, text_eq, codes, within}
use factbook_rs.Prelude.Parse.{strip_prefix, split_once, is_digit, parse_unsigned, or_text}
use factbook_rs.Prelude.{
  ◌-◌, ◌^◌, ℕ, suc, ◌+◌, ◌*◌, Bool, true, false, not, ◌&&◌, ◌||◌, Option, none, some, List, [], ◌∷◌,
  ◌++◌, filter, all, leb, ltb, ◌==◌, if◌then◌else◌, length,
}
use factbook_rs.Table.Query.{then_option, is_some_and}

abbrev pub most_fields : ℕ
most_fields = 512

abbrev pub most_bytes : ℕ
most_bytes = 64 * 1024

-- what the decoder hands to a visitor at a leaf
pub data Leaf : Type 0 where
  visit_bool : Bool → Leaf
  visit_i64 : ℤ → Leaf
  visit_u64 : ℕ → Leaf
  visit_u128 : ℕ → Leaf
  visit_f64 : ℕ → Leaf
  visit_str : Text → Leaf
  visit_bytes : Text → Leaf

-- IPinfo writes `AS15169` where every other source writes `15169`.
unfoldable pub asn_number : Text → Option ℕ
unfolding parse_unsigned
asn_number text = parse_unsigned (2 ^ 32 - 1) (or_text (strip_prefix (codes "AS") text) text)

mutual
  pub data Node : Type 0 where
    leaf : Leaf → Node
    object : Entries → Node
    array : Elements → Node
    faulty : Node

  pub data Entries : Type 0 where
    end : Entries
    torn : Entries
    entry : Text → Node → Entries → Entries

  pub data Elements : Type 0 where
    stop : Elements
    cut : Elements
    element : Node → Elements → Elements

unfoldable pub value_of : Leaf → ExtraValue
unfolding from_i64 from_u128
value_of (visit_bool b) = ExtraValue.bool b
value_of (visit_i64 n) = from_i64 n
value_of (visit_u64 n) = ExtraValue.uint n
value_of (visit_u128 n) = from_u128 n
value_of (visit_f64 f) = ExtraValue.float f
value_of (visit_str text) = ExtraValue.str text
value_of (visit_bytes text) = ExtraValue.bytes text

pub record Kept : Type 0 where
  pub fields : List (Text × ExtraValue)
  pub bytes : ℕ
  pub full : Bool

abbrev pub nothing_kept : Kept
nothing_kept = record { fields = []; bytes = 0; full = false }

unfoldable pub payload : ExtraValue → ℕ
payload (ExtraValue.str text) = length text
payload (ExtraValue.bytes text) = length text
payload _ = 0

unfoldable pub keep : Kept → Text → ExtraValue → Kept
keep kept path value =
    let cost = length path + payload value in
    if ltb most_bytes (kept.bytes + cost) then record kept { full = true } else record {
      fields = kept.fields ++ (path, value) ∷ [];
      bytes = kept.bytes + cost;
      full = leb most_fields (length kept.fields + 1);
    }

-- the path of a child
unfoldable pub child : Text → Text → Text
child [] name = name
child (b ∷ parent) name = (b ∷ parent) ++ b'.' ∷ name

-- `Walk`, on a record: `none` is an error of the decode
unfoldable mutual
  unfolding keep child value_of

  pub walk : Kept → Text → Node → Option Kept
  walk kept path (leaf l) = some (keep kept path (value_of l))
  walk kept path (object entries) = visit_map kept path entries
  walk kept path (array elements) = visit_seq kept path 0 elements
  walk kept path faulty = none

  pub visit_map : Kept → Text → Entries → Option Kept
  visit_map kept path end = some kept
  visit_map kept path torn = if kept.full then some kept else none
  visit_map kept path (entry key node entries) =
      if kept.full
      then some kept
      else then_option (walk kept (child path key) node) (λ more. visit_map more path entries)

  pub visit_seq : Kept → Text → ℕ → Elements → Option Kept
  visit_seq kept path index stop = some kept
  visit_seq kept path index cut = if kept.full then some kept else none
  visit_seq kept path index (element node elements) =
      if kept.full
      then some kept
      else then_option (walk kept (child path (decimal index)) node)
          (λ more. visit_seq more path (suc index) elements)

unfoldable pub is_str : ExtraValue → Option Text → Bool
is_str value held =
    is_some_and (as_str value) (λ text. is_some_and held (λ other. text_eq text other))

unfoldable pub is_uint : ExtraValue → Option ℕ → Bool
is_uint (ExtraValue.uint n) (some held) = n == held
is_uint _ _ = false

unfoldable pub is_float : ExtraValue → Option ℕ → Bool
is_float (ExtraValue.float f) (some held) = f == held
is_float _ _ = false

-- the field of a subdivision entry
unfoldable pub subdivision : Text → Option Text
subdivision path = then_option (strip_prefix (codes "subdivisions.") path) (λ rest.
    then_option (split_once b'.' rest)
      (λ halves. if all is_digit halves.0 then some halves.1 else none))

abbrev pub of_subdivision : GeoIpRecord → ExtraValue → Option Text → Bool
of_subdivision r value none = false
of_subdivision r value (some field) =
    if text_eq field (codes "names.en")
    then is_str value r.region_name
    else if text_eq field (codes "iso_code")
    then is_str value r.region_code
    else false

-- whether a path is one of two
abbrev is_path : Text → Text → Text → Bool
is_path path a b = text_eq path a || text_eq path b

unfoldable pub typed : Text → ExtraValue → GeoIpRecord → Bool
unfolding is_str is_uint is_float subdivision asn_number
typed path value r =
    if text_eq path (codes "city.names.en")
    then is_str value r.city_name
    else if is_path path (codes "continent.code") (codes "continent_code")
    then is_str value r.continent_code
    else if is_path path (codes "continent.names.en") (codes "continent")
    then is_str value r.continent_name
    else if is_path path (codes "country.iso_code") (codes "country_code")
    then is_str value r.country_code
    else if is_path path (codes "country.names.en") (codes "country")
    then is_str value r.country_name
    else if text_eq path (codes "postal.code")
    then is_str value r.postal_code
    else if text_eq path (codes "location.time_zone")
    then is_str value r.timezone
    else if text_eq path (codes "location.latitude")
    then is_float value r.latitude
    else if text_eq path (codes "location.longitude")
    then is_float value r.longitude
    else if text_eq path (codes "location.metro_code")
    then is_uint value r.metro_code
    else if text_eq path (codes "location.accuracy_radius")
    then is_uint value r.accuracy_radius
    else if text_eq path (codes "autonomous_system_number")
    then is_uint value r.autonomous_system_number
    else if is_path path (codes "autonomous_system_organization") (codes "as_name")
    then is_str value r.autonomous_system_organization
    else if text_eq path (codes "as_domain")
    then is_str value r.as_domain
    else if text_eq path (codes "asn")
    then is_some_and r.autonomous_system_number
        (λ held. is_some_and (then_option (as_str value) asn_number) (λ n. n == held))
    else of_subdivision r value (subdivision path)

-- the leaves that no typed field took, behind the fields that are there
abbrev pub untyped : GeoIpRecord → List (Text × ExtraValue) → List (Text × ExtraValue)
untyped r fields = filter (λ f. not (typed f.0 f.1 r)) fields

-- `collect`, on the record that a lookup found: `none` if the reader found nothing there
unfoldable pub collect : Option Node → GeoIpRecord → GeoIpRecord
unfolding walk
collect none r = r
collect (some node) r = elim (walk nothing_kept [] node) [
  | none ↦ r
  | some kept ↦ record r { extra = r.extra ++ untyped r kept.fields }
]
