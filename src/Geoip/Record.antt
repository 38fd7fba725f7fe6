-- ===== src/Geoip/Record.antt =====
-- src/geoip/record.rs: the record that a lookup answers with. A float is its 64 bits.
pub mod Schema
use factbook_rs.Prelude.Int.{ℤ, pos, negsuc}
use factbook_rs.Prelude.Text.{Text, text_eq, codes}
use factbook_rs.Prelude.{
  ℕ, Bool, true, false, Option, none, some, List, [], ◌∷◌, ◌++◌, map, leb, if◌then◌else◌, u64_max,
}
use factbook_rs.Table.Build.{map_option}

pub data FieldValue : Type 0 where
  str : Text → FieldValue
  float : ℕ → FieldValue
  uint : ℕ → FieldValue
  int : ℤ → FieldValue
  uint128 : ℕ → FieldValue
  bool : Bool → FieldValue
  bytes : Text → FieldValue

pub data ExtraValue : Type 0 where
  str : Text → ExtraValue
  float : ℕ → ExtraValue
  uint : ℕ → ExtraValue
  int : ℤ → ExtraValue
  uint128 : ℕ → ExtraValue
  bool : Bool → ExtraValue
  bytes : Text → ExtraValue

-- `u64::try_from`
unfoldable pub from_i64 : ℤ → ExtraValue
from_i64 (pos n) = ExtraValue.uint n
from_i64 (negsuc n) = ExtraValue.int (negsuc n)

unfoldable pub from_u128 : ℕ → ExtraValue
from_u128 n = if leb n u64_max then ExtraValue.uint n else ExtraValue.uint128 n

unfoldable pub as_field : ExtraValue → FieldValue
as_field (ExtraValue.str text) = FieldValue.str text
as_field (ExtraValue.float f) = FieldValue.float f
as_field (ExtraValue.uint n) = FieldValue.uint n
as_field (ExtraValue.int n) = FieldValue.int n
as_field (ExtraValue.uint128 n) = FieldValue.uint128 n
as_field (ExtraValue.bool b) = FieldValue.bool b
as_field (ExtraValue.bytes data_bytes) = FieldValue.bytes data_bytes

unfoldable pub as_str : ExtraValue → Option Text
as_str (ExtraValue.str text) = some text
as_str _ = none

-- the pairs of a path and a value, in source order
abbrev pub ExtraFields : Type 0
ExtraFields = List (Text × ExtraValue)

unfoldable pub extra_get : Text → ExtraFields → Option ExtraValue
extra_get path [] = none
extra_get path ((key, value) ∷ fields) =
    if text_eq key path then some value else extra_get path fields

pub record GeoIpRecord : Type 0 where
  pub city_name : Option Text
  pub continent_code : Option Text
  pub continent_name : Option Text
  pub country_code : Option Text
  pub country_name : Option Text
  pub region_name : Option Text
  pub region_code : Option Text
  pub postal_code : Option Text
  pub timezone : Option Text
  pub latitude : Option ℕ
  pub longitude : Option ℕ
  pub metro_code : Option ℕ
  pub accuracy_radius : Option ℕ
  pub autonomous_system_number : Option ℕ
  pub autonomous_system_organization : Option Text
  pub is_private : Bool
  pub network : Option Text
  pub asn_network : Option Text
  pub as_domain : Option Text
  pub extra : ExtraFields

-- `GeoIpRecord::default()`
abbrev pub blank_record : GeoIpRecord
blank_record = record {
  city_name = none;
  continent_code = none;
  continent_name = none;
  country_code = none;
  country_name = none;
  region_name = none;
  region_code = none;
  postal_code = none;
  timezone = none;
  latitude = none;
  longitude = none;
  metro_code = none;
  accuracy_radius = none;
  autonomous_system_number = none;
  autonomous_system_organization = none;
  is_private = false;
  network = none;
  asn_network = none;
  as_domain = none;
  extra = [];
}

unfoldable pub private_record : GeoIpRecord
private_record = record blank_record { is_private = true }

-- The typed fields under their names, in the order that they are pushed.
abbrev pub typed_fields : GeoIpRecord → List (Text × Option FieldValue)
typed_fields r =
    (codes "city_name", map_option FieldValue.str r.city_name)
    ∷ (codes "continent_code", map_option FieldValue.str r.continent_code)
    ∷ (codes "continent_name", map_option FieldValue.str r.continent_name)
    ∷ (codes "country_code", map_option FieldValue.str r.country_code)
    ∷ (codes "country_name", map_option FieldValue.str r.country_name)
    ∷ (codes "region_name", map_option FieldValue.str r.region_name)
    ∷ (codes "region_code", map_option FieldValue.str r.region_code)
    ∷ (codes "postal_code", map_option FieldValue.str r.postal_code)
    ∷ (codes "timezone", map_option FieldValue.str r.timezone)
    ∷ (codes "latitude", map_option FieldValue.float r.latitude)
    ∷ (codes "longitude", map_option FieldValue.float r.longitude)
    ∷ (codes "metro_code", map_option FieldValue.uint r.metro_code)
    ∷ (codes "accuracy_radius", map_option FieldValue.uint r.accuracy_radius)
    ∷ (codes "autonomous_system_number", map_option FieldValue.uint r.autonomous_system_number)
    ∷ (
      codes "autonomous_system_organization",
      map_option FieldValue.str r.autonomous_system_organization,
    )
    ∷ (codes "is_private", some (FieldValue.bool r.is_private))
    ∷ (codes "network", map_option FieldValue.str r.network)
    ∷ (codes "asn_network", map_option FieldValue.str r.asn_network)
    ∷ (codes "as_domain", map_option FieldValue.str r.as_domain)
    ∷ []

-- `push` of each: a field without a value is left out
unfoldable pub pushed : List (Text × Option FieldValue) → List (Text × FieldValue)
pushed [] = []
pushed ((name, none) ∷ fields) = pushed fields
pushed ((name, some value) ∷ fields) = (name, value) ∷ pushed fields

unfoldable pub to_schema_map : GeoIpRecord → List (Text × FieldValue)
unfolding pushed as_field
to_schema_map r = pushed (typed_fields r) ++ map (λ f. (f.0, as_field f.1)) r.extra
