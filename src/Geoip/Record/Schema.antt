-- ===== src/Geoip/Record/Schema.antt =====
-- What a consumer finds under a name of the schema map.
use mathlib.Core.Option.{some-injective}
use factbook_rs.Geoip.Record.{
  FieldValue, GeoIpRecord, ExtraFields, extra_get, typed_fields, pushed, to_schema_map, as_field,
}
use factbook_rs.Prelude.Text.{codes, Text, text_eq, text_eq_iff}
use factbook_rs.Table.Build.{map_option}
use factbook_rs.Prelude.{
  ℕ, ◌≡◌, refl, Bool, true, false, not, ◌&&◌, Option, none, some, List, [], ◌∷◌, ◌++◌, map, all,
  if◌then◌else◌, get_elem?, zero, suc, and_true, ap, ◌∙◌, arith, Bool-cases, inl, inr,
}

-- the first value under a name
abbrev pub first_value : Text → List (Text × FieldValue) → Option FieldValue
first_value name [] = none
first_value name ((key, value) ∷ fields) =
    if text_eq key name then some value else first_value name fields

-- The fields of a record that have a type.
pub data Field : Type 0 where
  city_name continent_code continent_name country_code country_name region_name region_code
        postal_code timezone latitude longitude metro_code accuracy_radius autonomous_system_number
        autonomous_system_organization is_private network asn_network as_domain :
      Field

-- the name that a consumer asks for
abbrev pub label : Field → Text
label city_name = codes "city_name"
label continent_code = codes "continent_code"
label continent_name = codes "continent_name"
label country_code = codes "country_code"
label country_name = codes "country_name"
label region_name = codes "region_name"
label region_code = codes "region_code"
label postal_code = codes "postal_code"
label timezone = codes "timezone"
label latitude = codes "latitude"
label longitude = codes "longitude"
label metro_code = codes "metro_code"
label accuracy_radius = codes "accuracy_radius"
label autonomous_system_number = codes "autonomous_system_number"
label autonomous_system_organization = codes "autonomous_system_organization"
label is_private = codes "is_private"
label network = codes "network"
label asn_network = codes "asn_network"
label as_domain = codes "as_domain"

-- what the record says of a field, if anything
abbrev pub held : Field → GeoIpRecord → Option FieldValue
held city_name r = map_option FieldValue.str r.city_name
held continent_code r = map_option FieldValue.str r.continent_code
held continent_name r = map_option FieldValue.str r.continent_name
held country_code r = map_option FieldValue.str r.country_code
held country_name r = map_option FieldValue.str r.country_name
held region_name r = map_option FieldValue.str r.region_name
held region_code r = map_option FieldValue.str r.region_code
held postal_code r = map_option FieldValue.str r.postal_code
held timezone r = map_option FieldValue.str r.timezone
held latitude r = map_option FieldValue.float r.latitude
held longitude r = map_option FieldValue.float r.longitude
held metro_code r = map_option FieldValue.uint r.metro_code
held accuracy_radius r = map_option FieldValue.uint r.accuracy_radius
held autonomous_system_number r = map_option FieldValue.uint r.autonomous_system_number
held autonomous_system_organization r = map_option FieldValue.str r.autonomous_system_organization
held is_private r = some (FieldValue.bool r.is_private)
held network r = map_option FieldValue.str r.network
held asn_network r = map_option FieldValue.str r.asn_network
held as_domain r = map_option FieldValue.str r.as_domain

-- the first of two values that is there
abbrev pub or_else {ℓ} : {A : Type ℓ} → Option A → Option A → Option A
or_else (some a) other = some a
or_else none other = other

-- no name stands twice
abbrev pub distinct : List Text → Bool
distinct [] = true
distinct (x ∷ xs) = all (λ y. not (text_eq x y)) xs && distinct xs

abbrev names : List (Text × Option FieldValue) → List Text
names fields = map (λ f. f.0) fields

typed_names-distinct : (r : GeoIpRecord) → distinct (names (typed_fields r)) ≡ true
unfolding text_eq
typed_names-distinct r = refl

negated : (b : Bool) → not b ≡ true → b ≡ false
negated true h = cc
negated false h = refl

other_name :
    (x : Text) (fields : List (Text × Option FieldValue)) (i : ℕ) (name : Text)
    {value : Option FieldValue}
    → all (λ y. not (text_eq x y)) (names fields) ≡ true
    → get_elem? fields i ≡ some (name, value)
    → text_eq x name ≡ false
other_name x [] i name h e = cc
other_name x (f ∷ fields) zero name h e =
    let here = ap (λ p. p.0) (some-injective f (name, _) e) in
    rw (← here) (negated (text_eq x f.0) (and_true _ _ h).0)
other_name x (f ∷ fields) (suc i) name h e = other_name x fields i name (and_true _ _ h).1 e

pushed-unnamed :
    (fields : List (Text × Option FieldValue)) (more : List (Text × FieldValue)) (name : Text)
    → all (λ y. not (text_eq name y)) (names fields) ≡ true
    → first_value name (pushed fields ++ more) ≡ first_value name more
unfolding pushed
pushed-unnamed [] more name d = refl
pushed-unnamed ((x, none) ∷ fields) more name d = pushed-unnamed fields more name (and_true _ _ d).1
pushed-unnamed ((x, some v) ∷ fields) more name d =
    let differs = negated (text_eq name x) (and_true _ _ d).0 in
    let flipped : text_eq x name ≡ false = ground (arith, text_eq_iff x name, text_eq_iff name x) in
    rw flipped (pushed-unnamed fields more name (and_true _ _ d).1)

pushed-first :
    (fields : List (Text × Option FieldValue)) (more : List (Text × FieldValue)) (i : ℕ)
    (name : Text) (value : Option FieldValue)
    → distinct (names fields) ≡ true
    → get_elem? fields i ≡ some (name, value)
    → first_value name (pushed fields ++ more) ≡ or_else value (first_value name more)
unfolding pushed
pushed-first [] more i name value d e = cc
pushed-first ((x, none) ∷ fields) more zero name value d e =
    let same = some-injective (x, none) (name, value) e in
    rw (← ap (λ p. p.1) same) (
      pushed-unnamed fields more name
        (rw (ap (λ p. p.0) same) at (and_true (all (λ y. not (text_eq x y)) (names fields)) _ d).0))
pushed-first ((x, some v) ∷ fields) more zero name value d e =
    let same = some-injective (x, some v) (name, value) e in
    rw ((text_eq_iff x name).1 (ap (λ p. p.0) same), ← ap (λ p. p.1) same) refl
pushed-first ((x, none) ∷ fields) more (suc i) name value d e =
    pushed-first fields more i name value (and_true _ _ d).1 e
pushed-first ((x, some v) ∷ fields) more (suc i) name value d e =
    rw (other_name x fields i name (and_true _ _ d).0 e)
      (pushed-first fields more i name value (and_true _ _ d).1 e)

-- the fields that the source carried beside the typed ones
first_value-extra :
    (name : Text) (extra : ExtraFields)
    → first_value name (map (λ f. (f.0, as_field f.1)) extra)
      ≡ map_option as_field (extra_get name extra)
unfolding extra_get
first_value-extra name [] = refl
first_value-extra name ((path, value) ∷ extra) = elim (Bool-cases (text_eq path name)) [
  | inl same ↦ rw same
  | inr other ↦ rw other (first_value-extra name extra)
]

position : Field → ℕ
position city_name = 0
position continent_code = 1
position continent_name = 2
position country_code = 3
position country_name = 4
position region_name = 5
position region_code = 6
position postal_code = 7
position timezone = 8
position latitude = 9
position longitude = 10
position metro_code = 11
position accuracy_radius = 12
position autonomous_system_number = 13
position autonomous_system_organization = 14
position is_private = 15
position network = 16
position asn_network = 17
position as_domain = 18

position-typed :
    (r : GeoIpRecord) (f : Field)
    → get_elem? (typed_fields r) (position f) ≡ some (label f, held f r)
unfolding position
position-typed r city_name = refl
position-typed r continent_code = refl
position-typed r continent_name = refl
position-typed r country_code = refl
position-typed r country_name = refl
position-typed r region_name = refl
position-typed r region_code = refl
position-typed r postal_code = refl
position-typed r timezone = refl
position-typed r latitude = refl
position-typed r longitude = refl
position-typed r metro_code = refl
position-typed r accuracy_radius = refl
position-typed r autonomous_system_number = refl
position-typed r autonomous_system_organization = refl
position-typed r is_private = refl
position-typed r network = refl
position-typed r asn_network = refl
position-typed r as_domain = refl

-- What a consumer finds under the name of a typed field in the schema map: what the record says of
-- that field, and only where it says nothing of it, the first extra field of that path, if any.
pub first_value-to_schema_map :
    (r : GeoIpRecord) (f : Field)
    → first_value (label f) (to_schema_map r)
      ≡ or_else (held f r) (map_option as_field (extra_get (label f) r.extra))
unfolding to_schema_map
first_value-to_schema_map r f =
    pushed-first (typed_fields r) (map (λ f. (f.0, as_field f.1)) r.extra) (position f) (label f)
      (held f r) (typed_names-distinct r) (position-typed r f)
    ∙ ap (or_else (held f r)) (first_value-extra (label f) r.extra)
