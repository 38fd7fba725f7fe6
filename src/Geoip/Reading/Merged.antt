-- ===== src/Geoip/Reading/Merged.antt =====
-- The answer of a city and an ASN database together, field by field.
use factbook_rs.Geoip.Extra.Bounds.{collect-IsBounded}
use factbook_rs.Geoip.Reading.{
  City, Asn, LookupResult, Database, is_ipinfo, last, with_extra, with_region, with_city, with_asn,
  added, decoded, read_city, read_asn, read_from, if_found, read,
}
use factbook_rs.Geoip.Record.{GeoIpRecord, blank_record}
use factbook_rs.Net.Address.{IpAddr}
use factbook_rs.Prelude.Text.{Text}
use factbook_rs.Prelude.{ℕ, ◌≡◌, refl, ap, ◌∙◌, Bool, true, false, ◌||◌, Option, none, some, []}
use factbook_rs.Table.Build.{map_option}
use factbook_rs.Table.Query.{then_option}

-- a record without its extra fields
abbrev pub typed_part : GeoIpRecord → GeoIpRecord
typed_part r = record r { extra = [] }

with_extra-typed :
    (collects : Bool) (result : LookupResult) (r : GeoIpRecord)
    → typed_part (with_extra collects result r) ≡ typed_part r
with_extra-typed false result r = refl
with_extra-typed true result r = ap typed_part (collect-IsBounded result.node r).behind

-- what a database has of a kind for an address, with its network
abbrev pub found_in :
    {A : Type 0} → Option LookupResult → (LookupResult → Option A) → Option (A × Option Text)
found_in none decode = none
found_in (some result) decode = map_option (λ found. (found, result.network)) (decode result)

-- The fields that a city record and an ASN record give.
abbrev pub merged : Option (City × Option Text) → Option (Asn × Option Text) → GeoIpRecord
merged city asn = record {
  city_name = then_option city (λ c. c.0.city_name);
  continent_code = then_option city (λ c. c.0.continent_code);
  continent_name = then_option city (λ c. c.0.continent_name);
  country_code = then_option city (λ c. c.0.country_code);
  country_name = then_option city (λ c. c.0.country_name);
  region_name = then_option city (λ c. then_option (last c.0.subdivisions) (λ region. region.0));
  region_code = then_option city (λ c. then_option (last c.0.subdivisions) (λ region. region.1));
  postal_code = then_option city (λ c. c.0.postal_code);
  timezone = then_option city (λ c. c.0.time_zone);
  latitude = then_option city (λ c. c.0.latitude);
  longitude = then_option city (λ c. c.0.longitude);
  metro_code = then_option city (λ c. c.0.metro_code);
  accuracy_radius = then_option city (λ c. c.0.accuracy_radius);
  autonomous_system_number = then_option asn (λ a. a.0.number);
  autonomous_system_organization = then_option asn (λ a. a.0.organisation);
  is_private = false;
  network = then_option city (λ c. c.1);
  asn_network = then_option asn (λ a. a.1);
  as_domain = none;
  extra = [];
}

abbrev pub merged_if_found :
    Option (City × Option Text) → Option (Asn × Option Text) → Option GeoIpRecord
merged_if_found none none = none
merged_if_found (some city) asn = some (merged (some city) asn)
merged_if_found none (some asn) = some (merged none (some asn))

-- a record and whether it was found, without the extra fields
abbrev bare : GeoIpRecord × Bool → GeoIpRecord × Bool
bare (r, found) = (typed_part r, found)

region-merged :
    (city : City) (network : Option Text)
    → with_city city network blank_record ≡ merged (some (city, network)) none
region-merged city network = go (last city.subdivisions)
  where
    go :
        (region : Option (Option Text × Option Text))
        → record (with_region region (record blank_record {
          city_name = city.city_name;
          continent_code = city.continent_code;
          continent_name = city.continent_name;
          country_code = city.country_code;
          country_name = city.country_name;
        })) {
          postal_code = city.postal_code;
          timezone = city.time_zone;
          latitude = city.latitude;
          longitude = city.longitude;
          metro_code = city.metro_code;
          accuracy_radius = city.accuracy_radius;
          network = network;
        }
          ≡ record (merged (some (city, network)) none) {
            region_name = then_option region (λ found. found.0);
            region_code = then_option region (λ found. found.1);
          }
    go none = refl
    go (some (name, code)) = refl

-- what a database adds, without the extra fields
abbrev found_added :
    {A : Type 0}
    → Option (A × Option Text)
    → (A → Option Text → GeoIpRecord → GeoIpRecord)
    → GeoIpRecord
    → GeoIpRecord × Bool
found_added none add r = (r, false)
found_added (some (found, network)) add r = (add found network r, true)

added-bare :
    {A : Type 0} (result : LookupResult) (o : Option A)
    (add : A → Option Text → GeoIpRecord → GeoIpRecord) (collects : Bool) (r : GeoIpRecord)
    → bare (added result o add collects r)
      ≡ bare (found_added (map_option (λ found. (found, result.network)) o) add r)
added-bare result none add collects r = refl
added-bare result (some found) add collects r =
    ap (λ t. (t, true)) (with_extra-typed collects result (add found result.network r))

decoded-bare :
    {A : Type 0} (found : Option LookupResult) (decode : LookupResult → Option A)
    (add : A → Option Text → GeoIpRecord → GeoIpRecord) (collects : Bool) (r : GeoIpRecord)
    → bare (decoded found decode add collects r) ≡ bare (found_added (found_in found decode) add r)
decoded-bare none decode add collects r = refl
decoded-bare (some result) decode add collects r = added-bare result (decode result) add collects r

-- the ASN fields on what the city database gave
asn-onto :
    (asn : Option (Asn × Option Text)) (x y : GeoIpRecord × Bool)
    → bare x ≡ bare y
    → (let a = found_added asn with_asn x.0 in
        let b = found_added asn with_asn y.0 in bare (a.0, x.1 || a.1) ≡ bare (b.0, y.1 || b.1))
asn-onto none x y e = ap (λ p. (p.0, p.1 || false)) e
asn-onto (some (asn, network)) x y e = ap (λ p. (with_asn asn network p.0, p.1 || true)) e

read_second :
    (found : Option LookupResult) (collects : Bool) (x : GeoIpRecord × Bool)
    → (let done = decoded found (λ result. result.asn) with_asn collects x.0 in
        let a = found_added (found_in found (λ result. result.asn)) with_asn x.0 in
        bare (done.0, x.1 || done.1) ≡ bare (a.0, x.1 || a.1))
read_second found collects x =
    ap (λ p. (p.0, x.1 || p.1)) (decoded-bare found (λ result. result.asn) with_asn collects x.0)

both-merged :
    (city : Option (City × Option Text)) (asn : Option (Asn × Option Text))
    → (let c = found_added city with_city blank_record in
        let a = found_added asn with_asn c.0 in
        if_found (bare (a.0, c.1 || a.1)) ≡ merged_if_found city asn)
both-merged none none = refl
both-merged none (some (asn, network)) = refl
both-merged (some (city, network)) none = ap (λ r. some (typed_part r)) (region-merged city network)
both-merged (some (city, network)) (some (asn, other)) =
    ap (λ r. some (typed_part (with_asn asn other r))) (region-merged city network)

if_found-bare : (x : GeoIpRecord × Bool) → map_option typed_part (if_found x) ≡ if_found (bare x)
if_found-bare (r, true) = refl
if_found-bare (r, false) = refl

read_city-plain :
    (database : Database) (ip : IpAddr) (collects : Bool) (r : GeoIpRecord)
    → is_ipinfo database ≡ false
    → read_city database ip collects r
      ≡ decoded (database.lookup ip) (λ result. result.city) with_city collects r
unfolding read_city
read_city-plain database ip collects r h = rw h refl

read_asn-plain :
    (database : Database) (ip : IpAddr) (collects : Bool) (r : GeoIpRecord)
    → is_ipinfo database ≡ false
    → read_asn database ip collects r
      ≡ decoded (database.lookup ip) (λ result. result.asn) with_asn collects r
unfolding read_asn
read_asn-plain database ip collects r h = rw h refl

-- A city and an ASN database that are not IPinfo's, whose lookups find what they find: the answer
-- is there if either has a record that decodes; then each typed field is that of its own database,
-- or is left out with it, and neither takes a field from the other, with or without extra fields.
pub read-merged :
    (city asn : Database) (generation : ℕ) (ip : IpAddr) (collects : Bool)
    → is_ipinfo city ≡ false
    → is_ipinfo asn ≡ false
    → map_option typed_part
        (read (record { city = some city; asn = some asn; generation = generation }) ip collects)
      ≡ merged_if_found
          (found_in (city.lookup ip) (λ result. result.city))
          (found_in (asn.lookup ip) (λ result. result.asn))
unfolding read
read-merged city asn generation ip collects plain_city plain_asn =
    let first = decoded (city.lookup ip) (λ result. result.city) with_city collects blank_record in
    let spec =
      found_added (found_in (city.lookup ip) (λ result. result.city)) with_city blank_record in
    ap
      (λ y. map_option typed_part (
        if_found (
          read_from (some asn) (λ database r. read_asn database ip collects r)
            (y.0, false || y.1))))
      (read_city-plain city ip collects blank_record plain_city)
    ∙ ap (λ z. map_option typed_part (if_found (z.0, first.1 || z.1)))
        (read_asn-plain asn ip collects first.0 plain_asn)
    ∙ (if_found-bare _
        ∙ ap if_found (read_second (asn.lookup ip) collects (first.0, false || first.1))
        ∙ ap if_found (
            asn-onto (found_in (asn.lookup ip) (λ result. result.asn)) first spec (
              decoded-bare (city.lookup ip) (λ result. result.city) with_city collects
                blank_record))
        ∙ both-merged (found_in (city.lookup ip) (λ result. result.city))
            (found_in (asn.lookup ip) (λ result. result.asn)))
