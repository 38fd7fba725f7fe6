-- ===== src/Geoip/Reading.antt =====
-- src/geoip/enricher.rs: `read` and the readers that it calls, over what the database reader finds
-- for an address and decodes of it, which are parameters.
pub mod Merged
use factbook_rs.Geoip.Extra.{Node, asn_number, collect}
use factbook_rs.Geoip.Record.{GeoIpRecord, blank_record}
use factbook_rs.Net.Address.{IpAddr}
use factbook_rs.Prelude.Parse.{strip_prefix}
use factbook_rs.Prelude.Text.{Text, codes}
use factbook_rs.Prelude.{
  ℕ, Bool, true, false, ◌||◌, Option, none, some, List, [], ◌∷◌, if◌then◌else◌,
}
use factbook_rs.Table.Query.{then_option, is_some_and}

-- `geoip2::City`, by the fields that are read
pub record City : Type 0 where
  pub city_name : Option Text
  pub continent_code : Option Text
  pub continent_name : Option Text
  pub country_code : Option Text
  pub country_name : Option Text
  pub subdivisions : List (Option Text × Option Text)
  pub postal_code : Option Text
  pub time_zone : Option Text
  pub latitude : Option ℕ
  pub longitude : Option ℕ
  pub metro_code : Option ℕ
  pub accuracy_radius : Option ℕ

-- `geoip2::Asn`
pub record Asn : Type 0 where
  pub number : Option ℕ
  pub organisation : Option Text

pub record IpInfoRecord : Type 0 where
  pub country_code : Option Text
  pub country : Option Text
  pub continent_code : Option Text
  pub continent : Option Text
  pub asn : Option Text
  pub as_name : Option Text
  pub as_domain : Option Text

-- What a lookup found: a record of each kind, none where there is none or where it does not decode,
-- the network that it matched, and the record's tree.
pub record LookupResult : Type 0 where
  pub city : Option City
  pub asn : Option Asn
  pub ipinfo : Option IpInfoRecord
  pub network : Option Text
  pub node : Option Node

-- an open database; a lookup is none if the database refuses the address
pub record Database : Type 0 where
  pub database_type : Text
  pub lookup : IpAddr → Option LookupResult

unfoldable pub is_ipinfo : Database → Bool
unfolding strip_prefix
is_ipinfo database =
    is_some_and (strip_prefix (codes "ipinfo") database.database_type) (λ rest. true)

abbrev pub last : List (Option Text × Option Text) → Option (Option Text × Option Text)
last [] = none
last (region ∷ []) = some region
last (region ∷ next ∷ regions) = last (next ∷ regions)

abbrev pub with_extra : Bool → LookupResult → GeoIpRecord → GeoIpRecord
with_extra false result r = r
with_extra true result r = collect result.node r

abbrev pub with_region : Option (Option Text × Option Text) → GeoIpRecord → GeoIpRecord
with_region none r = r
with_region (some (name, code)) r = record r { region_name = name; region_code = code }

abbrev pub with_ipinfo : IpInfoRecord → Option Text → GeoIpRecord → GeoIpRecord
with_ipinfo found network r = record r {
  country_code = found.country_code;
  country_name = found.country;
  continent_code = found.continent_code;
  continent_name = found.continent;
  autonomous_system_number = then_option found.asn asn_number;
  autonomous_system_organization = found.as_name;
  as_domain = found.as_domain;
  network = network;
  asn_network = network;
}

abbrev pub with_city : City → Option Text → GeoIpRecord → GeoIpRecord
with_city city network r =
    record (with_region (last city.subdivisions) (record r {
      city_name = city.city_name;
      continent_code = city.continent_code;
      continent_name = city.continent_name;
      country_code = city.country_code;
      country_name = city.country_name;
    })) {
      postal_code = city.postal_code;
      timezone = city.time_zone;
      latitude = city.latitude;
      longitude = city.longitude;
      metro_code = city.metro_code;
      accuracy_radius = city.accuracy_radius;
      network = network;
    }

abbrev pub with_asn : Asn → Option Text → GeoIpRecord → GeoIpRecord
with_asn asn network r = record r {
  autonomous_system_number = asn.number;
  autonomous_system_organization = asn.organisation;
  asn_network = network;
}

-- What a decoded record adds, and whether there was one.
abbrev pub added :
    {A : Type 0}
    → LookupResult
    → Option A
    → (A → Option Text → GeoIpRecord → GeoIpRecord)
    → Bool
    → GeoIpRecord
    → GeoIpRecord × Bool
added result none add collects r = (r, false)
added result (some found) add collects r =
    (with_extra collects result (add found result.network r), true)

abbrev pub decoded :
    {A : Type 0}
    → Option LookupResult
    → (LookupResult → Option A)
    → (A → Option Text → GeoIpRecord → GeoIpRecord)
    → Bool
    → GeoIpRecord
    → GeoIpRecord × Bool
decoded none decode add collects r = (r, false)
decoded (some result) decode add collects r = added result (decode result) add collects r

unfoldable pub read_ipinfo : Database → IpAddr → Bool → GeoIpRecord → GeoIpRecord × Bool
unfolding collect asn_number
read_ipinfo database ip collects r =
    decoded (database.lookup ip) (λ result. result.ipinfo) with_ipinfo collects r

unfoldable pub read_city : Database → IpAddr → Bool → GeoIpRecord → GeoIpRecord × Bool
unfolding is_ipinfo read_ipinfo
read_city database ip collects r =
    if is_ipinfo database
    then read_ipinfo database ip collects r
    else decoded (database.lookup ip) (λ result. result.city) with_city collects r

unfoldable pub read_asn : Database → IpAddr → Bool → GeoIpRecord → GeoIpRecord × Bool
unfolding is_ipinfo read_ipinfo
read_asn database ip collects r =
    if is_ipinfo database
    then read_ipinfo database ip collects r
    else decoded (database.lookup ip) (λ result. result.asn) with_asn collects r

pub record Readers : Type 0 where
  pub city : Option Database
  pub asn : Option Database
  pub generation : ℕ

abbrev pub read_from :
    Option Database
    → (Database → GeoIpRecord → GeoIpRecord × Bool)
    → GeoIpRecord × Bool
    → GeoIpRecord × Bool
read_from none next (r, found) = (r, found)
read_from (some database) next (r, found) =
    let (more, answered) = next database r in (more, found || answered)

abbrev pub if_found : GeoIpRecord × Bool → Option GeoIpRecord
if_found (r, true) = some r
if_found (r, false) = none

unfoldable pub read : Readers → IpAddr → Bool → Option GeoIpRecord
unfolding read_city read_asn
read readers ip collects =
    let after_city =
      read_from readers.city (λ database r. read_city database ip collects r)
        (blank_record, false) in
    if_found (read_from readers.asn (λ database r. read_asn database ip collects r) after_city)
