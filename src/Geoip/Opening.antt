-- ===== src/Geoip/Opening.antt =====
-- src/geoip/enricher.rs: opening a handle, by paths or from what the download half acquired.
pub mod Stated
use factbook_rs.Geoip.Download.Guard.Probe.{DatabaseFormat, mmdb, csv, json}
use factbook_rs.Geoip.Engine.{Inner, opened}
use factbook_rs.Geoip.Reading.{Database}
use factbook_rs.Geoip.Refresh.{DatabaseBacking, Files, Source, Sources, open_source}
use factbook_rs.Prelude.Text.{Text, codes}
use factbook_rs.Prelude.{ℕ, Bool, Option, none, some, List, [], ◌∷◌}
use factbook_rs.Table.Build.{map_option}
use factbook_rs.Table.Query.{then_option}

pub data GeoIpLookupError : Type 0 where
  unsupported_format : Text → Text → GeoIpLookupError
  no_files : Text → GeoIpLookupError
  unopened : Text → GeoIpLookupError

pub data Opened {ℓ} (A : Type ℓ) : Type ℓ where
  opens : A → Opened A
  fails : GeoIpLookupError → Opened A

-- `?`
abbrev pub and_opens {ℓ κ} : {A : Type ℓ} {B : Type κ} → Opened A → (A → Opened B) → Opened B
and_opens (opens a) next = next a
and_opens (fails e) next = fails e

pub record DatabasePaths : Type 0 where
  pub city : Option Text
  pub asn : Option Text

pub record CacheConfig : Type 0 where
  pub max_age : Option ℕ
  pub resident_max_bytes : ℕ
  pub collect_extra_fields : Bool

-- a database that was acquired
pub record Provisioned : Type 0 where
  pub files : List Text
  pub format : DatabaseFormat

pub record Databases : Type 0 where
  pub city : Option Provisioned
  pub asn : Option Provisioned

abbrev pub Opening : Type 0
Opening = Source × (DatabaseBacking × Database)

abbrev pub or_unopened : Text → Option Opening → Opened (Option Opening)
or_unopened path none = fails (unopened path)
or_unopened path (some opening) = opens (some opening)

-- a database that is stated is opened
unfoldable pub open_stated : Files → ℕ → Option Text → Opened (Option Opening)
unfolding open_source
open_stated files resident_max_bytes none = opens none
open_stated files resident_max_bytes (some path) =
    or_unopened path (open_source files resident_max_bytes path)

abbrev pub source_of : Option Opening → Option Source
source_of = map_option (λ opening. opening.0)

abbrev pub reader_of : Option Opening → Option Database
reader_of = map_option (λ opening. opening.1.1)

unfoldable pub open_handle : Files → ℕ → DatabasePaths → CacheConfig → Opened (Sources × Inner)
unfolding open_stated opened
open_handle files now paths cache =
    and_opens (open_stated files cache.resident_max_bytes paths.city) (λ city.
      and_opens (open_stated files cache.resident_max_bytes paths.asn) (λ asn. opens (
        record { city = source_of city; asn = source_of asn },
        opened (reader_of city) (reader_of asn) cache.max_age cache.collect_extra_fields now,
      )))

-- `DatabaseFormat::name`
abbrev pub format_name : DatabaseFormat → Text
format_name mmdb = codes "MaxMind DB"
format_name csv = codes "CSV"
format_name json = codes "JSON"

abbrev pub if_mmdb : DatabaseFormat → Text → Opened (Option Text)
if_mmdb mmdb path = opens (some path)
if_mmdb csv path = fails (unsupported_format path (format_name csv))
if_mmdb json path = fails (unsupported_format path (format_name json))

abbrev pub first_file : Text → DatabaseFormat → List Text → Opened (Option Text)
first_file kind format [] = fails (no_files kind)
first_file kind format (path ∷ paths) = if_mmdb format path

unfoldable pub mmdb_path : Option Provisioned → Text → Opened (Option Text)
mmdb_path none kind = opens none
mmdb_path (some database) kind = first_file kind database.format database.files

unfoldable pub from_databases : Files → ℕ → Databases → CacheConfig → Opened (Sources × Inner)
unfolding mmdb_path open_handle
from_databases files now databases cache =
    and_opens (mmdb_path databases.city (codes "city")) (λ city.
      and_opens (mmdb_path databases.asn (codes "asn"))
        (λ asn. open_handle files now (record { city = city; asn = asn }) cache))
