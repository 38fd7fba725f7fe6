-- ===== src/Tests/Lookups.antt =====
-- The theorems on the lookup path applied: two small databases, a cache and a swap.
use factbook_rs.Geoip.Engine.{
  idle, Inner, Action, begin_miss, insert_miss, wait, opened, steps, step, hit, cached, current,
  miss, swap_readers, lookup_many,
}
use factbook_rs.Geoip.Engine.Answers.{hit-reads, lookup_many-answer_of, answer_of}
use factbook_rs.Geoip.Engine.Sound.{serving, IsSound}
use factbook_rs.Geoip.Engine.Swapped.{hit-swap_readers}
use factbook_rs.Geoip.Extra.{
  Node, leaf, object, array, end, entry, stop, element, visit_str, visit_u64, visit_bool, collect,
  untyped, child, payload, value_of,
}
use factbook_rs.Geoip.Extra.Bounds.{IsBounded, collect-IsBounded}
use factbook_rs.Geoip.Extra.Leaves.{leaves, collect-untyped}
use factbook_rs.Geoip.Opening.{
  CacheConfig, Databases, from_databases, mmdb_path, open_handle, open_stated,
}
use factbook_rs.Geoip.Opening.Stated.{IsHeld, from_databases-IsHeld}
use factbook_rs.Geoip.Download.Guard.Probe.{mmdb}
use factbook_rs.Geoip.Reading.{City, Database, is_ipinfo, read}
use factbook_rs.Geoip.Reading.Merged.{typed_part, found_in, merged_if_found, read-merged}
use factbook_rs.Geoip.Record.{
  as_field, extra_get, FieldValue, ExtraValue, GeoIpRecord, blank_record, to_schema_map,
}
use factbook_rs.Geoip.Record.Schema.{Field, first_value, or_else, first_value-to_schema_map}
use factbook_rs.Geoip.Refresh.{
  resident, Files, Source, Sources, open_backing, open_source, has_moved, reopen, refreshed,
  refresh_if_changed,
}
use factbook_rs.Geoip.Refresh.Settles.{refresh_if_changed-settles, refresh_if_changed-retries}
use factbook_rs.Net.Address.{IpAddr, v4, address_eq, v4_eq}
use factbook_rs.Prelude.Int.{decimal}
use factbook_rs.Prelude.Parse.{strip_prefix}
use factbook_rs.Prelude.Text.{Text, codes}
use factbook_rs.Prelude.{◌+◌, ◌≡◌, refl, true, false, none, some, List, [], ◌∷◌, ◌++◌, map, arith}
use factbook_rs.Table.Build.{map_option}

abbrev resolver : IpAddr
resolver = v4 (record { a = 8; b = 8; c = 8; d = 8 })

abbrev at_home : IpAddr
at_home = v4 (record { a = 10; b = 0; c = 0; d = 1 })

abbrev city_of : Text → City
city_of name = record {
  city_name = some name;
  continent_code = none;
  continent_name = none;
  country_code = some (codes "US");
  country_name = none;
  subdivisions = (some (codes "one"), none) ∷ (some (codes "two"), some (codes "2")) ∷ [];
  postal_code = none;
  time_zone = none;
  latitude = none;
  longitude = none;
  metro_code = none;
  accuracy_radius = none;
}

abbrev city_database : Text → Database
city_database name = record {
  database_type = codes "City";
  lookup = λ ip. some (record {
    city = some (city_of name);
    asn = none;
    ipinfo = none;
    network = some (codes "net");
    node = none;
  });
}

abbrev asn_database : Database
asn_database = record {
  database_type = codes "ASN";
  lookup = λ ip. some (record {
    city = none;
    asn = some (record { number = some 15169; organisation = some (codes "org") });
    ipinfo = none;
    network = none;
    node = none;
  });
}

read-merged_example :
    map_option typed_part (
      read
        (record {
          city = some (city_database (codes "a"));
          asn = some asn_database;
          generation = 3;
        })
        resolver
        false)
    ≡ merged_if_found
        (found_in ((city_database (codes "a")).lookup resolver) (λ result. result.city))
        (found_in (asn_database.lookup resolver) (λ result. result.asn))
unfolding is_ipinfo strip_prefix
read-merged_example =
    read-merged (city_database (codes "a")) asn_database 3 resolver false refl refl

-- a lookup that missed and was inserted, a moment ago
abbrev missed : List Action
missed = begin_miss resolver ∷ insert_miss 0 ∷ wait 5 ∷ []

abbrev handle : Inner
handle = opened (some (city_database (codes "a"))) none (some 60) false 1000

hit-reads_example :
    (miss handle resolver).answer
    ≡ read
        (serving (steps missed handle).swap (steps missed handle).readers)
        resolver
        (steps missed handle).collect_extra_fields
unfolding steps step hit cached current miss opened address_eq v4_eq
hit-reads_example =
    hit-reads (some (city_database (codes "a"))) none (some 60) false 1000 missed resolver
      (miss handle resolver) refl

lookup_many-answer_of_example :
    (lookup_many (steps missed handle) (at_home ∷ resolver ∷ resolver ∷ [])).1
    ≡ map
        (answer_of (steps missed handle).readers (steps missed handle).collect_extra_fields)
        (at_home ∷ resolver ∷ resolver ∷ [])
unfolding steps step opened
lookup_many-answer_of_example =
    lookup_many-answer_of (some (city_database (codes "a"))) none (some 60) false 1000 missed
      (at_home ∷ resolver ∷ resolver ∷ []) refl

-- a miss that read the old database, which is inserted behind a swap beside a new one
abbrev straddling : List Action
straddling = insert_miss 0 ∷ begin_miss resolver ∷ insert_miss 0 ∷ []

abbrev swapped : Inner
swapped =
    swap_readers (some (city_database (codes "b"))) none (steps (begin_miss resolver ∷ []) handle)

hit-swap_readers_example :
    (miss swapped resolver).answer
    ≡ read
        (record {
          city = some (city_database (codes "b"));
          asn = none;
          generation = (steps (begin_miss resolver ∷ []) handle).generation + 1;
        })
        resolver
        (steps (begin_miss resolver ∷ []) handle).collect_extra_fields
unfolding steps step hit cached current miss opened address_eq v4_eq swap_readers
hit-swap_readers_example =
    hit-swap_readers (some (city_database (codes "a"))) none (some (city_database (codes "b"))) none
      (some 60) false 1000 (begin_miss resolver ∷ []) straddling resolver (miss swapped resolver)
      refl refl refl

-- a record with a nested map and a list
abbrev tree : Node
tree = object (
    entry (codes "a") (leaf (visit_str (codes "x"))) (
      entry (codes "b")
        (array (element (leaf (visit_u64 7)) (element (leaf (visit_bool true)) stop))) end))

collect-IsBounded_example : IsBounded blank_record (collect (some tree) blank_record)
collect-IsBounded_example = collect-IsBounded (some tree) blank_record

collect-untyped_example :
    (collect (some tree) blank_record).extra
    ≡ blank_record.extra ++ untyped blank_record (leaves [] tree)
unfolding child payload value_of decimal
collect-untyped_example =
    collect-untyped tree blank_record (tt, ((tt, (tt, tt)), tt)) (omega arith) (omega arith)

abbrev answer : GeoIpRecord
answer = record blank_record {
  country_code = some (codes "US");
  extra = (codes "country_code", ExtraValue.str (codes "??")) ∷ [];
}

first_value-to_schema_map_example :
    first_value (codes "country_code") (to_schema_map answer)
    ≡ or_else
        (some (FieldValue.str (codes "US")))
        (map_option as_field (extra_get (codes "country_code") answer.extra))
first_value-to_schema_map_example = first_value-to_schema_map answer Field.country_code

-- a file that is being replaced, and the file that has replaced it
abbrev torn_files : Files
torn_files = record {
  file_mtime = λ path. some 20;
  file_len = λ path. some 100;
  open_readfile = λ path. none;
  open_mmap = λ path. none;
}

abbrev whole_files : Files
whole_files = record {
  file_mtime = λ path. some 30;
  file_len = λ path. some 100;
  open_readfile = λ path. some (city_database (codes "b"));
  open_mmap = λ path. none;
}

abbrev source : Source
source = record { path = codes "city.mmdb"; mtime = some 10 }

abbrev sources : Sources
sources = record { city = some source; asn = none }

refresh_if_changed-settles_example :
    (let (after, next, outcome) = refresh_if_changed whole_files 1000 sources handle in
      refresh_if_changed whole_files 1000 after next ≡ (after, next, refreshed false))
unfolding refresh_if_changed reopen has_moved open_backing
refresh_if_changed-settles_example =
    refresh_if_changed-settles whole_files 1000 sources handle true refl

refresh_if_changed-retries_example :
    (let (after, next, outcome) = refresh_if_changed torn_files 1000 sources handle in
      (refresh_if_changed whole_files 1000 after next).1.readers.city
      ≡ some (city_database (codes "b")))
unfolding refresh_if_changed reopen has_moved open_backing opened
refresh_if_changed-retries_example =
    refresh_if_changed-retries torn_files whole_files 1000 sources source handle (codes "city.mmdb")
      (resident, city_database (codes "b")) refl refl refl refl refl

-- a city database that was acquired, and no ASN database
abbrev databases : Databases
databases = record {
  city = some (record { files = codes "city.mmdb" ∷ []; format = mmdb });
  asn = none;
}

abbrev settings : CacheConfig
settings = record { max_age = some 60; resident_max_bytes = 1000; collect_extra_fields = false }

abbrev opened_handle : Inner
opened_handle = opened (some (city_database (codes "b"))) none (some 60) false 1000

abbrev opened_sources : Sources
opened_sources = record {
  city = some (record { path = codes "city.mmdb"; mtime = some 30 });
  asn = none;
}

from_databases-IsHeld_example :
    IsHeld whole_files settings.resident_max_bytes databases.city opened_sources.city
      opened_handle.readers.city
    × IsHeld whole_files settings.resident_max_bytes databases.asn opened_sources.asn
        opened_handle.readers.asn
    × IsSound opened_handle
    × (opened_handle.swap ≡ idle)
unfolding from_databases mmdb_path open_handle open_stated open_source open_backing opened
from_databases-IsHeld_example =
    from_databases-IsHeld whole_files 1000 databases settings opened_sources opened_handle refl
