-- ===== src/Tests/Witnesses.antt =====
-- The theorems applied: a CSV file read, tables built from rows, and queries on them.
use factbook_rs.Geoip.Download.Cooldown.Attempts.{Try, after_all, attempt-after_all}
use factbook_rs.Geoip.Download.Cooldown.HoldsBack.{attempt-success}
use factbook_rs.Geoip.Download.Cooldown.{
  Cooldowns, attempt, waiting, ran, wait_for, suppressed, stamped,
}
use factbook_rs.Geoip.Download.Error.{GeoIpDownloadError, rate_limited}
use factbook_rs.Geoip.Download.Guard.Floor.{check_size_iff}
use factbook_rs.Geoip.Download.Guard.{passes, check_size}
use factbook_rs.Geoip.Download.Settings.{AutoDownload, check_settings, check_settings_iff}
use factbook_rs.Geoip.Private.Mapped.{mapped, is_private-mapped}
use factbook_rs.Geoip.Private.{is_private}
use factbook_rs.Net.Address.{Ipv4Addr, v4, v6}
use factbook_rs.Prelude.Text.{Text, codes, text_eq, to_ascii_lowercase, is_utf8, utf8_from}
use factbook_rs.Prelude.{
  false, ℕ, ◌≤◌, ◌<◌, ◌↔◌, ◌*◌, ◌≡◌, refl, true, none, some, List, [], ◌∷◌, map, arith, inl, inr,
}
use factbook_rs.Table.Build.Indexed.{IsIndexed, build-IsIndexed}
use factbook_rs.Table.Build.{
  Table, prefix, build, charge_columns, find_key_column, build_keys, file_prefix, file_range,
  as_prefix,
}
use factbook_rs.Table.Index
use factbook_rs.Table.Json.Union.{Reads, IsUnion, read_json-IsUnion}
use factbook_rs.Table.Json.{
  JsonValue, Seen, value, string, compact, read_json, visit_seq, visit, add_object, add_keys,
  add_key, insertion, insert_at, text_lt, member, cell_of_value, cell_of_scalar,
}
use factbook_rs.Prelude.Keyed
use factbook_rs.Table.Cell.{cell, footprint, widened, Parsed, cell_of_text}
use factbook_rs.Table.Config.{Index, auto}
use factbook_rs.Table.Csv.Bounds.{Finished}
use factbook_rs.Table.Csv.Document.{
  Document, row, blank, bare, quoted, crlf, document_records, document_cost,
}
use factbook_rs.Table.Csv.{
  new, feed, finish, byte, byte_in, begin, push, charge, end_field, end_record, newline, carriage,
}
use factbook_rs.Table.Error.{ok}
use factbook_rs.Table.Query.Find.{collect-find}
use factbook_rs.Table.Query.{
  equals, Query, find, collect, resolve, position_of, condition_column, satisfies, satisfies_each,
  accepts, equal,
}
use factbook_rs.Table.ReadCsv.Bounds.{finish-feed_chunks-Finished}
use factbook_rs.Table.ReadCsv.Shape.{IsTable, read_csv-IsTable}
use factbook_rs.Table.ReadCsv.Written.{records-write_document}
use factbook_rs.Table.ReadCsv.{
  feed_chunks, records, strip_bom, rows_of, read_csv, header_columns, refuse_none, strip_first,
  strip_mark,
}
use factbook_rs.Tests.World.{networks, allocation, reading}

abbrev names : List Text
names = codes "network" ∷ codes "owner" ∷ []

-- two prefixes and a row without a key
abbrev parsed : Parsed
parsed = record {
  columns = names;
  rows =
      (some (codes "/ab") ∷ some (codes "us") ∷ [])
      ∷ (none ∷ some (codes "nobody") ∷ [])
      ∷ (some (codes "/a") ∷ some (codes "them") ∷ [])
      ∷ (some (codes "/ab") ∷ some (codes "us too") ∷ [])
      ∷ [];
  held = 100;
}

abbrev table : Table networks
table = record {
  columns = names;
  key_column = 0;
  rows = parsed.rows;
  keys = prefix ((4 ∷ codes "ab", 0 ∷ 3 ∷ []) ∷ (4 ∷ codes "a", 2 ∷ []) ∷ []) [];
}

built : build networks allocation parsed Index.prefix 10000 ≡ ok table
unfolding build charge_columns find_key_column build_keys file_prefix file_range as_prefix
    Index.charge Index.paid Index.push Index.keyed_column Index.position Index.holds Keyed.get
    Keyed.insert cell text_eq to_ascii_lowercase
built = refl

-- us, exactly
abbrev query : Query reading
query = record {
  conditions = equals (codes "network") (codes "/ab") ∷ [];
  case_sensitive = true;
  wildcard = some (codes "/a");
  select = none;
}

build-IsIndexed_example :
    IsIndexed networks table × (0 < 2) × (names ≡ names) × (parsed.rows ≡ parsed.rows)
build-IsIndexed_example = build-IsIndexed networks allocation parsed Index.prefix 10000 built

collect-find_example :
    collect reading networks table query 5 (find reading networks table query)
    ≡ some (0 ∷ 2 ∷ 3 ∷ [])
unfolding resolve position_of condition_column satisfies satisfies_each accepts equal text_eq
    Index.position cell
collect-find_example = collect-find reading networks table query build-IsIndexed_example.0

-- a quoted field that holds every byte that the reader acts on
abbrev document : Document
document = record {
  ending = crlf;
  lines =
      row (record { style = bare; text = codes "owner" })
        ((record { style = bare; text = codes "ip" }) ∷ [])
      ∷ blank
      ∷ row (record { style = quoted; text = codes "a,\"\n" })
          ((record { style = bare; text = [] }) ∷ [])
      ∷ [];
  last =
      some (
        record { style = bare; text = codes "b" },
        (record { style = bare; text = codes "c" }) ∷ [],
      );
}

abbrev pieces : List Text
pieces = codes "owner,ip\r" ∷ codes "\n\r\n\"a,\"\"" ∷ codes "\n\",\r\nb,c" ∷ []

records-write_document_example :
    records (map some pieces) 1000
    ≡ ok (strip_bom (document_records document), document_cost document)
unfolding is_utf8 utf8_from
records-write_document_example =
    records-write_document document pieces 1000 (ground arith)
      ((λ e. cc), ((λ e. cc), ((λ e. cc), tt))) refl (omega arith) (omega arith)

finish-feed_chunks-Finished_example :
    Finished 1000 (document_records document) (document_cost document)
unfolding feed_chunks feed byte byte_in begin push charge end_field end_record newline carriage
    finish new is_utf8 utf8_from
finish-feed_chunks-Finished_example =
    finish-feed_chunks-Finished 1000 (map some pieces) (omega arith) refl

read_csv-IsTable_example : IsTable 1000 (record {
  columns = codes "owner" ∷ codes "ip" ∷ [];
  rows = (some (codes "a,\"\n") ∷ none ∷ []) ∷ (some (codes "b") ∷ some (codes "c") ∷ []) ∷ [];
  held = document_cost document;
})
unfolding read_csv records header_columns rows_of refuse_none strip_bom strip_first strip_mark
    cell_of_text feed_chunks feed byte byte_in begin push charge end_field end_record newline
    carriage finish new is_utf8 utf8_from
read_csv-IsTable_example = read_csv-IsTable (map some pieces) true auto 1000 (omega arith) refl

-- a member is an object of no members, and an object has its members in a list
pub data Tree : Type 0 where
  leaf : Text → Tree
  one : Text → Text → Tree
  two : Text → Text → Text → Text → Tree

abbrev trees : JsonValue Tree
trees = record {
  scalar = λ t. elim t [ leaf x ↦ string x | one k x ↦ compact k | two j x k y ↦ compact j ];
  members = λ t. elim t [
    | leaf x ↦ none
    | one k x ↦ some ((k, leaf x) ∷ [])
    | two j x k y ↦ some ((j, leaf x) ∷ (k, leaf y) ∷ [])
  ];
}

-- a key that turns up in the second object, and stands in front
abbrev elements : List (ℕ → Seen Tree)
elements =
    (λ room. value (one (codes "b") (codes "x")))
    ∷ (λ room. value (two (codes "b") (codes "y") (codes "a") (codes "z")))
    ∷ []

abbrev union : Parsed
union = record {
  columns = codes "a" ∷ codes "b" ∷ [];
  rows = (none ∷ some (codes "x") ∷ []) ∷ (some (codes "z") ∷ some (codes "y") ∷ []) ∷ [];
  held = 131;
}

read_json-IsUnion_example :
    (read : List (List (Text × Tree))) × Reads trees elements read
    × IsUnion trees read union.columns union.rows
unfolding read_json visit_seq visit add_object add_keys add_key insertion insert_at text_lt text_eq
    member cell_of_value cell_of_scalar cell_of_text footprint widened refuse_none
read_json-IsUnion_example = read_json-IsUnion trees none elements none 1000 refl

abbrev limited : GeoIpDownloadError
limited = rate_limited (codes "ipinfo") (some 100)

abbrev nothing_known : Cooldowns
nothing_known = record { stamps = []; held = [] }

-- an attempt of the file, and one of another file that succeeds
abbrev tries : List Try
tries =
    (record {
      at = 20;
      over = 20;
      writable = true;
      file = codes "city";
      fingerprint = 7;
      result = none;
    })
    ∷ (record {
      at = 30;
      over = 40;
      writable = true;
      file = codes "asn";
      fingerprint = 9;
      result = none;
    })
    ∷ []

attempt-after_all_example :
    (left : ℕ) × ((attempt 50 60 false (some (codes "city")) 7 none (
        after_all tries
          (attempt 10 12 true (some (codes "city")) 7 (some limited) nothing_known).1)).0
      ≡ waiting left)
unfolding wait_for suppressed stamped Keyed.get text_eq
attempt-after_all_example =
    attempt-after_all 10 12 50 60 false (codes "city") limited 7 100 tries none nothing_known refl
      refl (inr (refl, refl, omega arith), (inl refl, tt)) (omega arith)

attempt-success_example :
    (attempt 50 60 false
      (some (codes "city"))
      8
      (some limited)
      (attempt 10 12 true (some (codes "city")) 7 none nothing_known).1).0
    ≡ ran (some limited)
unfolding wait_for suppressed stamped Keyed.get
attempt-success_example =
    attempt-success 10 12 50 60 false (codes "city") 7 8 (some limited) nothing_known refl

abbrev carrier : Ipv4Addr
carrier = record { a = 100; b = 100; c = 50; d = 1 }

is_private-mapped_example : is_private (v6 (mapped carrier)) ≡ is_private (v4 carrier)
is_private-mapped_example =
    is_private-mapped carrier (omega arith, omega arith, omega arith, omega arith)

check_size_iff_example :
    (check_size 50 (codes "city") (some 1000) (some 499) ≡ passes) ↔ (1000 * 50 ≤ 499 * 100)
check_size_iff_example = check_size_iff 50 (codes "city") 1000 499 (omega arith) (omega arith)

abbrev settings : AutoDownload
settings = record { connect_timeout_secs = 10; read_timeout_secs = 0; min_size_percent = 50 }

check_settings_iff_example :
    (check_settings settings false ≡ passes) ↔ ((false ≡ false → (0 < 10) × (0 < 0)) × (50 ≤ 100))
check_settings_iff_example = check_settings_iff settings false
