-- ===== src/Lib.antt =====
-- A verification library for the crate `factbook`, which reads published tables and geolocation
-- databases, indexes them by text, address or prefix, and answers lookups and queries from memory.
--
-- The parts, and the files that model them:
--
-- - src/table/parse.rs reads a source file. `Csv`, its state machine over bytes, is Table/Csv: one
--   function per method, with the fields of the struct as the fields of a record, and `feed` as the
--   loop of `records` over a chunk. Table/ReadCsv is `records`, `strip_bom` and `read_csv`; the
--   reader is the list of the chunks that `fill_buf` hands out, where `none` is a failed read.
--   Table/Csv/Document describes the files that publishers write, independently of the reader.
--   Table/Json is the visitor behind `read_json`.
-- - src/table/mod.rs keeps the parsed rows and an index over them. Table/Index is `Budget` and the
--   choice of a key column, Table/Build is `Table`, `build`, `positions_of` and `positions_at`.
--   Table/Source is `TableSource::validate` and `transfer`. Table/Positions describes an index by the
--   rows that pass a test.
-- - src/table/query.rs answers conditions. Table/Query is `Condition`, `Query`, `find`, `narrow`,
--   `satisfies`, `Walk` and the iterator `Matches`; Table/Query/Walks says what a walk hands out.
-- - src/table/config.rs: Table/Config. The errors: Table/Error.
-- - src/geoip/private.rs: Geoip/Private, the addresses that are never looked up.
-- - src/geoip/download/mod.rs: Geoip/Download/Error, the errors and their classes,
--   and Geoip/Download/Settings, the checks of the settings and of a file's age.
--   src/geoip/download/cooldown.rs: Geoip/Download/Cooldown, the stamps and the suppressions, and
--   `attempt` of mod.rs, which asks them before a fetch and tells them its result after.
--   src/geoip/download/verify.rs: Geoip/Download/Guard, with the size floor of a staged file; its
--   child Probe looks known addresses up in it, and Admit is `Guard::admit`.
-- - src/geoip/download/fetch.rs: Geoip/Fetch. Redact is `loggable`; Writer is `PartWriter`,
--   one function per method; Transfer holds the request, the response and the refusals; Stream is
--   `stream_from`, `stream_to` and `stream_with_fallback`, which take the part file and return it;
--   Materialise is the archives and the way from the part file to the destination; Run is
--   `fetch_checksum` and `fetch`, which composes them.
-- - src/geoip/record.rs: Geoip/Record. src/geoip/extra.rs: Geoip/Extra, the walk over a record as
--   a tree.
-- - src/geoip/enricher.rs: Geoip/Reading is `read` and the readers of the three kinds of database;
--   Geoip/Engine is the cache. What its threads do is a list of steps, each of which is one access
--   to the shared state: a miss reads the databases in one and inserts its entry in another, and
--   `swap_readers` is three of them. Geoip/Opening is `open` and `from_databases`.
--   src/geoip/refresh.rs: Geoip/Refresh.
-- - src/geoip/download/source.rs: Geoip/Sources, with `SOURCES` in its child Table and `select`,
--   `transfer` and `staleness_window` in Select. Geoip/Provision is `plan`, `download`, `resolve`
--   (`resolve_kind`), `ensure_databases` and `validate` of src/geoip/download/mod.rs.
-- - Net is the addresses of the standard library; Prelude is what all of them share.
--
-- The readers produce `Parsed`, `build` turns it into a `Table`, and `find` and the lookups read
-- the table. A text is the list of its bytes, and every size is a natural number with the code's
-- saturating addition written out at 2 ^ 64 - 1; `usize` is 64 bits wide.
--
-- What is not under the crate is an interface. Net/Networks holds the text form of addresses and
-- the crates ipnet and prefix_trie, with the laws that they document; Table/Index has `Allocation`,
-- the capacities that the standard library leaves open; Table/Query has `Reading`, the clock,
-- chrono's date parsers and the Unicode case table. Tests/World fills the three of them. Of the
-- geo half, `World` is the network and what becomes of writes to the part file, `Tools` the
-- decoders and the system calls that can fail, `Machine` both with the digest and the lock;
-- `Database` is an open mmdb database, `Platform`
-- the calendar and the joining of paths, `Host` what provisioning asks of the machine, and `Files` what the file system says of one. Their one
-- law is that a transfer which succeeds reports its destination. Removing a file does not fail, and a write either lands or leaves a file that the
-- transfer removes. Tests/Lookups and Tests/Transfers fill these.
--
-- `Matches::next` is a loop, and takes fuel: one round more than the positions that its walk has
-- left, and `collect` calls it once more than the table has rows. That both are enough is part of
-- the theorem about them. `skip_spaces` takes the length of its text. All other loops are structural.
--
-- Not modelled: log lines and metrics, the deserialisation of configuration and of stored records, the bytes of an mmdb database and the
-- tokens of JSON, which maxminddb and serde_json read, and the asynchronous lookup, which is the
-- blocking one up to how it waits.
pub mod Prelude
pub mod Net
pub mod Geoip
pub mod Table
pub mod Tests
