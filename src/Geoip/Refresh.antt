-- ===== src/Geoip/Refresh.antt =====
-- src/geoip/refresh.rs: reopening the databases whose files have changed, and src/geoip/enricher.rs,
-- `open_backing` and `open_source`. What the file system says of a path and what opens there are
-- parameters.
pub mod Settles
use factbook_rs.Geoip.Engine.{Inner, swap_readers}
use factbook_rs.Geoip.Reading.{Database}
use factbook_rs.Prelude.Text.{Text}
use factbook_rs.Prelude.{
  ℕ, Bool, true, false, not, ◌||◌, Option, none, some, ltb, ◌==◌, if◌then◌else◌,
}
use factbook_rs.Table.Build.{map_option}

pub data DatabaseBacking : Type 0 where
  resident mapped : DatabaseBacking

-- times since the epoch, lengths, and the two ways of opening a database
pub record Files : Type 0 where
  pub file_mtime : Text → Option ℕ
  pub file_len : Text → Option ℕ
  pub open_readfile : Text → Option Database
  pub open_mmap : Text → Option Database

pub record Source : Type 0 where
  pub path : Text
  pub mtime : Option ℕ

pub record Sources : Type 0 where
  pub city : Option Source
  pub asn : Option Source

abbrev is_large : Option ℕ → ℕ → Bool
is_large none resident_max_bytes = true
is_large (some len) resident_max_bytes = ltb resident_max_bytes len

unfoldable pub open_backing : Files → Text → ℕ → Option (DatabaseBacking × Database)
open_backing files path resident_max_bytes =
    if is_large (files.file_len path) resident_max_bytes
    then map_option (λ database. (mapped, database)) (files.open_mmap path)
    else map_option (λ database. (resident, database)) (files.open_readfile path)

-- The time is taken before the file is opened.
unfoldable pub open_source : Files → ℕ → Text → Option (Source × (DatabaseBacking × Database))
unfolding open_backing
open_source files resident_max_bytes path =
    map_option (λ backing. (record { path = path; mtime = files.file_mtime path }, backing))
      (open_backing files path resident_max_bytes)

-- what one database comes to: it is where it was, it is reopened, or it does not open
pub data Reopened : Type 0 where
  unmoved : Reopened
  reopened : Database → Reopened
  unopened : Text → Reopened

-- whether a file is to be reopened, from its time and the time that is recorded
unfoldable pub has_moved : Option ℕ → Option ℕ → Bool
has_moved none recorded = false
has_moved (some mtime) none = true
has_moved (some mtime) (some recorded) = not (mtime == recorded)

abbrev pub reopened_as : Source → Option ℕ → Option (DatabaseBacking × Database) → Source × Reopened
reopened_as source mtime none = (source, unopened source.path)
reopened_as source mtime (some backing) = (record source { mtime = mtime }, reopened backing.1)

unfoldable pub reopen : Files → ℕ → Source → Source × Reopened
unfolding has_moved open_backing
reopen files resident_max_bytes source =
    let mtime = files.file_mtime source.path in
    if has_moved mtime source.mtime
    then reopened_as source mtime (open_backing files source.path resident_max_bytes)
    else (source, unmoved)

abbrev pub reopen_if : Files → ℕ → Option Source → Option Source × Reopened
reopen_if files resident_max_bytes none = (none, unmoved)
reopen_if files resident_max_bytes (some source) =
    let (after, r) = reopen files resident_max_bytes source in (some after, r)

abbrev pub next_reader : Option Database → Reopened → Option Database
next_reader reader unmoved = reader
next_reader reader (unopened path) = reader
next_reader reader (reopened database) = some database

abbrev pub is_reopened : Reopened → Bool
is_reopened (reopened database) = true
is_reopened unmoved = false
is_reopened (unopened path) = false

-- whether anything was swapped, or the path that did not open, the city's first
pub data Refreshed : Type 0 where
  refreshed : Bool → Refreshed
  failure : Text → Refreshed

abbrev pub report : Reopened → Reopened → Bool → Refreshed
report (unopened path) asn changed = failure path
report unmoved (unopened path) changed = failure path
report (reopened database) (unopened path) changed = failure path
report unmoved unmoved changed = refreshed changed
report unmoved (reopened database) changed = refreshed changed
report (reopened database) unmoved changed = refreshed changed
report (reopened database) (reopened other) changed = refreshed changed

unfoldable pub refresh_if_changed : Files → ℕ → Sources → Inner → Sources × Inner × Refreshed
unfolding reopen swap_readers
refresh_if_changed files resident_max_bytes sources inner =
    let city = reopen_if files resident_max_bytes sources.city in
    let asn = reopen_if files resident_max_bytes sources.asn in
    let changed = is_reopened city.1 || is_reopened asn.1 in
    (
      record { city = city.0; asn = asn.0 },
      if changed
          then swap_readers (next_reader inner.readers.city city.1)
              (next_reader inner.readers.asn asn.1) inner
          else inner,
      report city.1 asn.1 changed,
    )
