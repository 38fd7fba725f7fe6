-- ===== src/Geoip/Fetch/Materialise.antt =====
-- src/geoip/download/fetch.rs: `holds_a_database`, `copy_bounded`, `extract_member` and
-- `materialise_guarded`, from the bytes of the part file to the staged file and the destination.
pub mod Made
pub mod Replaces
use factbook_rs.Geoip.Download.Error.{
  GeoIpDownloadError, Result, ok, err, io, too_large, archive_member_missing, not_a_database,
}
use factbook_rs.Geoip.Fetch.Transfer.{Archive, raw, gzip, tar_gz, max_expanded_bytes}
use factbook_rs.Geoip.Download.Guard.{Checked, passes, refused}
use factbook_rs.Geoip.Download.Guard.Admit.{Guard, admit}
use factbook_rs.Geoip.Download.Guard.Probe.{DatabaseFormat, mmdb, csv, json, Reader}
use factbook_rs.Prelude.Parse.{strip_prefix}
use factbook_rs.Prelude.Text.{Text, codes, text_eq, to_ascii_lowercase}
use factbook_rs.Prelude.{
  ℕ, zero, suc, ◌+◌, ◌-◌, ◌*◌, Bool, true, false, not, ◌&&◌, ◌||◌, Option, none, some, List, [],
  ◌∷◌, ltb, if◌then◌else◌, length, take, any,
}
use factbook_rs.Table.Build.{map_option}
use factbook_rs.Table.Query.{is_some_and}

abbrev pub mmdb_marker : Text
mmdb_marker = 0xab ∷ 0xcd ∷ 0xef ∷ codes "MaxMind.com"

abbrev pub metadata_tail_bytes : ℕ
metadata_tail_bytes = 128 * 1024

abbrev pub markup_openers : List Text
markup_openers = codes "<!doctype" ∷ codes "<html" ∷ codes "<?xml" ∷ []

abbrev pub markup_head_bytes : ℕ
markup_head_bytes = 64

-- What a reader yields before its end, or before it fails.
pub record Stream : Type 0 where
  pub bytes : Text
  pub ends : Bool

-- An entry of an archive; its name is none if its path has no file name, and the path none if it
-- cannot be read.
pub record Member : Type 0 where
  pub is_file : Bool
  pub path : Option (Option Text)
  pub contents : Stream

-- What the decoders read out of a file (none is an entry that cannot be read, or an archive with no
-- entries to read), what the database reader opens, and which of the system calls succeed.
pub record Tools : Type 0 where
  pub gunzip : Text → Stream
  pub entries : Text → Option (List (Option Member))
  pub open_reader : Text → Option Reader
  pub creates_staged : Bool
  pub flushes : Bool
  pub renames_part : Bool
  pub opens_staged : Bool
  pub sizes_staged : Bool
  pub syncs : Bool
  pub renames_staged : Bool

-- the files of a transfer
pub record Disk : Type 0 where
  pub part : Option Text
  pub staged : Option Text
  pub dest : Option Text

-- the text behind its first bytes
unfoldable pub drop : ℕ → Text → Text
drop zero text = text
drop (suc n) [] = []
drop (suc n) (b ∷ text) = drop n text

abbrev starts_with : Text → Text → Bool
starts_with text prefix = is_some_and (strip_prefix prefix text) (λ rest. true)

-- `windows(..).any(..)`
unfoldable pub has_window : Text → Text → Bool
unfolding strip_prefix
has_window marker [] = starts_with [] marker
has_window marker (b ∷ text) = starts_with (b ∷ text) marker || has_window marker text

unfoldable pub is_markup : Text → Bool
unfolding to_ascii_lowercase strip_prefix
is_markup text =
    any (λ opener. starts_with (to_ascii_lowercase (take markup_head_bytes text)) opener)
      markup_openers

-- `holds_a_database`, of a file that opens
unfoldable pub holds_a_database : Text → DatabaseFormat → Bool
unfolding has_window is_markup drop
holds_a_database file mmdb = has_window mmdb_marker (drop (length file - metadata_tail_bytes) file)
holds_a_database file csv = not (is_markup file)
holds_a_database file json = not (is_markup file)

-- The file that is written, and the error: a read that fails before the limit is passed ends it.
unfoldable pub copy_bounded : Bool → Stream → Text → ℕ → Text × Result (Unit {0})
copy_bounded flushes source dest limit =
    let copied = take (limit + 1) source.bytes in
    if not source.ends && not (ltb limit (length source.bytes))
    then (copied, err io)
    else if not flushes
    then (copied, err io)
    else if ltb limit (length copied)
    then (copied, err (too_large dest limit))
    else (copied, ok tt)

abbrev pub created : Bool → Option Text → Text × Result (Unit {0}) → Option Text × Result (Unit {0})
created false staged written = (staged, err io)
created true staged written = (some written.0, written.1)

-- whether an entry is the member, none if its path cannot be read
unfoldable pub is_match : Text → Member → Option Bool
is_match member entry =
    if entry.is_file
    then map_option (λ name. is_some_and name (λ text. text_eq text member)) entry.path
    else some false

abbrev pub on_match {ℓ} : {A : Type ℓ} → Option Bool → A → A → A → A
on_match none unread found other = unread
on_match (some true) unread found other = found
on_match (some false) unread found other = other

unfoldable pub extract_from :
    Tools → Text → Text → Option Text → List (Option Member) → Option Text × Result (Unit {0})
unfolding copy_bounded is_match
extract_from tools member dest staged [] = (staged, err (archive_member_missing member))
extract_from tools member dest staged (none ∷ entries) = (staged, err io)
extract_from tools member dest staged (some entry ∷ entries) =
    on_match (is_match member entry) (staged, err io)
      (created tools.creates_staged staged
        (copy_bounded tools.flushes entry.contents dest max_expanded_bytes))
      (extract_from tools member dest staged entries)

unfoldable pub extract_member :
    Tools → Text → Text → Text → Option Text → Option Text × Result (Unit {0})
unfolding extract_from
extract_member tools source member dest staged = elim (tools.entries source) [
  | none ↦ (staged, err io)
  | some entries ↦ extract_from tools member dest staged entries
]

-- the part file turned into the staged file
unfoldable pub stage : Tools → Text → Text → Archive → Disk → Disk × Result (Unit {0})
unfolding copy_bounded extract_member
stage tools source dest raw disk =
    if tools.renames_part
    then (record disk { part = none; staged = some source }, ok tt)
    else (disk, err io)
stage tools source dest gzip disk =
    let (staged, done) =
      created tools.creates_staged disk.staged
        (copy_bounded tools.flushes (tools.gunzip source) dest max_expanded_bytes) in
    (record disk { staged = staged }, done)
stage tools source dest (tar_gz member) disk =
    let (staged, done) = extract_member tools source member dest disk.staged in
    (record disk { staged = staged }, done)

abbrev pub replaced : Tools → Text → Disk → Disk × Result ℕ
replaced tools file disk =
    if not tools.sizes_staged || not tools.syncs || not tools.renames_staged
    then (disk, err io)
    else (record disk { staged = none; dest = some file }, ok (length file))

abbrev pub if_admitted : Disk → Checked → Disk × Result ℕ → Disk × Result ℕ
if_admitted disk passes done = done
if_admitted disk (refused e) done = (disk, err e)

-- a staged file that is checked, and put in place
unfoldable pub install :
    Tools → Guard → Text → DatabaseFormat → Option Text → Disk → Disk × Result ℕ
unfolding holds_a_database admit
install tools guard dest format none disk = (disk, err io)
install tools guard dest format (some file) disk =
    if not tools.opens_staged
    then (disk, err io)
    else if not (holds_a_database file format)
    then (disk, err (not_a_database dest))
    else if_admitted disk (admit tools.open_reader guard dest disk.dest file format)
        (replaced tools file disk)

abbrev pub if_staged : Disk × Result (Unit {0}) → (Disk → Disk × Result ℕ) → Disk × Result ℕ
if_staged (disk, err e) next = (disk, err e)
if_staged (disk, ok done) next = next disk

unfoldable pub materialise_guarded :
    Tools → Guard → Text → Archive → DatabaseFormat → Disk → Disk × Result ℕ
unfolding stage install
materialise_guarded tools guard dest archive format disk = elim disk.part [
  | none ↦ (disk, err io)
  | some source ↦
      if_staged (stage tools source dest archive disk)
        (λ staged. install tools guard dest format staged.staged staged)
]
