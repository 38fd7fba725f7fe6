-- ===== src/Table/Source.antt =====
-- src/table/mod.rs, `TableSource::validate` and `transfer`: what a source that an operator states is
-- refused for, and the transfer that fetches it. What the URL parser refuses a URL for, and the file
-- name of a path, are parameters.
use factbook_rs.Geoip.Download.Guard.Probe.{DatabaseFormat}
use factbook_rs.Geoip.Fetch.Redact.{loggable}
use factbook_rs.Geoip.Fetch.Transfer.{Archive, anonymous, Transfer}
use factbook_rs.Prelude.Text.{Text, text_eq, text_eq_iff}
use factbook_rs.Prelude.{
  ◌≡◌, ◌≢◌, refl, Bool, true, false, Option, none, some, [], ◌∷◌, if◌then◌else◌, Bool-cases,
  Option-cases, inl, inr,
}
use factbook_rs.Table.Config.{TableFormat, csv, json, Schema, auto, named, Index}
use factbook_rs.Table.Error.{
  Result, ok, err, bad_url, unsafe_file_name, names_required, no_names, TableError,
}
use factbook_rs.Table.Query.{is_some_and}

pub data SourceArchive : Type 0 where
  raw gzip : SourceArchive

pub record TableSource : Type 0 where
  pub url : Text
  pub checksum_url : Option Text
  pub archive : SourceArchive
  pub file : Text
  pub format : TableFormat
  pub schema : Schema
  pub index : Index

-- `parse` is for the log, as in Geoip/Fetch/Redact.
pub record Paths : Type 0 where
  pub parse : Text → Option (Text × Option Text)
  pub url_error : Text → Option Text
  pub file_name : Text → Option Text

unfoldable pub check_names : TableFormat → Schema → Result (Unit {0})
check_names (csv false) auto = err names_required
check_names (csv true) auto = ok tt
check_names json auto = ok tt
check_names format (named []) = err no_names
check_names format (named (name ∷ names)) = ok tt

abbrev is_name_of : Text → Option Text → Bool
is_name_of file found = is_some_and found (λ name. text_eq name file)

abbrev check_file : Paths → TableSource → Result (Unit {0})
check_file paths source =
    if is_name_of source.file (paths.file_name source.file)
    then check_names source.format source.schema
    else err (unsafe_file_name source.file)

unfoldable pub validate_source : Paths → TableSource → Result (Unit {0})
unfolding check_names loggable
validate_source paths source = elim (paths.url_error source.url) [
  | some detail ↦ err (bad_url (loggable paths.parse source.url) detail)
  | none ↦ check_file paths source
]

unfoldable pub archive_of : SourceArchive → Archive
archive_of SourceArchive.raw = Archive.raw
archive_of SourceArchive.gzip = Archive.gzip

unfoldable pub format_of : TableFormat → DatabaseFormat
format_of (csv header) = DatabaseFormat.csv
format_of json = DatabaseFormat.json

unfoldable pub table_transfer : TableSource → Text → Transfer
unfolding archive_of format_of
table_transfer source dest = record {
  url = source.url;
  fallback_url = none;
  checksum_url = source.checksum_url;
  dest = dest;
  archive = archive_of source.archive;
  format = format_of source.format;
  credential = anonymous;
}

-- whether the columns have names
abbrev pub IsNamed : TableFormat → Schema → Type 0
IsNamed format (named names) = names ≢ []
IsNamed (csv header) auto = header ≡ true
IsNamed json auto = Unit

check_names-IsNamed :
    (format : TableFormat) (schema : Schema)
    → check_names format schema ≡ ok tt
    → IsNamed format schema
unfolding check_names
check_names-IsNamed (csv false) auto h = cc
check_names-IsNamed (csv true) auto h = refl
check_names-IsNamed json auto h = tt
check_names-IsNamed (csv header) (named []) h = cc
check_names-IsNamed json (named []) h = cc
check_names-IsNamed format (named (name ∷ names)) h = λ e. cc

err_not_ok {ℓ} : {A : Type ℓ} (e : TableError) (a : A) → err e ≡ ok a → ⊥
err_not_ok e a h = cc

is_name_of-some :
    (file : Text) (found : Option Text) → is_name_of file found ≡ true → found ≡ some file
is_name_of-some file none h = cc
is_name_of-some file (some name) h = let same = (text_eq_iff name file).0 h in rw same refl

-- A source that validates has a URL that parses, states a file name and no path, and names its
-- columns: in a list that is not empty, in the header of a CSV, or in the keys of JSON.
pub validate_source-IsNamed :
    (paths : Paths) (source : TableSource)
    → validate_source paths source ≡ ok tt
    → (paths.url_error source.url ≡ none)
      × (paths.file_name source.file ≡ some source.file)
      × IsNamed source.format source.schema
unfolding validate_source
validate_source-IsNamed paths source h = elim (Option-cases (paths.url_error source.url)) [
  | inr (detail, bad) ↦ absurd (err_not_ok _ tt (rw (bad, validate_source) at h))
  | inl good ↦ elim (Bool-cases (is_name_of source.file (paths.file_name source.file))) [
    | inr path ↦ absurd (err_not_ok _ tt (rw (good, path, validate_source) at h))
    | inl name ↦ (
      good,
      is_name_of-some source.file (paths.file_name source.file) name,
      check_names-IsNamed source.format source.schema (rw (good, name, validate_source) at h),
    )
  ]
]
