-- ===== src/Geoip/Fetch/Transfer.antt =====
-- src/geoip/download/fetch.rs: a transfer, what the network and the system do for it, and the error
-- for a response that refuses.
use factbook_rs.Geoip.Download.Error.{
  GeoIpDownloadError, unexpected_status, not_entitled, credential_rejected, rate_limited,
}
use factbook_rs.Geoip.Fetch.Writer.{Landing}
use factbook_rs.Geoip.Download.Guard.Probe.{DatabaseFormat}
use factbook_rs.Prelude.Parse.{parse_unsigned}
use factbook_rs.Prelude.Text.{Text, within}
use factbook_rs.Prelude.{
  ℕ, ◌*◌, Bool, true, ◌&&◌, ◌||◌, Option, none, some, List, [], ◌∷◌, leb, ltb, ◌==◌, if◌then◌else◌,
  length, u64_max,
}
use factbook_rs.Table.Query.{then_option}

abbrev pub resume_window_secs : ℕ
resume_window_secs = 24 * 60 * 60

abbrev pub max_expanded_bytes : ℕ
max_expanded_bytes = 4 * 1024 * 1024 * 1024

abbrev pub max_body_bytes : ℕ
max_body_bytes = max_expanded_bytes

pub data Archive : Type 0 where
  raw : Archive
  gzip : Archive
  tar_gz : Text → Archive

-- the name of the config fields is last
pub data Credential : Type 0 where
  anonymous : Credential
  basic : Text → Text → Text → Credential
  query_token : Text → Text → Text → Credential

pub record Transfer : Type 0 where
  pub url : Text
  pub fallback_url : Option Text
  pub checksum_url : Option Text
  pub dest : Text
  pub archive : Archive
  pub format : DatabaseFormat
  pub credential : Credential

-- `retry_after` is the header's value if it is text; `ends` is false for a body that breaks off.
pub record Response : Type 0 where
  pub status : ℕ
  pub retry_after : Option Text
  pub content_length : Option ℕ
  pub chunks : List Text
  pub ends : Bool

-- What the URL parser makes of a URL, what the server answers to a request from an offset (none if
-- the request fails), whether the part file can be opened, and what becomes of a write to it.
pub record World : Type 0 where
  pub parse : Text → Option (Text × Option Text)
  pub answer : Text → ℕ → Option Response
  pub opens : Bool
  pub write_all : Text → Text → Landing

unfoldable pub fields : Credential → Option Text
fields anonymous = none
fields (basic username password names) = some names
fields (query_token name value names) = some names

-- what `trim` drops of a header's text
abbrev is_space : ℕ → Bool
is_space b = b == 32 || within 9 13 b

abbrev trim_start : Text → Text
trim_start [] = []
trim_start (b ∷ text) = if is_space b then trim_start text else b ∷ text

abbrev trim_end : Text → Text
trim_end [] = []
trim_end (b ∷ text) =
    let rest = trim_end text in
    if is_space b then (if ltb 0 (length rest) then b ∷ rest else []) else b ∷ rest

unfoldable pub trim : Text → Text
trim text = trim_end (trim_start text)

abbrev unauthorised : Text → ℕ → Option Text → GeoIpDownloadError
unauthorised url status none = unexpected_status url status
unauthorised url status (some names) =
    if status == 401
    then credential_rejected url status names
    else if status == 403
    then not_entitled url
    else unexpected_status url status

-- on the URL as it is logged
unfoldable pub refused : Text → ℕ → Option Text → Credential → GeoIpDownloadError
unfolding trim fields
refused url status retry_after credential =
    if status == 429
    then rate_limited url (then_option retry_after (λ text. parse_unsigned u64_max (trim text)))
    else unauthorised url status (fields credential)

unfoldable pub resume_is_checkable : Archive → Bool → Bool
resume_is_checkable raw has_digest = has_digest
resume_is_checkable gzip has_digest = true
resume_is_checkable (tar_gz member) has_digest = true

-- The part file and the offset, from its age in seconds, none if its time cannot be read or is
-- ahead of the clock.
unfoldable pub resumable_offset : Option ℕ → Option Text → Option Text × ℕ
resumable_offset age none = (none, 0)
resumable_offset none (some part) = (none, 0)
resumable_offset (some age) (some part) =
    if ltb age resume_window_secs then (some part, length part) else (none, 0)

-- `StatusCode::is_success`
abbrev pub is_success : ℕ → Bool
is_success status = leb 200 status && ltb status 300
