-- ===== src/Geoip/Fetch/Run.antt =====
-- src/geoip/download/fetch.rs: `fetch_checksum`, `sha256_of` and `Transfer::fetch`, a transfer from
-- its lock to the destination. The digest of some bytes is a parameter.
pub mod Safe
use factbook_rs.Geoip.Download.Error.{
  GeoIpDownloadError, Result, ok, err, http, io, unexpected_status, malformed_checksum,
  checksum_mismatch, busy,
}
use factbook_rs.Geoip.Fetch.Materialise.{Tools, Disk, materialise_guarded}
use factbook_rs.Geoip.Fetch.Redact.{loggable}
use factbook_rs.Geoip.Fetch.Stream.{stream_with_fallback}
use factbook_rs.Geoip.Fetch.Transfer.{Transfer, Response, World, is_success}
use factbook_rs.Geoip.Download.Guard.Admit.{Guard}
use factbook_rs.Prelude.Parse.{strip_prefix, is_digit}
use factbook_rs.Prelude.Text.{Text, text_eq, to_ascii_lowercase, within}
use factbook_rs.Prelude.{
  ℕ, zero, suc, ◌+◌, ◌*◌, ◌/◌, ◌%◌, Bool, true, false, not, ◌&&◌, ◌||◌, Option, none, some, List,
  [], ◌∷◌, ◌++◌, ltb, ◌==◌, if◌then◌else◌, length, all,
}

abbrev pub sha256_hex_len : ℕ
sha256_hex_len = 64

abbrev pub checksum_body_limit : ℕ
checksum_body_limit = 4 * 1024

-- what holds the lock file, as `try_lock` reports it
pub data Lock : Type 0 where
  free held unsupported : Lock

-- what a transfer meets: the network, the tools, the digest of some bytes, whether the directory,
-- the lock file and the part file behind a transfer open, and the lock
pub record Machine : Type 0 where
  pub world : World
  pub tools : Tools
  pub sha256 : Text → Text
  pub creates_directory : Bool
  pub opens_lock : Bool
  pub reads_part : Bool
  pub lock : Lock

-- a byte, as two lowercase digits
abbrev pub hex_digit : ℕ → ℕ
hex_digit d = if ltb d 10 then 48 + d else 87 + d

unfoldable pub hex : Text → Text
hex [] = []
hex (b ∷ bytes) = hex_digit (b / 16) ∷ hex_digit (b % 16) ∷ hex bytes

-- `sha256_of`
unfoldable pub sha256_of : (Text → Text) → Text → Text
unfolding hex
sha256_of sha256 file = hex (sha256 file)

-- the body of a digest, unless it passes its limit
unfoldable pub gather : Text → List Text → Option Text
gather bytes [] = some bytes
gather bytes (chunk ∷ chunks) =
    let more = bytes ++ chunk in
    if ltb checksum_body_limit (length more) then none else gather more chunks

-- The characters of white space, in UTF-8.
abbrev spaces : List Text
spaces =
    (9 ∷ [])
    ∷ (10 ∷ [])
    ∷ (11 ∷ [])
    ∷ (12 ∷ [])
    ∷ (13 ∷ [])
    ∷ (32 ∷ [])
    ∷ (0xc2 ∷ 0x85 ∷ [])
    ∷ (0xc2 ∷ 0xa0 ∷ [])
    ∷ (0xe1 ∷ 0x9a ∷ 0x80 ∷ [])
    ∷ (0xe2 ∷ 0x80 ∷ 0x80 ∷ [])
    ∷ (0xe2 ∷ 0x80 ∷ 0x81 ∷ [])
    ∷ (0xe2 ∷ 0x80 ∷ 0x82 ∷ [])
    ∷ (0xe2 ∷ 0x80 ∷ 0x83 ∷ [])
    ∷ (0xe2 ∷ 0x80 ∷ 0x84 ∷ [])
    ∷ (0xe2 ∷ 0x80 ∷ 0x85 ∷ [])
    ∷ (0xe2 ∷ 0x80 ∷ 0x86 ∷ [])
    ∷ (0xe2 ∷ 0x80 ∷ 0x87 ∷ [])
    ∷ (0xe2 ∷ 0x80 ∷ 0x88 ∷ [])
    ∷ (0xe2 ∷ 0x80 ∷ 0x89 ∷ [])
    ∷ (0xe2 ∷ 0x80 ∷ 0x8a ∷ [])
    ∷ (0xe2 ∷ 0x80 ∷ 0xa8 ∷ [])
    ∷ (0xe2 ∷ 0x80 ∷ 0xa9 ∷ [])
    ∷ (0xe2 ∷ 0x80 ∷ 0xaf ∷ [])
    ∷ (0xe2 ∷ 0x81 ∷ 0x9f ∷ [])
    ∷ (0xe3 ∷ 0x80 ∷ 0x80 ∷ [])
    ∷ []

-- what stands behind a character of white space, if a text begins with one
abbrev behind_space : List Text → Text → Option Text
behind_space [] text = none
behind_space (space ∷ others) text = elim (strip_prefix space text) [
  | some rest ↦ some rest
  | none ↦ behind_space others text
]

-- At most as many characters are left out as the fuel says; the length of the text is enough.
unfoldable pub skip_spaces : ℕ → Text → Text
unfolding strip_prefix
skip_spaces zero text = text
skip_spaces (suc fuel) text = elim (behind_space spaces text) [
  | none ↦ text
  | some rest ↦ skip_spaces fuel rest
]

unfoldable pub up_to_space : Text → Text
unfolding strip_prefix
up_to_space [] = []
up_to_space (b ∷ text) =
    let rest = up_to_space text in
    elim (behind_space spaces (b ∷ text)) [ none ↦ b ∷ rest | some other ↦ [] ]

-- `split_whitespace().next().unwrap_or_default()`. The characters that replace what is not UTF-8
-- are in no digest, and neither are the bytes that they replace.
unfoldable pub first_field : Text → Text
unfolding skip_spaces up_to_space
first_field text = up_to_space (skip_spaces (length text) text)

-- `is_ascii_hexdigit`
abbrev is_hex_digit : ℕ → Bool
is_hex_digit b = is_digit b || within 65 70 b || within 97 102 b

unfoldable pub digest_in : Text → Text → Result Text
unfolding first_field to_ascii_lowercase
digest_in named body =
    let digest = first_field body in
    if not (length digest == sha256_hex_len) || not (all is_hex_digit digest)
    then err (malformed_checksum named)
    else ok (to_ascii_lowercase digest)

unfoldable pub digest_of : Text → Response → Result Text
unfolding gather digest_in
digest_of named response = elim (gather [] response.chunks) [
  | none ↦ err (malformed_checksum named)
  | some body ↦ if response.ends then digest_in named body else err http
]

unfoldable pub fetch_checksum : World → Text → Result Text
unfolding digest_of loggable
fetch_checksum world url = elim (world.answer url 0) [
  | none ↦ err http
  | some response ↦
      let named = loggable world.parse url in
      if not (is_success response.status)
      then err (unexpected_status named response.status)
      else digest_of named response
]

-- a part file that holds nothing is removed
abbrev unless_empty : Option Text → Option Text
unless_empty none = none
unless_empty (some []) = none
unless_empty (some (b ∷ part)) = some (b ∷ part)

-- what the blocking step leaves: no part file, and no staged file behind an error
abbrev pub cleaned : Text → Disk × Result ℕ → Disk × Result Text
cleaned path (disk, ok size) = (record disk { part = none }, ok path)
cleaned path (disk, err e) = (record disk { part = none; staged = none }, err e)

unfoldable pub put_in_place : Machine → Guard → Transfer → Disk → Disk × Result Text
unfolding materialise_guarded
put_in_place machine guard transfer disk =
    cleaned transfer.dest
      (materialise_guarded machine.tools guard transfer.dest transfer.archive transfer.format disk)

-- a part file against the digest that was published for it
unfoldable pub check_digest :
    Machine → Guard → Transfer → Text → Text → Disk → Result Text → Disk × Result Text
unfolding put_in_place sha256_of loggable
check_digest machine guard transfer url part disk (err e) = (disk, err e)
check_digest machine guard transfer url part disk (ok expected) =
    let actual = sha256_of machine.sha256 part in
    if not machine.reads_part
    then (disk, err io)
    else if not (text_eq actual expected)
    then (
      record disk { part = none },
      err (checksum_mismatch (loggable machine.world.parse url) expected actual),
    )
    else put_in_place machine guard transfer disk

unfoldable pub digested :
    Machine → Guard → Transfer → Option Text → Option Text → Disk → Disk × Result Text
unfolding check_digest fetch_checksum put_in_place
digested machine guard transfer none part disk = put_in_place machine guard transfer disk
digested machine guard transfer (some url) none disk = (disk, err io)
digested machine guard transfer (some url) (some part) disk =
    check_digest machine guard transfer url part disk (fetch_checksum machine.world url)

-- behind the transfer of the body
abbrev pub arrived : Machine → Guard → Transfer → Disk → Option Text × Result ℕ → Disk × Result Text
arrived machine guard transfer disk (part, err e) =
    (record disk { part = unless_empty part }, err e)
arrived machine guard transfer disk (part, ok bytes) =
    digested machine guard transfer transfer.checksum_url part (record disk { part = part })

-- A file system without locks stops no transfer.
abbrev pub unless_held {ℓ} : {A : Type ℓ} → Lock → A → A → A
unless_held held refusal done = refusal
unless_held free refusal done = done
unless_held unsupported refusal done = done

-- `age` is that of the part file.
unfoldable pub fetch : Machine → Guard → ℕ → Option ℕ → Transfer → Disk → Disk × Result Text
unfolding stream_with_fallback arrived
fetch machine guard limit age transfer disk =
    if not machine.creates_directory || not machine.opens_lock
    then (disk, err io)
    else unless_held machine.lock (disk, err (busy transfer.dest))
        (arrived machine guard transfer disk
          (stream_with_fallback machine.world transfer age limit disk.part))
