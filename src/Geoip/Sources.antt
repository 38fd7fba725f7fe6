-- ===== src/Geoip/Sources.antt =====
-- src/geoip/download/source.rs: where each database is published, and the transfer that fetches it.
-- The months in a URL and the joining of a path are parameters.
pub mod Table
pub mod Select
pub mod Planned
pub mod Search
pub mod Selected
use factbook_rs.Geoip.Download.Error.{
  GeoIpDownloadError, Result, ok, err, missing_credential, unsupported_tier,
}
use factbook_rs.Geoip.Download.Guard.Probe.{Kind, city, asn, DatabaseFormat, mmdb}
use factbook_rs.Geoip.Fetch.Transfer.{
  Archive, raw, gzip, tar_gz, Credential, anonymous, basic, query_token, Transfer,
}
use factbook_rs.Prelude.Parse.{strip_prefix, or_text}
use factbook_rs.Prelude.Text.{Text, codes, text_eq}
use factbook_rs.Prelude.{
  ℕ, zero, suc, ◌-◌, ◌*◌, ◌/◌, Bool, true, false, not, ◌&&◌, ◌==◌, Option, none, some, List, [],
  ◌∷◌, ◌++◌, any, ltb, if◌then◌else◌, length, min,
}
use factbook_rs.Table.Build.{map_option}

-- cadences, in seconds
abbrev pub day : ℕ
day = 24 * 60 * 60

abbrev pub twice_weekly : ℕ
twice_weekly = 7 * 24 * 60 * 60 / 2

abbrev pub monthly : ℕ
monthly = 30 * 24 * 60 * 60

abbrev pub secs_per_day : ℕ
secs_per_day = 86400

pub data GeoIpProvider : Type 0 where
  db_ip max_mind ip_info sapics_origin_asn sapics_ip_to_asn custom : GeoIpProvider

pub data ProviderTier : Type 0 where
  free paid : ProviderTier

-- the month of a dated URL and the one before, as they are written, and how a path is joined
pub record Platform : Type 0 where
  pub this_month : Text
  pub last_month : Option Text
  pub join : Text → Text → Text

pub record AutoDownloadConfig : Type 0 where
  pub data_dir : Text
  pub maxmind_account_id : Option Text
  pub maxmind_license_key : Option Text
  pub ipinfo_token : Option Text
  pub max_age_days : ℕ

pub data UrlStrategy : Type 0 where
  static_url : Text → UrlStrategy
  monthly_dated : Text → Bool → UrlStrategy
  edition_url : Text → UrlStrategy

-- the config fields that hold a credential
pub data CredentialSlot : Type 0 where
  account_id license_key ipinfo_token : CredentialSlot

pub data CredentialKind : Type 0 where
  no_credential : CredentialKind
  basic_of : CredentialSlot → CredentialSlot → Text → CredentialKind
  query_token_of : Text → CredentialSlot → CredentialKind

pub record SourceSpec : Type 0 where
  pub provider : GeoIpProvider
  pub tier : ProviderTier
  pub kind : Kind
  pub name : Text
  pub url : UrlStrategy
  pub credential : CredentialKind
  pub archive : Archive
  pub checksum : Option UrlStrategy
  pub cadence : ℕ
  pub min_interval : Option ℕ
  pub terms_url : Text
  pub file : Text
  pub format : DatabaseFormat

-- `str::replace`, where so many bytes more belong to the last match
unfoldable pub replace : Text → Text → ℕ → Text → Text
unfolding strip_prefix
replace pattern with_ skip [] = []
replace pattern with_ (suc skip) (b ∷ text) = replace pattern with_ skip text
replace pattern with_ zero (b ∷ text) = elim (strip_prefix pattern (b ∷ text)) [
  | some rest ↦ with_ ++ replace pattern with_ (length pattern - 1) text
  | none ↦ b ∷ replace pattern with_ zero text
]

abbrev dated : Text → Text → Text
dated template month = replace (codes "{month}") month 0 template

-- `UrlStrategy::resolve`
unfoldable pub resolve_url : Platform → UrlStrategy → Text → Text × Option Text
unfolding replace
resolve_url platform (static_url url) edition = (url, none)
resolve_url platform (monthly_dated template fallback) edition = (
  dated template platform.this_month,
  if fallback then map_option (dated template) platform.last_month else none,
)
resolve_url platform (edition_url endpoint) edition =
    (replace (codes "{edition}") edition 0 endpoint, none)

unfoldable pub slot_path : CredentialSlot → Text
slot_path account_id = codes "auto_download.maxmind_account_id"
slot_path license_key = codes "auto_download.maxmind_license_key"
slot_path ipinfo_token = codes "auto_download.ipinfo_token"

unfoldable pub slot_read : CredentialSlot → AutoDownloadConfig → Option Text
slot_read account_id auto = auto.maxmind_account_id
slot_read license_key auto = auto.maxmind_license_key
slot_read ipinfo_token auto = auto.ipinfo_token

abbrev pub if_stated : Option Text → Text → Text → Result Text
if_stated none provider path = err (missing_credential provider path)
if_stated (some []) provider path = err (missing_credential provider path)
if_stated (some (b ∷ secret)) provider path = ok (b ∷ secret)

-- `CredentialSlot::require`
unfoldable pub require : CredentialSlot → Text → AutoDownloadConfig → Result Text
unfolding slot_read slot_path
require slot provider auto = if_stated (slot_read slot auto) provider (slot_path slot)

abbrev pub with_secret : {A : Type 0} → Result Text → (Text → Result A) → Result A
with_secret (err e) next = err e
with_secret (ok secret) next = next secret

-- `CredentialKind::resolve`
unfoldable pub resolve_credential : CredentialKind → Text → AutoDownloadConfig → Result Credential
unfolding require
resolve_credential no_credential provider auto = ok anonymous
resolve_credential (basic_of username password names) provider auto =
    with_secret (require username provider auto) (λ user.
      with_secret (require password provider auto) (λ secret. ok (basic user secret names)))
resolve_credential (query_token_of name token) provider auto =
    with_secret (require token provider auto)
      (λ value. ok (query_token name value (slot_path token)))

unfoldable pub provider_label : GeoIpProvider → Text
provider_label db_ip = codes "DbIp"
provider_label max_mind = codes "MaxMind"
provider_label ip_info = codes "IpInfo"
provider_label sapics_origin_asn = codes "SapicsOriginAsn"
provider_label sapics_ip_to_asn = codes "SapicsIpToAsn"
provider_label custom = codes "Custom"

unfoldable pub tier_label : ProviderTier → Text
tier_label free = codes "free"
tier_label paid = codes "paid"

-- the positions of the constructors, which tell them apart
abbrev pub provider_rank : GeoIpProvider → ℕ
provider_rank db_ip = 0
provider_rank max_mind = 1
provider_rank ip_info = 2
provider_rank sapics_origin_asn = 3
provider_rank sapics_ip_to_asn = 4
provider_rank custom = 5

abbrev pub tier_rank : ProviderTier → ℕ
tier_rank free = 0
tier_rank paid = 1

abbrev pub kind_rank : Kind → ℕ
kind_rank city = 0
kind_rank asn = 1

abbrev pub is_provider : GeoIpProvider → SourceSpec → Bool
is_provider provider source = provider_rank source.provider == provider_rank provider

abbrev pub is_tier : ProviderTier → SourceSpec → Bool
is_tier tier source = tier_rank source.tier == tier_rank tier

abbrev pub is_kind : Kind → SourceSpec → Bool
is_kind kind source = kind_rank source.kind == kind_rank kind

-- the first source that passes
abbrev pub first_source : (SourceSpec → Bool) → List SourceSpec → Option SourceSpec
first_source test [] = none
first_source test (source ∷ sources) =
    if test source then some source else first_source test sources
