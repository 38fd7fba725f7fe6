-- ===== src/Geoip/Download/Error.antt =====
-- src/geoip/download/mod.rs: the errors of a download, which of them are permanent, and the
-- outcome label of each. The payloads of errors that other crates raise are left out.
use factbook_rs.Prelude.{ℕ, Bool, true, false, not, ◌&&◌, Option, ltb, leb, ◌==◌}
use factbook_rs.Prelude.Text.{Text}

pub data GeoIpDownloadError : Type 0 where
  http io join : GeoIpDownloadError
  unexpected_status : Text → ℕ → GeoIpDownloadError
  missing_credential : Text → Text → GeoIpDownloadError
  archive_member_missing : Text → GeoIpDownloadError
  too_large : Text → ℕ → GeoIpDownloadError
  no_databases : Text → Text → GeoIpDownloadError
  unsupported_tier : Text → Text → GeoIpDownloadError
  checksum_mismatch : Text → Text → Text → GeoIpDownloadError
  malformed_checksum : Text → GeoIpDownloadError
  not_a_database : Text → GeoIpDownloadError
  busy : Text → GeoIpDownloadError
  not_entitled : Text → GeoIpDownloadError
  unparseable : Text → Text → GeoIpDownloadError
  credential_rejected : Text → ℕ → Text → GeoIpDownloadError
  rate_limited : Text → Option ℕ → GeoIpDownloadError
  unpopulated : Text → Text → GeoIpDownloadError
  undersized : Text → ℕ → ℕ → ℕ → GeoIpDownloadError
  invalid_setting : Text → Text → GeoIpDownloadError
  truncated : Text → ℕ → ℕ → GeoIpDownloadError
  cooling_down : Text → ℕ → GeoIpDownloadError

unfoldable pub is_permanent : GeoIpDownloadError → Bool
is_permanent (credential_rejected _ _ _) = true
is_permanent (missing_credential _ _) = true
is_permanent (no_databases _ _) = true
is_permanent (not_entitled _) = true
is_permanent (invalid_setting _ _) = true
is_permanent (unsupported_tier _ _) = true
is_permanent (unexpected_status _ status) = leb 400 status && ltb status 500 && not (status == 408)
is_permanent _ = false

-- The labels that `outcome` returns: `busy`, `unentitled`, `refused`, `failed`.
pub data Outcome : Type 0 where
  busy unentitled refused failed : Outcome

unfoldable pub outcome : GeoIpDownloadError → Outcome
outcome (GeoIpDownloadError.busy _) = Outcome.busy
outcome (not_entitled _) = unentitled
outcome (checksum_mismatch _ _ _) = refused
outcome (malformed_checksum _) = refused
outcome (not_a_database _) = refused
outcome (unparseable _ _) = refused
outcome (unpopulated _ _) = refused
outcome (undersized _ _ _ _) = refused
outcome (truncated _ _ _) = refused
outcome (too_large _ _) = refused
outcome (archive_member_missing _) = refused
outcome _ = failed

pub data Result {ℓ} (A : Type ℓ) : Type ℓ where
  ok : A → Result A
  err : GeoIpDownloadError → Result A
