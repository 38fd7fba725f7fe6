-- ===== src/Geoip/Download/Cooldown/Imposed.antt =====
-- How long each failure holds its file back.
use factbook_rs.Geoip.Download.Cooldown.{ceiling_secs, stamp_wait}
use factbook_rs.Geoip.Download.Error.{
  GeoIpDownloadError, http, io, join, unexpected_status, missing_credential, archive_member_missing,
  too_large, no_databases, unsupported_tier, checksum_mismatch, malformed_checksum, not_a_database,
  busy, not_entitled, unparseable, credential_rejected, rate_limited, unpopulated, undersized,
  invalid_setting, truncated, cooling_down, is_permanent, outcome,
}
use factbook_rs.Prelude.{
  ℕ, ◌≡◌, refl, ◌⊎◌, inl, inr, true, false, Option, none, some, arith, min, ltb, ◌==◌,
  if◌then◌else◌,
}

abbrev one_hour : ℕ
one_hour = 3600

abbrev one_day : ℕ
one_day = 86400

-- How long each failure holds its file back, if it does.
abbrev pub imposed : GeoIpDownloadError → Option ℕ
imposed (credential_rejected _ _ _) = some one_day
imposed (missing_credential _ _) = some one_day
imposed (no_databases _ _) = some one_day
imposed (not_entitled _) = some one_day
imposed (invalid_setting _ _) = some one_day
imposed (unsupported_tier _ _) = some one_day
imposed (unexpected_status _ status) =
    if status == 408
    then none
    else if ltb status 400
    then none
    else if ltb status 500
    then some one_day
    else none
imposed (rate_limited _ none) = some one_hour
imposed (rate_limited _ (some secs)) = some (min secs one_day)
imposed (checksum_mismatch _ _ _) = some one_hour
imposed (malformed_checksum _) = some one_hour
imposed (not_a_database _) = some one_hour
imposed (unparseable _ _) = some one_hour
imposed (unpopulated _ _) = some one_hour
imposed (undersized _ _ _ _) = some one_hour
imposed (truncated _ _ _) = some one_hour
imposed (too_large _ _) = some one_hour
imposed (archive_member_missing _) = some one_hour
imposed http = none
imposed io = none
imposed join = none
imposed (busy _) = none
imposed (cooling_down _ _) = none

-- what `begin` makes of a failure: an entry in memory for a one_day, or a stamp
abbrev pub Held : GeoIpDownloadError → ℕ → Type 0
Held e wait = (is_permanent e ≡ true) × (wait ≡ ceiling_secs)

abbrev pub Stamped : GeoIpDownloadError → ℕ → Type 0
Stamped e wait =
    (secs : ℕ) × (is_permanent e ≡ false)
    × (stamp_wait e ≡ some secs)
    × (min secs ceiling_secs ≡ wait)

pub imposed-splits :
    (e : GeoIpDownloadError) (wait : ℕ) → imposed e ≡ some wait → Held e wait ⊎ Stamped e wait
unfolding is_permanent stamp_wait outcome
imposed-splits (credential_rejected _ _ _) wait h = inl (refl, cc)
imposed-splits (missing_credential _ _) wait h = inl (refl, cc)
imposed-splits (no_databases _ _) wait h = inl (refl, cc)
imposed-splits (not_entitled _) wait h = inl (refl, cc)
imposed-splits (invalid_setting _ _) wait h = inl (refl, cc)
imposed-splits (unsupported_tier _ _) wait h = inl (refl, cc)
imposed-splits (unexpected_status _ status) wait h = inl (ground arith, ground arith)
imposed-splits (rate_limited _ none) wait h = inr (one_hour, refl, refl, cc)
imposed-splits (rate_limited _ (some secs)) wait h = inr (secs, refl, refl, cc)
imposed-splits (checksum_mismatch _ _ _) wait h = inr (one_hour, refl, refl, cc)
imposed-splits (malformed_checksum _) wait h = inr (one_hour, refl, refl, cc)
imposed-splits (not_a_database _) wait h = inr (one_hour, refl, refl, cc)
imposed-splits (unparseable _ _) wait h = inr (one_hour, refl, refl, cc)
imposed-splits (unpopulated _ _) wait h = inr (one_hour, refl, refl, cc)
imposed-splits (undersized _ _ _ _) wait h = inr (one_hour, refl, refl, cc)
imposed-splits (truncated _ _ _) wait h = inr (one_hour, refl, refl, cc)
imposed-splits (too_large _ _) wait h = inr (one_hour, refl, refl, cc)
imposed-splits (archive_member_missing _) wait h = inr (one_hour, refl, refl, cc)
imposed-splits http wait h = cc
imposed-splits io wait h = cc
imposed-splits join wait h = cc
imposed-splits (busy _) wait h = cc
imposed-splits (cooling_down _ _) wait h = cc
