-- ===== src/Geoip/Sources/Select.antt =====
-- src/geoip/download/source.rs: choosing a source, and the transfer and the window that it plans.
use factbook_rs.Geoip.Download.Error.{Result, ok, err, unsupported_tier}
use factbook_rs.Geoip.Download.Guard.Probe.{Kind}
use factbook_rs.Geoip.Fetch.Transfer.{Credential, Transfer}
use factbook_rs.Geoip.Sources.Table.{published}
use factbook_rs.Geoip.Sources.{
  AutoDownloadConfig, GeoIpProvider, Platform, ProviderTier, SourceSpec, first_source, is_kind,
  is_provider, is_tier, provider_label, resolve_credential, resolve_url, secs_per_day, tier_label,
}
use factbook_rs.Prelude.Parse.{or_text}
use factbook_rs.Prelude.Text.{Text, codes, text_eq}
use factbook_rs.Prelude.{
  ℕ, ◌*◌, not, ◌&&◌, Option, none, some, [], ◌∷◌, any, ltb, if◌then◌else◌, min,
}
use factbook_rs.Table.Build.{map_option}

-- `SourceSpec::find`
unfoldable pub find_source : GeoIpProvider → ProviderTier → Kind → Option SourceSpec
find_source provider tier kind =
    first_source (λ s. is_provider provider s && (is_tier tier s && is_kind kind s)) published

-- `SourceSpec::select`
unfoldable pub select : GeoIpProvider → ProviderTier → Kind → Result (Option SourceSpec)
unfolding find_source provider_label tier_label
select provider tier kind = elim (find_source provider tier kind) [
  | some source ↦ ok (some source)
  | none ↦
      if not (any (is_provider provider) published)
      then ok none
      else if not (any (λ s. is_provider provider s && is_tier tier s) published)
      then err (unsupported_tier (provider_label provider) (tier_label tier))
      else ok none
]

-- `strip_suffix`
unfoldable pub strip_suffix : Text → Text → Option Text
unfolding text_eq
strip_suffix suffix [] = if text_eq [] suffix then some [] else none
strip_suffix suffix (b ∷ text) =
    if text_eq (b ∷ text) suffix
    then some []
    else map_option (λ front. b ∷ front) (strip_suffix suffix text)

unfoldable pub edition : SourceSpec → Text
unfolding strip_suffix
edition source = or_text (strip_suffix (codes ".mmdb") source.file) source.file

abbrev pub planned :
    Platform → AutoDownloadConfig → SourceSpec → Result Credential → Result Transfer
planned platform auto source (err e) = err e
planned platform auto source (ok credential) =
    let urls = resolve_url platform source.url (edition source) in
    ok (record {
      url = urls.0;
      fallback_url = urls.1;
      checksum_url =
          map_option (λ checksum. (resolve_url platform checksum (edition source)).0)
            source.checksum;
      dest = platform.join auto.data_dir source.file;
      archive = source.archive;
      format = source.format;
      credential = credential;
    })

-- `SourceSpec::transfer`
unfoldable pub transfer : Platform → AutoDownloadConfig → SourceSpec → Result Transfer
unfolding resolve_url edition resolve_credential
transfer platform auto source =
    planned platform auto source
      (resolve_credential source.credential (provider_label source.provider) auto)

abbrev at_least : ℕ → Option ℕ → ℕ
at_least n none = n
at_least n (some floor) = if ltb n floor then floor else n

-- `SourceSpec::staleness_window`, in seconds
unfoldable pub staleness_window : SourceSpec → AutoDownloadConfig → ℕ
staleness_window source auto =
    at_least (min source.cadence (auto.max_age_days * secs_per_day)) source.min_interval
