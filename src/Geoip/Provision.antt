-- ===== src/Geoip/Provision.antt =====
-- src/geoip/download/mod.rs: `plan`, `download`, `resolve` and `ensure_databases`, which decide for
-- each kind of database what is served. A transfer, the file system, the clock, the client and the
-- hash of a plan are parameters; Geoip/Fetch is the transfer.
pub mod Served
pub mod Validate
use factbook_rs.Geoip.Download.Cooldown.{Cooldowns, Attempt, waiting, ran, attempt}
use factbook_rs.Geoip.Download.Error.{GeoIpDownloadError, Result, ok, err, http, no_databases}
use factbook_rs.Geoip.Download.Guard.{Checked, passes, refused}
use factbook_rs.Geoip.Download.Guard.Probe.{Kind, city, asn, mmdb}
use factbook_rs.Geoip.Download.Settings.{AutoDownload, check_settings, is_fresh}
use factbook_rs.Geoip.Fetch.Transfer.{Transfer}
use factbook_rs.Geoip.Opening.{Provisioned, Databases}
use factbook_rs.Geoip.Sources.{
  GeoIpProvider, ProviderTier, Platform, AutoDownloadConfig, SourceSpec, provider_label,
}
use factbook_rs.Geoip.Sources.Select.{select, transfer, staleness_window}
use factbook_rs.Prelude.Text.{Text, codes}
use factbook_rs.Prelude.{
  ℕ, Bool, true, false, not, Option, none, some, List, [], ◌∷◌, all, head?, if◌then◌else◌,
}

-- what is configured for one kind
pub record Choice : Type 0 where
  pub explicit_path : Option Text
  pub provider : GeoIpProvider
  pub tier : ProviderTier

pub record Config : Type 0 where
  pub enabled : Bool
  pub auto_enabled : Bool
  pub city : Choice
  pub asn : Choice
  pub auto : AutoDownloadConfig
  pub settings : AutoDownload
  pub injected_client : Bool

-- `now` is when an attempt begins, `over` when it ends; `modified` is the time of a file.
pub record Host : Type 0 where
  pub platform : Platform
  pub builds_client : Bool
  pub run : Transfer → Result Text
  pub exists : Text → Bool
  pub modified : Text → Option ℕ
  pub now_nanos : ℕ
  pub now : ℕ
  pub over : ℕ
  pub writable : Bool
  pub fingerprint : List Transfer → ℕ

unfoldable pub choice_of : Kind → Config → Choice
choice_of city config = config.city
choice_of asn config = config.asn

unfoldable pub kind_label : Kind → Text
kind_label city = codes "city"
kind_label asn = codes "asn"

abbrev pub singly : Result Transfer → Result (List Transfer)
singly (err e) = err e
singly (ok t) = ok (t ∷ [])

abbrev pub plan_of :
    Host → Config → Kind → Choice → Result (Option SourceSpec) → Result (List Transfer)
plan_of host config kind choice (err e) = err e
plan_of host config kind choice (ok none) =
    err (no_databases (provider_label choice.provider) (kind_label kind))
plan_of host config kind choice (ok (some source)) =
    singly (transfer host.platform config.auto source)

unfoldable pub plan : Host → Config → Kind → Result (List Transfer)
unfolding select transfer kind_label choice_of provider_label
plan host config kind =
    let choice = choice_of kind config in
    plan_of host config kind choice (select choice.provider choice.tier kind)

-- the transfers, one after the other, until one fails
unfoldable pub run_all : (Transfer → Result Text) → List Transfer → Result (List Text)
run_all run [] = ok []
run_all run (t ∷ transfers) =
    let rest = run_all run transfers in
    elim (run t) [
      | err e ↦ err e
      | ok file ↦ elim rest [ err e ↦ err e | ok files ↦ ok (file ∷ files) ]
    ]

abbrev pub run_plan : Host → Result (List Transfer) → Result (List Text)
run_plan host (err e) = err e
run_plan host (ok transfers) = if host.builds_client then run_all host.run transfers else err http

abbrev pub if_checked : Checked → Result (List Text) → Result (List Text)
if_checked passes done = done
if_checked (refused e) done = err e

unfoldable pub download : Host → Config → Kind → Result (List Text)
unfolding plan run_all check_settings
download host config kind =
    if_checked (check_settings config.settings config.injected_client)
      (run_plan host (plan host config kind))

-- `DatabaseSpec::at`
unfoldable pub database_at : Host → Config → SourceSpec → Provisioned
database_at host config source = record {
  files = host.platform.join config.auto.data_dir source.file ∷ [];
  format = source.format;
}

abbrev pub error_of : Result (List Text) → Option GeoIpDownloadError
error_of (ok files) = none
error_of (err e) = some e

-- what is on disk, if all of it is
abbrev pub on_disk : Host → Provisioned → Option Provisioned
on_disk host database = if all host.exists database.files then some database else none

-- what is served behind an attempt
abbrev pub behind : Host → Provisioned → Result (List Text) → Attempt → Option Provisioned
behind host database (ok files) (ran result) = some (record database { files = files })
behind host database (err e) (ran result) = on_disk host database
behind host database result (waiting left) = on_disk host database

abbrev pub asked_of : Host → Result (List Transfer) → ℕ
asked_of host (err e) = 0
asked_of host (ok transfers) = host.fingerprint transfers

unfoldable pub refreshed_source :
    Host → Config → Kind → SourceSpec → Cooldowns → Option Provisioned × Cooldowns
unfolding database_at is_fresh staleness_window download attempt
refreshed_source host config kind source cooldowns =
    let database = database_at host config source in
    if not config.auto_enabled
    then (on_disk host database, cooldowns)
    else if all
        (λ file. is_fresh (host.modified file) host.now_nanos (staleness_window source config.auto))
        database.files
    then (some database, cooldowns)
    else (let result = download host config kind in
        let (outcome, after) =
          attempt host.now host.over host.writable (head? database.files)
            (asked_of host (plan host config kind)) (error_of result) cooldowns in
        (behind host database result outcome, after))

abbrev pub resolved_source :
    Host → Config → Kind → Cooldowns → Result (Option SourceSpec) → Option Provisioned × Cooldowns
resolved_source host config kind cooldowns (err e) = (none, cooldowns)
resolved_source host config kind cooldowns (ok none) = (none, cooldowns)
resolved_source host config kind cooldowns (ok (some source)) =
    refreshed_source host config kind source cooldowns

-- `resolve`
unfoldable pub resolve_kind : Host → Config → Kind → Cooldowns → Option Provisioned × Cooldowns
unfolding choice_of select refreshed_source
resolve_kind host config kind cooldowns =
    let choice = choice_of kind config in
    elim choice.explicit_path [
      | some path ↦ (some (record { files = path ∷ []; format = mmdb }), cooldowns)
      | none ↦ resolved_source host config kind cooldowns (select choice.provider choice.tier kind)
    ]

unfoldable pub ensure_databases : Host → Config → Cooldowns → Databases × Cooldowns
unfolding resolve_kind
ensure_databases host config cooldowns =
    if not config.enabled
    then (record { city = none; asn = none }, cooldowns)
    else (let first = resolve_kind host config city cooldowns in
        let second = resolve_kind host config asn first.1 in
        (record { city = first.0; asn = second.0 }, second.1))
