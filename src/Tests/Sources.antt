-- ===== src/Tests/Sources.antt =====
-- The theorems on the sources applied: the free city database of MaxMind.
use factbook_rs.Geoip.Download.Error.{ok, err, unsupported_tier}
use factbook_rs.Geoip.Download.Guard.{passes}
use factbook_rs.Geoip.Download.Settings.{check_settings}
use factbook_rs.Geoip.Fetch.Transfer.{tar_gz, basic, Transfer}
use factbook_rs.Geoip.Download.Guard.Probe.{mmdb, city}
use factbook_rs.Geoip.Provision.{Choice, Config, Host, choice_of, database_at, plan, resolve_kind}
use factbook_rs.Geoip.Provision.Validate.{IsUnpublished, check_plan, validate, validate-plans}
use factbook_rs.Geoip.Provision.Served.{IsHonest, resolve_kind-served}
use factbook_rs.Geoip.Sources.Planned.{IsFilled, staleness_window-published, transfer-IsFilled}
use factbook_rs.Geoip.Sources.Selected.{IsSelected, select-IsSelected}
use factbook_rs.Geoip.Sources.Select.{
  find_source, select, staleness_window, transfer, edition, strip_suffix,
}
use factbook_rs.Geoip.Sources.Table.{geolite2_city}
use factbook_rs.Geoip.Sources.{
  ip_info, paid, provider_label, tier_label, max_mind, free, AutoDownloadConfig, Platform, replace,
  require, resolve_credential, resolve_url, slot_path, slot_read,
}
use factbook_rs.Table.Config.{csv, named, prefix}
use factbook_rs.Table.Source.{
  IsNamed, Paths, TableSource, gzip, check_names, validate_source, validate_source-IsNamed,
}
use factbook_rs.Prelude.Parse.{strip_prefix}
use factbook_rs.Prelude.Text.{codes, text_eq}
use factbook_rs.Prelude.{false, ◌≤◌, ◌≡◌, refl, none, some, ◌∷◌, ◌++◌, true, false, []}

abbrev auto : AutoDownloadConfig
auto = record {
  data_dir = codes "/data";
  maxmind_account_id = some (codes "7");
  maxmind_license_key = some (codes "key");
  ipinfo_token = none;
  max_age_days = 30;
}

abbrev platform : Platform
platform = record {
  this_month = codes "2026-11";
  last_month = some (codes "2026-10");
  join = λ dir name. dir ++ b'/' ∷ name;
}

select-IsSelected_example :
    IsSelected ip_info paid city (err (unsupported_tier (provider_label ip_info) (tier_label paid)))
unfolding select find_source
select-IsSelected_example = select-IsSelected ip_info paid city

staleness_window-published_example :
    (staleness_window geolite2_city auto ≤ geolite2_city.cadence)
    × (86400 ≤ staleness_window geolite2_city auto)
staleness_window-published_example = staleness_window-published 2 geolite2_city auto refl

abbrev city_transfer : Transfer
city_transfer = record {
  url = codes "https://download.maxmind.com/geoip/databases/GeoLite2-City/download?suffix=tar.gz";
  fallback_url = none;
  checksum_url = some (
      codes
        "https://download.maxmind.com/geoip/databases/GeoLite2-City/download?suffix=tar.gz.sha256");
  dest = codes "/data/GeoLite2-City.mmdb";
  archive = tar_gz (codes "GeoLite2-City.mmdb");
  format = mmdb;
  credential =
      basic (codes "7") (codes "key")
        (codes "auto_download.maxmind_account_id and auto_download.maxmind_license_key");
}

transfer-IsFilled_example :
    IsFilled geolite2_city.credential auto city_transfer.credential
    × (city_transfer.dest ≡ platform.join auto.data_dir geolite2_city.file)
    × (city_transfer.format ≡ geolite2_city.format)
unfolding transfer edition strip_suffix replace require resolve_credential resolve_url slot_path
    slot_read strip_prefix text_eq
transfer-IsFilled_example = transfer-IsFilled platform auto geolite2_city city_transfer refl

abbrev choice : Choice
choice = record { explicit_path = none; provider = max_mind; tier = free }

abbrev config : Config
config = record {
  enabled = true;
  auto_enabled = true;
  city = choice;
  asn = choice;
  auto = auto;
  settings = record { connect_timeout_secs = 10; read_timeout_secs = 10; min_size_percent = 50 };
  injected_client = false;
}

-- a machine whose copies are old, and whose transfers succeed
abbrev host : Host
host = record {
  platform = platform;
  builds_client = true;
  run = λ t. ok t.dest;
  exists = λ path. true;
  modified = λ path. none;
  now_nanos = 0;
  now = 0;
  over = 5;
  writable = true;
  fingerprint = λ transfers. 7;
}

host-IsHonest : IsHonest host
host-IsHonest t path h = cc

resolve_kind-served_example :
    (resolve_kind host config city (record { stamps = []; held = [] })).0
    ≡ some (database_at host config geolite2_city)
unfolding choice_of select find_source
resolve_kind-served_example =
    resolve_kind-served host config city geolite2_city (record { stamps = []; held = [] })
      host-IsHonest refl refl refl

validate-plans_example :
    (check_settings config.settings config.injected_client ≡ passes)
    × IsUnpublished (plan host config city)
unfolding validate check_plan plan choice_of check_settings select find_source transfer edition
    strip_suffix replace require resolve_credential resolve_url slot_path slot_read strip_prefix
    text_eq
validate-plans_example = validate-plans host config city refl refl refl refl

-- a feed of ranges, as a headerless CSV
abbrev feed_source : TableSource
feed_source = record {
  url = codes "https://host/feed.csv";
  checksum_url = none;
  archive = gzip;
  file = codes "feed.csv";
  format = csv false;
  schema = named (codes "network" ∷ []);
  index = prefix;
}

abbrev paths : Paths
paths = record { parse = λ url. none; url_error = λ url. none; file_name = λ path. some path }

validate_source-IsNamed_example :
    (paths.url_error feed_source.url ≡ none)
    × (paths.file_name feed_source.file ≡ some feed_source.file)
    × IsNamed feed_source.format feed_source.schema
unfolding validate_source check_names text_eq
validate_source-IsNamed_example = validate_source-IsNamed paths feed_source refl
