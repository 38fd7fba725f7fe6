-- ===== src/Geoip/Sources/Table.antt =====
-- src/geoip/download/source.rs, `SOURCES`: every database that can be fetched.
use factbook_rs.Geoip.Download.Guard.Probe.{city, asn, mmdb}
use factbook_rs.Geoip.Fetch.Transfer.{raw, gzip, tar_gz}
use factbook_rs.Geoip.Sources.{
  SourceSpec, db_ip, max_mind, ip_info, sapics_origin_asn, sapics_ip_to_asn, free, paid, static_url,
  monthly_dated, edition_url, account_id, license_key, ipinfo_token, CredentialKind, no_credential,
  basic_of, query_token_of, day, twice_weekly, monthly,
}
use factbook_rs.Prelude.Text.{Text, codes}
use factbook_rs.Prelude.{true, none, some, List, [], ◌∷◌}

abbrev db_ip_lite_terms : Text
db_ip_lite_terms = codes "https://db-ip.com/db/lite.php"

abbrev maxmind_geolite2_terms : Text
maxmind_geolite2_terms = codes "https://www.maxmind.com/en/geolite/eula"

abbrev maxmind_geoip2_terms : Text
maxmind_geoip2_terms = codes "https://www.maxmind.com/en/end-user-license-agreement"

abbrev ipinfo_lite_terms : Text
ipinfo_lite_terms = codes "https://ipinfo.io/developers/ipinfo-lite-database"

abbrev sapics_terms : Text
sapics_terms = codes "https://github.com/sapics/ip-location-db"

abbrev maxmind_endpoint : Text
maxmind_endpoint =
    codes "https://download.maxmind.com/geoip/databases/{edition}/download?suffix=tar.gz"

abbrev maxmind_checksum_endpoint : Text
maxmind_checksum_endpoint =
    codes "https://download.maxmind.com/geoip/databases/{edition}/download?suffix=tar.gz.sha256"

abbrev pub maxmind_credential : CredentialKind
maxmind_credential =
    basic_of account_id license_key
      (codes "auto_download.maxmind_account_id and auto_download.maxmind_license_key")

abbrev pub db_ip_city : SourceSpec
db_ip_city = record {
  provider = db_ip;
  tier = free;
  kind = city;
  name = codes "DB-IP Lite City";
  url = monthly_dated (codes "https://download.db-ip.com/free/dbip-city-lite-{month}.mmdb.gz") true;
  credential = no_credential;
  archive = gzip;
  checksum = none;
  cadence = monthly;
  min_interval = none;
  terms_url = db_ip_lite_terms;
  file = codes "dbip-city-lite.mmdb";
  format = mmdb;
}

abbrev pub db_ip_asn : SourceSpec
db_ip_asn = record {
  provider = db_ip;
  tier = free;
  kind = asn;
  name = codes "DB-IP Lite ASN";
  url = monthly_dated (codes "https://download.db-ip.com/free/dbip-asn-lite-{month}.mmdb.gz") true;
  credential = no_credential;
  archive = gzip;
  checksum = none;
  cadence = monthly;
  min_interval = none;
  terms_url = db_ip_lite_terms;
  file = codes "dbip-asn-lite.mmdb";
  format = mmdb;
}

abbrev pub geolite2_city : SourceSpec
geolite2_city = record {
  provider = max_mind;
  tier = free;
  kind = city;
  name = codes "MaxMind GeoLite2 City";
  url = edition_url maxmind_endpoint;
  credential = maxmind_credential;
  archive = tar_gz (codes "GeoLite2-City.mmdb");
  checksum = some (edition_url maxmind_checksum_endpoint);
  cadence = twice_weekly;
  min_interval = some day;
  terms_url = maxmind_geolite2_terms;
  file = codes "GeoLite2-City.mmdb";
  format = mmdb;
}

abbrev pub geolite2_asn : SourceSpec
geolite2_asn = record {
  provider = max_mind;
  tier = free;
  kind = asn;
  name = codes "MaxMind GeoLite2 ASN";
  url = edition_url maxmind_endpoint;
  credential = maxmind_credential;
  archive = tar_gz (codes "GeoLite2-ASN.mmdb");
  checksum = some (edition_url maxmind_checksum_endpoint);
  cadence = twice_weekly;
  min_interval = some day;
  terms_url = maxmind_geolite2_terms;
  file = codes "GeoLite2-ASN.mmdb";
  format = mmdb;
}

abbrev pub geoip2_city : SourceSpec
geoip2_city = record {
  provider = max_mind;
  tier = paid;
  kind = city;
  name = codes "MaxMind GeoIP2 City";
  url = edition_url maxmind_endpoint;
  credential = maxmind_credential;
  archive = tar_gz (codes "GeoIP2-City.mmdb");
  checksum = some (edition_url maxmind_checksum_endpoint);
  cadence = twice_weekly;
  min_interval = some day;
  terms_url = maxmind_geoip2_terms;
  file = codes "GeoIP2-City.mmdb";
  format = mmdb;
}

abbrev pub geoip2_isp : SourceSpec
geoip2_isp = record {
  provider = max_mind;
  tier = paid;
  kind = asn;
  name = codes "MaxMind GeoIP2 ISP";
  url = edition_url maxmind_endpoint;
  credential = maxmind_credential;
  archive = tar_gz (codes "GeoIP2-ISP.mmdb");
  checksum = some (edition_url maxmind_checksum_endpoint);
  cadence = twice_weekly;
  min_interval = some day;
  terms_url = maxmind_geoip2_terms;
  file = codes "GeoIP2-ISP.mmdb";
  format = mmdb;
}

abbrev pub ipinfo_lite : SourceSpec
ipinfo_lite = record {
  provider = ip_info;
  tier = free;
  kind = city;
  name = codes "IPinfo Lite";
  url = static_url (codes "https://ipinfo.io/data/ipinfo_lite.mmdb");
  credential = query_token_of (codes "token") ipinfo_token;
  archive = raw;
  checksum = none;
  cadence = day;
  min_interval = some day;
  terms_url = ipinfo_lite_terms;
  file = codes "ipinfo-lite.mmdb";
  format = mmdb;
}

abbrev pub origin_asn : SourceSpec
origin_asn = record {
  provider = sapics_origin_asn;
  tier = free;
  kind = asn;
  name = codes "sapics origin-asn";
  url =
      static_url
        (codes "https://github.com/sapics/ip-location-db/releases/download/latest/origin-asn.mmdb");
  credential = no_credential;
  archive = raw;
  checksum = some (
      static_url (
        codes
          "https://github.com/sapics/ip-location-db/releases/download/checksum/origin-asn.mmdb.sha256"));
  cadence = day;
  min_interval = none;
  terms_url = sapics_terms;
  file = codes "origin-asn.mmdb";
  format = mmdb;
}

abbrev pub iptoasn_asn : SourceSpec
iptoasn_asn = record {
  provider = sapics_ip_to_asn;
  tier = free;
  kind = asn;
  name = codes "sapics iptoasn-asn";
  url =
      static_url (
        codes "https://github.com/sapics/ip-location-db/releases/download/latest/iptoasn-asn.mmdb");
  credential = no_credential;
  archive = raw;
  checksum = some (
      static_url (
        codes
          "https://github.com/sapics/ip-location-db/releases/download/checksum/iptoasn-asn.mmdb.sha256"));
  cadence = day;
  min_interval = none;
  terms_url = sapics_terms;
  file = codes "iptoasn-asn.mmdb";
  format = mmdb;
}

abbrev pub published : List SourceSpec
published =
    db_ip_city ∷ db_ip_asn ∷ geolite2_city ∷ geolite2_asn ∷ geoip2_city ∷ geoip2_isp ∷ ipinfo_lite
    ∷ origin_asn ∷ iptoasn_asn ∷ []
