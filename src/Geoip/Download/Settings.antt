-- ===== src/Geoip/Download/Settings.antt =====
-- src/geoip/download/mod.rs: `check_settings`, over the settings that it reads, and `is_fresh`.
use factbook_rs.Geoip.Download.Error.{invalid_setting}
use factbook_rs.Geoip.Download.Guard.{Checked, passes, refused}
use factbook_rs.Prelude.Text.{codes}
use factbook_rs.Prelude.{
  ℕ, ◌-◌, ◌/◌, ◌≤◌, ◌<◌, ◌≡◌, ◌↔◌, Bool, true, false, not, ◌&&◌, Option, none, some, arith, ltb,
  ◌==◌, if◌then◌else◌,
}

pub record AutoDownload : Type 0 where
  pub connect_timeout_secs : ℕ
  pub read_timeout_secs : ℕ
  pub min_size_percent : ℕ

unfoldable pub check_settings : AutoDownload → Bool → Checked
check_settings auto injected_client =
    if not injected_client && auto.connect_timeout_secs == 0
    then refused
        (invalid_setting (codes "auto_download.connect_timeout_secs") (codes "must be above zero"))
    else if not injected_client && auto.read_timeout_secs == 0
    then refused
        (invalid_setting (codes "auto_download.read_timeout_secs") (codes "must be above zero"))
    else if ltb 100 auto.min_size_percent
    then refused
        (invalid_setting (codes "auto_download.min_size_percent") (codes "must be 100 or below"))
    else passes

-- `modified` is none if the file or its time cannot be read; both are times since the epoch, in
-- nanoseconds.
unfoldable pub is_fresh : Option ℕ → ℕ → ℕ → Bool
is_fresh none now max_age_secs = false
is_fresh (some modified) now max_age_secs =
    if ltb now modified then false else ltb ((now - modified) / 1000000000) max_age_secs

-- The settings pass exactly when, unless the program has a client of its own, both timeouts are
-- above zero, and the percentage is at most 100 in any case.
pub check_settings_iff :
    (auto : AutoDownload) (injected_client : Bool)
    → (check_settings auto injected_client ≡ passes) ↔ (
        ((injected_client ≡ false) → (0 < auto.connect_timeout_secs) × (0 < auto.read_timeout_secs))
        × (auto.min_size_percent ≤ 100))
unfolding check_settings
check_settings_iff auto true = ground arith
check_settings_iff auto false = ground arith
