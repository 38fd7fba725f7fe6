-- ===== src/Geoip/Download/Guard.antt =====
-- src/geoip/download/verify.rs, `Guard::check_size`: a replacement that is far smaller than the copy
-- it would replace is refused. A size is none if the metadata of its file cannot be read.
pub mod Floor
pub mod Probe
pub mod Admit
pub mod Answered
use factbook_rs.Geoip.Download.Error.{GeoIpDownloadError, io, undersized}
use factbook_rs.Prelude.Text.{Text}
use factbook_rs.Prelude.{ℕ, ◌*◌, Option, none, some, ltb, ◌==◌, if◌then◌else◌, min, u64_max}

abbrev pub percent : ℕ
percent = 100

-- `u64::saturating_mul`
abbrev pub saturating_mul : ℕ → ℕ → ℕ
saturating_mul a b = min u64_max (a * b)

pub data Checked : Type 0 where
  passes : Checked
  refused : GeoIpDownloadError → Checked

unfoldable pub check_size : ℕ → Text → Option ℕ → Option ℕ → Checked
check_size min_size_percent path none staged = passes
check_size min_size_percent path (some existing) none =
    if min_size_percent == 0 then passes else if existing == 0 then passes else refused io
check_size min_size_percent path (some existing) (some actual) =
    if min_size_percent == 0
    then passes
    else if existing == 0
    then passes
    else if ltb (saturating_mul actual percent) (saturating_mul existing min_size_percent)
    then refused (undersized path actual existing min_size_percent)
    else passes
