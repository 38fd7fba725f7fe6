-- ===== src/Geoip/Download/Guard/Admit.antt =====
-- src/geoip/download/verify.rs, `Guard`: whether a staged file may replace what is there. What
-- loading a staged table refuses it for is a parameter.
use factbook_rs.Geoip.Download.Error.{unparseable}
use factbook_rs.Geoip.Download.Guard.{Checked, passes, refused, check_size}
use factbook_rs.Geoip.Download.Guard.Probe.{Kind, Reader, DatabaseFormat, probe}
use factbook_rs.Prelude.Text.{Text}
use factbook_rs.Prelude.{ℕ, Bool, Option, none, some, if◌then◌else◌, length}
use factbook_rs.Table.Build.{map_option}

-- the detail of a refusal to load a file as the table that it states
abbrev pub TableCheck : Type 0
TableCheck = Text → Option Text

pub record Guard : Type 0 where
  pub probe_of : Option Kind
  pub table : Option TableCheck
  pub min_size_percent : ℕ

unfoldable pub new_guard : Kind → Bool → ℕ → Guard
new_guard kind verify_content min_size_percent = record {
  probe_of = if verify_content then some kind else none;
  table = none;
  min_size_percent = min_size_percent;
}

unfoldable pub for_table : TableCheck → ℕ → Guard
for_table check min_size_percent = record {
  probe_of = none;
  table = some check;
  min_size_percent = min_size_percent;
}

unfoldable pub parses : Text → Text → TableCheck → Checked
parses staged dest check = elim (check staged) [
  | none ↦ passes
  | some detail ↦ refused (unparseable dest detail)
]

abbrev pub and_checked : Checked → Checked → Checked
and_checked passes next = next
and_checked (refused e) next = refused e

abbrev probed : (Text → Option Reader) → Text → Text → DatabaseFormat → Option Kind → Checked
unfolding probe
probed open_reader staged dest format none = passes
probed open_reader staged dest format (some kind) = probe open_reader staged dest kind format

abbrev parsed : Text → Text → Option TableCheck → Checked
unfolding parses
parsed staged dest none = passes
parsed staged dest (some check) = parses staged dest check

-- `path` is how the destination is named, `existing` is what it holds.
unfoldable pub admit :
    (Text → Option Reader) → Guard → Text → Option Text → Text → DatabaseFormat → Checked
unfolding check_size probed parsed
admit open_reader guard path existing staged format =
    and_checked
      (check_size guard.min_size_percent path (map_option (λ held. length held) existing)
        (some (length staged)))
      (and_checked (probed open_reader staged path format guard.probe_of)
        (parsed staged path guard.table))
