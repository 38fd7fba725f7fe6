-- ===== src/Geoip/Provision/Validate.antt =====
-- src/geoip/download/mod.rs, `validate`: what a configuration would be refused for, before anything
-- is sent.
use factbook_rs.Geoip.Download.Error.{Result, ok, err, no_databases}
use factbook_rs.Geoip.Download.Guard.{Checked, passes, refused}
use factbook_rs.Geoip.Download.Guard.Admit.{and_checked}
use factbook_rs.Geoip.Download.Guard.Probe.{Kind, city, asn}
use factbook_rs.Geoip.Download.Settings.{check_settings}
use factbook_rs.Geoip.Fetch.Transfer.{Transfer}
use factbook_rs.Geoip.Provision.{Config, Host, choice_of, plan}
use factbook_rs.Prelude.Text.{Text}
use factbook_rs.Prelude.{◌≡◌, refl, true, not, ◌||◌, Option, none, some, List, if◌then◌else◌}

-- a plan, where a kind that the provider does not publish is no fault
unfoldable pub check_plan : Result (List Transfer) → Checked
check_plan (ok transfers) = passes
check_plan (err (no_databases provider kind)) = passes
check_plan (err e) = refused e

-- a kind with a path of its own is not planned
abbrev pub unless_explicit : Option Text → Checked → Checked
unless_explicit none checked = checked
unless_explicit (some path) checked = passes

abbrev pub check_kind : Host → Config → Kind → Checked
check_kind host config kind =
    unless_explicit (choice_of kind config).explicit_path (check_plan (plan host config kind))

unfoldable pub validate : Host → Config → Checked
unfolding check_plan plan choice_of check_settings
validate host config =
    if not config.enabled || not config.auto_enabled
    then passes
    else and_checked (check_settings config.settings config.injected_client)
        (and_checked (check_kind host config city) (check_kind host config asn))

-- the one error that a plan may still come to
abbrev pub IsUnpublished : Result (List Transfer) → Type 0
IsUnpublished (ok transfers) = Unit
IsUnpublished (err e) = (provider : Text) × (kind : Text) × (e ≡ no_databases provider kind)

both-pass : (a b : Checked) → and_checked a b ≡ passes → (a ≡ passes) × (b ≡ passes)
both-pass passes b h = (refl, h)
both-pass (refused e) b h = cc

check_plan-passes : (r : Result (List Transfer)) → check_plan r ≡ passes → IsUnpublished r
unfolding check_plan
check_plan-passes (ok transfers) h = tt
check_plan-passes (err (no_databases provider kind)) h = (provider, kind, refl)
check_plan-passes (err _) h = cc

kind-passes :
    (host : Host) (config : Config) (kind : Kind)
    → (choice_of kind config).explicit_path ≡ none
    → check_kind host config kind ≡ passes
    → IsUnpublished (plan host config kind)
kind-passes host config kind unstated h =
    check_plan-passes (plan host config kind) (rw unstated at h)

-- Where provisioning downloads, a configuration that validates has settings that pass and, for each
-- kind without a path of its own, a plan that fails in no way but that the provider publishes no
-- such database: no credential is missing and the tier is one that is modelled.
pub validate-plans :
    (host : Host) (config : Config) (kind : Kind)
    → config.enabled ≡ true
    → config.auto_enabled ≡ true
    → (choice_of kind config).explicit_path ≡ none
    → validate host config ≡ passes
    → (check_settings config.settings config.injected_client ≡ passes)
      × IsUnpublished (plan host config kind)
unfolding validate
validate-plans host config kind on auto unstated h =
    let (settings, kinds) =
      both-pass (check_settings config.settings config.injected_client) _
        (rw (on, auto, validate) at h) in
    let (first, second) =
      both-pass (check_kind host config city) (check_kind host config asn) kinds in
    (settings, each kind unstated first second)
  where
    each :
        (k : Kind)
        → (choice_of k config).explicit_path ≡ none
        → check_kind host config city ≡ passes
        → check_kind host config asn ≡ passes
        → IsUnpublished (plan host config k)
    each city u first second = kind-passes host config city u first
    each asn u first second = kind-passes host config asn u second
