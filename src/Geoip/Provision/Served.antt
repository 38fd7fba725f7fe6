-- ===== src/Geoip/Provision/Served.antt =====
-- A copy that is on disk is served, whatever becomes of a download.
use factbook_rs.Geoip.Download.Cooldown.{Cooldowns, Attempt, waiting, ran}
use factbook_rs.Geoip.Download.Error.{Result, ok, err, http}
use factbook_rs.Geoip.Download.Guard.{Checked, passes, refused}
use factbook_rs.Geoip.Download.Guard.Probe.{Kind}
use factbook_rs.Geoip.Download.Settings.{is_fresh, check_settings}
use factbook_rs.Geoip.Fetch.Transfer.{Transfer}
use factbook_rs.Geoip.Opening.{Provisioned}
use factbook_rs.Geoip.Provision.{
  Config, Host, choice_of, singly, plan_of, plan, run_all, run_plan, if_checked, download,
  database_at, on_disk, behind, refreshed_source, resolve_kind,
}
use factbook_rs.Geoip.Sources.{SourceSpec}
use factbook_rs.Geoip.Sources.Planned.{transfer-IsFilled}
use factbook_rs.Geoip.Sources.Select.{select, transfer, staleness_window}
use factbook_rs.Prelude.Text.{Text}
use factbook_rs.Prelude.{
  ◌≡◌, refl, sym, ap, ◌∙◌, Bool, true, false, not, none, some, List, [], ◌∷◌, all, if◌then◌else◌,
  Bool-cases, inl, inr,
}

-- a transfer that succeeds reports the destination that it wrote
abbrev pub IsHonest : Host → Type 0
IsHonest host = (t : Transfer) (path : Text) → host.run t ≡ ok path → path ≡ t.dest

ok_value {ℓ} : {A : Type ℓ} (a b : A) → ok a ≡ ok b → a ≡ b
ok_value a b h = cc

run_one :
    (host : Host) (t : Transfer) (files : List Text)
    → IsHonest host
    → run_all host.run (t ∷ []) ≡ ok files
    → files ≡ t.dest ∷ []
unfolding run_all
run_one host t files honest h = go (host.run t) (honest t) h
  where
    go :
        (r : Result Text)
        → ((path : Text) → r ≡ ok path → path ≡ t.dest)
        → elim r [ err e ↦ err e | ok file ↦ ok (file ∷ []) ] ≡ ok files
        → files ≡ t.dest ∷ []
    go (err e) k h = cc
    go (ok file) k h = sym (ok_value (file ∷ []) files h) ∙ ap (λ p. p ∷ []) (k file refl)

checked-ok :
    (checked : Checked) (done : Result (List Text)) (files : List Text)
    → if_checked checked done ≡ ok files
    → done ≡ ok files
checked-ok passes done files h = h
checked-ok (refused e) done files h = cc

planned_files :
    (host : Host) (config : Config) (s : SourceSpec) (planned : Result Transfer) (files : List Text)
    → IsHonest host
    → ((t : Transfer) → planned ≡ ok t → t.dest ≡ host.platform.join config.auto.data_dir s.file)
    → run_plan host (singly planned) ≡ ok files
    → files ≡ host.platform.join config.auto.data_dir s.file ∷ []
planned_files host config s (err e) files honest d h = cc
planned_files host config s (ok t) files honest d h = go host.builds_client h
  where
    go :
        (builds : Bool)
        → (if builds then run_all host.run (t ∷ []) else err http) ≡ ok files
        → files ≡ host.platform.join config.auto.data_dir s.file ∷ []
    go true h = run_one host t files honest h ∙ ap (λ p. p ∷ []) (d t refl)
    go false h = cc

download-files :
    (host : Host) (config : Config) (kind : Kind) (s : SourceSpec) (files : List Text)
    → IsHonest host
    → select (choice_of kind config).provider (choice_of kind config).tier kind ≡ ok (some s)
    → download host config kind ≡ ok files
    → files ≡ (database_at host config s).files
unfolding download plan database_at
download-files host config kind s files honest selected h =
    planned_files host config s (transfer host.platform config.auto s) files honest
      (λ t planned. (transfer-IsFilled host.platform config.auto s t planned).1)
      (ap (λ r. run_plan host (plan_of host config kind (choice_of kind config) r)) (sym selected)
        ∙ checked-ok (check_settings config.settings config.injected_client) _ files h)

-- what is served, of a copy that is on disk
behind-served :
    (host : Host) (database : Provisioned) (result : Result (List Text)) (outcome : Attempt)
    → on_disk host database ≡ some database
    → ((files : List Text) → result ≡ ok files → files ≡ database.files)
    → behind host database result outcome ≡ some database
behind-served host database (ok files) (ran r) there same =
    ap (λ fs. some (record database { files = fs })) (same files refl)
behind-served host database (ok files) (waiting left) there same = there
behind-served host database (err e) (ran r) there same = there
behind-served host database (err e) (waiting left) there same = there

refreshed_source-served :
    (host : Host) (config : Config) (kind : Kind) (s : SourceSpec) (cooldowns : Cooldowns)
    → IsHonest host
    → select (choice_of kind config).provider (choice_of kind config).tier kind ≡ ok (some s)
    → on_disk host (database_at host config s) ≡ some (database_at host config s)
    → (refreshed_source host config kind s cooldowns).0 ≡ some (database_at host config s)
unfolding refreshed_source
refreshed_source-served host config kind s cooldowns honest selected there =
    elim (Bool-cases (not config.auto_enabled)) [
      | inl off ↦ rw off there
      | inr on ↦
          elim (Bool-cases (
            all
              (λ file.
                is_fresh (host.modified file) host.now_nanos (staleness_window s config.auto))
              (database_at host config s).files)) [
                | inl fresh ↦ rw (on, fresh) refl
                | inr stale ↦
                    rw (on, stale)
                      (behind-served host (database_at host config s) (download host config kind) _
                        there
                        (λ files done.
                          download-files host config kind s files honest selected done))
              ]
    ]

-- A kind of database without a path of its own, whose source is published and whose copy is on
-- disk: that copy's place is what is served, whether it is fresh or stale, downloads are off, one
-- is held back, fails at any point, or replaces it, if a transfer that succeeds reports the
-- destination that it wrote.
pub resolve_kind-served :
    (host : Host) (config : Config) (kind : Kind) (s : SourceSpec) (cooldowns : Cooldowns)
    → IsHonest host
    → (choice_of kind config).explicit_path ≡ none
    → select (choice_of kind config).provider (choice_of kind config).tier kind ≡ ok (some s)
    → host.exists (host.platform.join config.auto.data_dir s.file) ≡ true
    → (resolve_kind host config kind cooldowns).0 ≡ some (database_at host config s)
unfolding resolve_kind database_at
resolve_kind-served host config kind s cooldowns honest unstated selected there =
    rw (unstated, selected, resolve_kind)
      (refreshed_source-served host config kind s cooldowns honest selected (rw there refl))
