-- ===== src/Geoip/Refresh/Settles.antt =====
-- A refresh that succeeds has nothing left to do; a file that did not open is tried again.
use factbook_rs.Geoip.Engine.{Inner, idle, swap_readers, step}
use factbook_rs.Geoip.Reading.{Database}
use factbook_rs.Geoip.Refresh.{
  DatabaseBacking, Files, Source, Sources, open_backing, Reopened, unmoved, reopened, unopened,
  has_moved, reopen, reopen_if, next_reader, refreshed, report, refresh_if_changed,
}
use factbook_rs.Prelude.Text.{Text}
use factbook_rs.Prelude.{
  ℕ, ◌≡◌, refl, ap, ◌∙◌, Bool, true, false, Option, none, some, arith, Bool-cases, Option-cases,
  inl, inr,
}

has_moved-same : (mtime : Option ℕ) → has_moved mtime mtime ≡ false
unfolding has_moved
has_moved-same none = refl
has_moved-same (some m) = ground arith

abbrev DidOpen : Reopened → Type 0
DidOpen (unopened path) = ⊥
DidOpen unmoved = Unit
DidOpen (reopened database) = Unit

reopen-again :
    (files : Files) (most : ℕ) (source : Source)
    → DidOpen (reopen files most source).1
    → reopen files most (reopen files most source).0 ≡ ((reopen files most source).0, unmoved)
unfolding reopen
reopen-again files most source h =
    elim (Bool-cases (has_moved (files.file_mtime source.path) source.mtime)) [
      | inr same ↦ rw (same, reopen) (rw (same) refl)
      | inl moved ↦ elim (Option-cases (open_backing files source.path most)) [
        | inl shut ↦ absurd (rw (moved, shut, reopen) at h)
        | inr (backing, opens) ↦
            rw (moved, opens, reopen) (rw (has_moved-same (files.file_mtime source.path)) refl)
      ]
    ]

reopen_if-again :
    (files : Files) (most : ℕ) (source : Option Source)
    → DidOpen (reopen_if files most source).1
    → reopen_if files most (reopen_if files most source).0
      ≡ ((reopen_if files most source).0, unmoved)
reopen_if-again files most none h = refl
reopen_if-again files most (some source) h =
    ap (λ r. (some r.0, r.1)) (reopen-again files most source h)

report-opened :
    (city asn : Reopened) (changed other : Bool)
    → report city asn changed ≡ refreshed other
    → DidOpen city × DidOpen asn
report-opened unmoved unmoved changed other h = (tt, tt)
report-opened unmoved (reopened d) changed other h = (tt, tt)
report-opened unmoved (unopened p) changed other h = cc
report-opened (reopened d) unmoved changed other h = (tt, tt)
report-opened (reopened d) (reopened e) changed other h = (tt, tt)
report-opened (reopened d) (unopened p) changed other h = cc
report-opened (unopened p) asn changed other h = cc

-- Once a refresh has succeeded, whether or not it swapped anything, another one with the files as
-- they were changes neither the handle nor what is recorded, and reports that nothing was swapped.
pub refresh_if_changed-settles :
    (files : Files) (most : ℕ) (sources : Sources) (inner : Inner) (changed : Bool)
    → (refresh_if_changed files most sources inner).2 ≡ refreshed changed
    → (let (after, next, outcome) = refresh_if_changed files most sources inner in
        refresh_if_changed files most after next ≡ (after, next, refreshed false))
unfolding refresh_if_changed
refresh_if_changed-settles files most sources inner changed h =
    let (city, asn) =
      report-opened (reopen_if files most sources.city).1 (reopen_if files most sources.asn).1 _
        changed h in
    rw (reopen_if-again files most sources.city city, reopen_if-again files most sources.asn asn)
      refl

unopened-stays :
    (files : Files) (most : ℕ) (source : Source) (path : Text)
    → (reopen files most source).1 ≡ unopened path
    → (reopen files most source).0 ≡ source
unfolding reopen
unopened-stays files most source path h =
    elim (Bool-cases (has_moved (files.file_mtime source.path) source.mtime)) [
      | inr same ↦ rw (same, reopen) refl
      | inl moved ↦ elim (Option-cases (open_backing files source.path most)) [
        | inl shut ↦ rw (moved, shut, reopen) refl
        | inr (backing, opens) ↦ absurd (differ (rw (moved, opens, reopen) at h))
      ]
    ]
  where
    differ : {database : Database} → reopened database ≡ unopened path → ⊥
    differ e = cc

reopened-now :
    (files : Files) (most : ℕ) (source : Source) (backing : DatabaseBacking × Database)
    → has_moved (files.file_mtime source.path) source.mtime ≡ true
    → open_backing files source.path most ≡ some backing
    → (reopen files most source).1 ≡ reopened backing.1
unfolding reopen
reopened-now files most source backing moved opens = rw (moved, opens) refl

swap_readers-city :
    (city asn : Option Database) (inner : Inner)
    → inner.swap ≡ idle
    → (swap_readers city asn inner).readers.city ≡ city
unfolding swap_readers step
swap_readers-city city asn inner quiet = rw (quiet, swap_readers) refl

-- a city database that has moved, and opens
refresh-installs :
    (files : Files) (most : ℕ) (sources : Sources) (source : Source) (inner : Inner)
    (database : Database)
    → sources.city ≡ some source
    → (reopen files most source).1 ≡ reopened database
    → inner.swap ≡ idle
    → (refresh_if_changed files most sources inner).1.readers.city ≡ some database
unfolding refresh_if_changed
refresh-installs files most sources source inner database there opens quiet =
    let city = ap (λ s. (reopen_if files most s).1) there ∙ opens in
    rw city (
      swap_readers-city (some database)
        (next_reader inner.readers.asn (reopen_if files most sources.asn).1) inner quiet)

-- A city database that did not open is tried again: a later refresh, with no swap under way, at
-- which its file still stands at another time than the one recorded and opens, puts it in place,
-- whatever either refresh made of the ASN database.
pub refresh_if_changed-retries :
    (files later : Files) (most : ℕ) (sources : Sources) (source : Source) (inner : Inner)
    (path : Text) (backing : DatabaseBacking × Database)
    → sources.city ≡ some source
    → (reopen files most source).1 ≡ unopened path
    → has_moved (later.file_mtime source.path) source.mtime ≡ true
    → open_backing later source.path most ≡ some backing
    → (refresh_if_changed files most sources inner).1.swap ≡ idle
    → (let (after, next, outcome) = refresh_if_changed files most sources inner in
        (refresh_if_changed later most after next).1.readers.city ≡ some backing.1)
unfolding refresh_if_changed
refresh_if_changed-retries files later most sources source inner path backing there shut moved
      opens =
    refresh-installs later most (refresh_if_changed files most sources inner).0 source
      (refresh_if_changed files most sources inner).1 backing.1
      (ap (λ s. (reopen_if files most s).0) there
        ∙ ap some (unopened-stays files most source path shut))
      (reopened-now later most source backing moved opens)
