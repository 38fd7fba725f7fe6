-- ===== src/Geoip/Fetch/Materialise/Replaces.antt =====
-- What stands at the destination behind a transfer that arrived.
use mathlib.Core.Option.{some-injective}
use factbook_rs.Geoip.Download.Error.{GeoIpDownloadError, Result, ok, err, io}
use factbook_rs.Geoip.Fetch.Materialise.Made.{IsMade, created-IsCreated, extract_from-IsExtracted}
use factbook_rs.Geoip.Fetch.Materialise.{
  Tools, Disk, holds_a_database, extract_member, stage, replaced, if_admitted, install, if_staged,
  materialise_guarded,
}
use factbook_rs.Geoip.Fetch.Transfer.{Archive, raw, gzip, tar_gz}
use factbook_rs.Geoip.Download.Guard.{Checked, passes, refused}
use factbook_rs.Geoip.Download.Guard.Admit.{Guard, admit}
use factbook_rs.Geoip.Download.Guard.Probe.{DatabaseFormat}
use factbook_rs.Prelude.Text.{Text}
use factbook_rs.Prelude.{
  ℕ, ◌≡◌, refl, Bool, true, false, not, ◌||◌, Option, none, some, Bool-cases, Option-cases, inl,
  inr,
}

err_not_ok {ℓ} : {A : Type ℓ} (e : GeoIpDownloadError) (a : A) → err e ≡ ok a → ⊥
err_not_ok e a h = cc

-- the staged file of an archive that was read
abbrev IsStaged : Tools → Archive → Text → Disk → Type 0
IsStaged tools archive part disk =
    (file : Text) × (disk.staged ≡ some file) × IsMade tools archive part file

extract_member-IsStaged :
    (tools : Tools) (part name dest : Text) (disk : Disk)
    → (extract_member tools part name dest disk.staged).1 ≡ ok tt
    → IsStaged tools
        (tar_gz name)
        part
        (record disk { staged = (extract_member tools part name dest disk.staged).0 })
unfolding extract_member
extract_member-IsStaged tools part name dest disk h = elim (Option-cases (tools.entries part)) [
  | inl unread ↦ absurd (err_not_ok io tt (rw (unread, extract_member) at h))
  | inr (entries, read) ↦
      let e =
        extract_from-IsExtracted tools name dest disk.staged entries
          (rw (read, extract_member) at h) in
      rw (read, extract_member)
        (
          e.written.0,
          e.written.1,
          (entries, e.place, e.member, refl, e.there, e.file_entry, e.named, e.written.2),
        )
]

stage-IsStaged :
    (tools : Tools) (part dest : Text) (archive : Archive) (disk : Disk)
    → (stage tools part dest archive disk).1 ≡ ok tt
    → IsStaged tools archive part (stage tools part dest archive disk).0
unfolding stage
stage-IsStaged tools part dest raw disk h = elim (Bool-cases tools.renames_part) [
  | inl renames ↦ rw (renames, stage) (part, refl, refl)
  | inr stays ↦ absurd (err_not_ok io tt (rw (stays, stage) at h))
]
stage-IsStaged tools part dest gzip disk h =
    let c =
      created-IsCreated tools.creates_staged tools.flushes disk.staged (tools.gunzip part) dest h in
    (c.0, c.1, c.2)
stage-IsStaged tools part dest (tar_gz name) disk h =
    extract_member-IsStaged tools part name dest disk h

stage-dest :
    (tools : Tools) (part dest : Text) (archive : Archive) (disk : Disk)
    → (stage tools part dest archive disk).0.dest ≡ disk.dest
unfolding stage
stage-dest tools part dest raw disk = elim (Bool-cases tools.renames_part) [
  | inl renames ↦ rw (renames, stage) refl
  | inr stays ↦ rw (stays, stage) refl
]
stage-dest tools part dest gzip disk = refl
stage-dest tools part dest (tar_gz name) disk = refl

-- The file that replaced what was at the destination: made of the part file, with the structure of
-- its format, and admitted against the copy that it replaced.
pub record IsReplaced (tools : Tools) (guard : Guard) (path : Text) (archive : Archive)
    (format : DatabaseFormat) (part : Text) (before : Option Text) (after : Disk) : Type 0 where
  pub file : Text
  pub in_place : after.dest ≡ some file
  pub made : IsMade tools archive part file
  pub structured : holds_a_database file format ≡ true
  pub admitted : admit tools.open_reader guard path before file format ≡ passes

abbrev pub IsMaterialised :
    Tools → Guard → Text → Archive → DatabaseFormat → Text → Option Text → Disk → Result ℕ → Type 0
IsMaterialised tools guard path archive format part before after (err e) = after.dest ≡ before
IsMaterialised tools guard path archive format part before after (ok size) =
    IsReplaced tools guard path archive format part before after × (after.staged ≡ none)

if_admitted-IsMaterialised :
    (tools : Tools) (guard : Guard) (path : Text) (archive : Archive) (format : DatabaseFormat)
    (part file : Text) (disk : Disk) (checked : Checked)
    → IsMade tools archive part file
    → holds_a_database file format ≡ true
    → (checked ≡ passes → admit tools.open_reader guard path disk.dest file format ≡ passes)
    → (let done = if_admitted disk checked (replaced tools file disk) in
        IsMaterialised tools guard path archive format part disk.dest done.0 done.1)
if_admitted-IsMaterialised tools guard path archive format part file disk (refused e) made
      structured admitted =
    refl
if_admitted-IsMaterialised tools guard path archive format part file disk passes made structured
      admitted =
    elim (Bool-cases (not tools.sizes_staged || not tools.syncs || not tools.renames_staged)) [
      | inl fails ↦ rw fails refl
      | inr works ↦ rw works (
        record {
          file = file;
          in_place = refl;
          made = made;
          structured = structured;
          admitted = admitted refl;
        },
        refl,
      )
    ]

unnegated : (b : Bool) → not b ≡ false → b ≡ true
unnegated true h = refl
unnegated false h = cc

install-IsMaterialised :
    (tools : Tools) (guard : Guard) (path : Text) (archive : Archive) (format : DatabaseFormat)
    (part file : Text) (staged : Option Text) (disk : Disk)
    → staged ≡ some file
    → IsMade tools archive part file
    → (let done = install tools guard path format staged disk in
        IsMaterialised tools guard path archive format part disk.dest done.0 done.1)
unfolding install
install-IsMaterialised tools guard path archive format part file none disk there made = cc
install-IsMaterialised tools guard path archive format part file (some other) disk there made =
    rw (some-injective other file there) (elim (Bool-cases (not tools.opens_staged)) [
      | inl shut ↦ rw shut refl
      | inr opens ↦ elim (Bool-cases (not (holds_a_database file format))) [
        | inl page ↦ rw (opens, page) refl
        | inr database ↦
            rw (opens, database)
              (if_admitted-IsMaterialised tools guard path archive format part file disk
                (admit tools.open_reader guard path disk.dest file format) made
                (unnegated (holds_a_database file format) database) (λ e. e))
      ]
    ])

if_staged-IsMaterialised :
    (tools : Tools) (guard : Guard) (path : Text) (archive : Archive) (format : DatabaseFormat)
    (part : Text) (before : Option Text) (staged : Disk × Result (Unit {0}))
    → (staged.1 ≡ ok tt → IsStaged tools archive part staged.0)
    → staged.0.dest ≡ before
    → (let done = if_staged staged (λ disk. install tools guard path format disk.staged disk) in
        IsMaterialised tools guard path archive format part before done.0 done.1)
if_staged-IsMaterialised tools guard path archive format part before (disk, err e) h d = d
if_staged-IsMaterialised tools guard path archive format part before (disk, ok tt) h d =
    let (file, there, made) = h refl in
    rw (← d)
      (install-IsMaterialised tools guard path archive format part file disk.staged disk there made)

-- Turning a part file into the destination either fails, and then the destination holds what it
-- held before, or it puts there a file that was made of the part file, has the structure of its
-- format, and was admitted against the copy that it replaces; no staged file is left then.
pub materialise_guarded-IsMaterialised :
    (tools : Tools) (guard : Guard) (path : Text) (archive : Archive) (format : DatabaseFormat)
    (part : Text) (disk : Disk)
    → disk.part ≡ some part
    → (let done = materialise_guarded tools guard path archive format disk in
        IsMaterialised tools guard path archive format part disk.dest done.0 done.1)
unfolding materialise_guarded
materialise_guarded-IsMaterialised tools guard path archive format part disk there =
    rw (there, materialise_guarded)
      (if_staged-IsMaterialised tools guard path archive format part disk.dest
        (stage tools part path archive disk) (stage-IsStaged tools part path archive disk)
        (stage-dest tools part path archive disk))
