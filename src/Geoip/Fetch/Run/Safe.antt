-- ===== src/Geoip/Fetch/Run/Safe.antt =====
-- The destination behind a whole transfer.
use factbook_rs.Geoip.Download.Error.{GeoIpDownloadError, Result, ok, err, busy}
use factbook_rs.Geoip.Fetch.Materialise.{Disk}
use factbook_rs.Geoip.Fetch.Materialise.Replaces.{
  IsReplaced, IsMaterialised, materialise_guarded-IsMaterialised,
}
use factbook_rs.Geoip.Fetch.Run.{
  Lock, free, held, unsupported, Machine, sha256_of, fetch_checksum, cleaned, put_in_place,
  check_digest, digested, arrived, unless_held, fetch,
}
use factbook_rs.Geoip.Fetch.Stream.Body.{Fits}
use factbook_rs.Geoip.Fetch.Stream.Bounds.{IsBody, IsStreamed, stream_with_fallback-IsStreamed}
use factbook_rs.Geoip.Fetch.Transfer.{Transfer, World}
use factbook_rs.Geoip.Download.Guard.Admit.{Guard}
use factbook_rs.Prelude.Text.{Text, text_eq, text_eq_iff}
use factbook_rs.Prelude.{
  ℕ, ◌<◌, ◌≡◌, refl, sym, ap, ◌∙◌, ◌⊎◌, inl, inr, not, ◌||◌, Option, none, some, u64_max,
  Bool-cases,
}

-- the bytes of one response from the URL or from its fallback
abbrev pub IsBrought : World → Transfer → Option Text → Text → Type 0
IsBrought world transfer part bytes =
    IsBody world transfer.url part bytes
    ⊎ ((fallback : Text) × (transfer.fallback_url ≡ some fallback)
        × IsBody world fallback none bytes)

-- The bytes are those that the published digest is of, if one is published.
abbrev pub IsVerified : Machine → Option Text → Text → Type 0
IsVerified machine none bytes = Unit
IsVerified machine (some url) bytes =
    fetch_checksum machine.world url ≡ ok (sha256_of machine.sha256 bytes)

pub record IsInstalled (machine : Machine) (guard : Guard) (transfer : Transfer)
    (before after : Disk) : Type 0 where
  pub bytes : Text
  pub brought : IsBrought machine.world transfer before.part bytes
  pub verified : IsVerified machine transfer.checksum_url bytes
  pub replaced :
      IsReplaced machine.tools guard transfer.dest transfer.archive transfer.format bytes
        before.dest after
  pub no_part : after.part ≡ none
  pub no_staged : after.staged ≡ none

-- the outcome of a transfer
abbrev pub IsFetched : Machine → Guard → Transfer → Disk → Disk → Result Text → Type 0
IsFetched machine guard transfer before after (err e) = after.dest ≡ before.dest
IsFetched machine guard transfer before after (ok path) =
    (path ≡ transfer.dest) × IsInstalled machine guard transfer before after

cleaned-IsFetched :
    (machine : Machine) (guard : Guard) (transfer : Transfer) (before : Disk) (bytes : Text)
    (done : Disk × Result ℕ)
    → IsBrought machine.world transfer before.part bytes
    → IsVerified machine transfer.checksum_url bytes
    → IsMaterialised machine.tools guard transfer.dest transfer.archive transfer.format bytes
        before.dest done.0 done.1
    → (let end = cleaned transfer.dest done in IsFetched machine guard transfer before end.0 end.1)
cleaned-IsFetched machine guard transfer before bytes (disk, err e) b v h = h
cleaned-IsFetched machine guard transfer before bytes (disk, ok size) b v h = (
  refl,
  record {
    bytes = bytes;
    brought = b;
    verified = v;
    replaced = record {
      file = h.0.file;
      in_place = h.0.in_place;
      made = h.0.made;
      structured = h.0.structured;
      admitted = h.0.admitted;
    };
    no_part = refl;
    no_staged = h.1;
  },
)

put_in_place-IsFetched :
    (machine : Machine) (guard : Guard) (transfer : Transfer) (before : Disk) (bytes : Text)
    → IsBrought machine.world transfer before.part bytes
    → IsVerified machine transfer.checksum_url bytes
    → (let end = put_in_place machine guard transfer (record before { part = some bytes }) in
        IsFetched machine guard transfer before end.0 end.1)
unfolding put_in_place
put_in_place-IsFetched machine guard transfer before bytes b v =
    cleaned-IsFetched machine guard transfer before bytes _ b v (
      materialise_guarded-IsMaterialised machine.tools guard transfer.dest transfer.archive
        transfer.format bytes (record before { part = some bytes }) refl)

check_digest-IsFetched :
    (machine : Machine) (guard : Guard) (transfer : Transfer) (before : Disk) (url bytes : Text)
    (published : Result Text)
    → IsBrought machine.world transfer before.part bytes
    → transfer.checksum_url ≡ some url
    → fetch_checksum machine.world url ≡ published
    → (let end =
          check_digest machine guard transfer url bytes
            (record before { part = some bytes })
            published in
        IsFetched machine guard transfer before end.0 end.1)
unfolding check_digest
check_digest-IsFetched machine guard transfer before url bytes (err e) b s p = refl
check_digest-IsFetched machine guard transfer before url bytes (ok expected) b s p =
    elim (Bool-cases (not machine.reads_part)) [
      | inl unread ↦ rw unread refl
      | inr reads ↦ elim (Bool-cases (text_eq (sha256_of machine.sha256 bytes) expected)) [
        | inr differs ↦ rw (reads, differs) refl
        | inl same ↦
            rw (reads, same)
              (put_in_place-IsFetched machine guard transfer before bytes b
                (rw s (p ∙ ap ok (sym ((text_eq_iff _ expected).0 same)))))
      ]
    ]

digested-IsFetched :
    (machine : Machine) (guard : Guard) (transfer : Transfer) (before : Disk) (bytes : Text)
    (published : Option Text)
    → IsBrought machine.world transfer before.part bytes
    → transfer.checksum_url ≡ published
    → (let end =
          digested machine guard transfer published
            (some bytes)
            (record before { part = some bytes }) in
        IsFetched machine guard transfer before end.0 end.1)
unfolding digested put_in_place
digested-IsFetched machine guard transfer before bytes none b stated =
    put_in_place-IsFetched machine guard transfer before bytes b (rw stated tt)
digested-IsFetched machine guard transfer before bytes (some url) b stated =
    check_digest-IsFetched machine guard transfer before url bytes
      (fetch_checksum machine.world url) b stated refl

arrived-IsFetched :
    (machine : Machine) (guard : Guard) (transfer : Transfer) (before : Disk) (part : Option Text)
    (r : Result ℕ)
    → (IsStreamed machine.world transfer.url before.part part r
        ⊎ ((fallback : Text) × (transfer.fallback_url ≡ some fallback)
            × IsStreamed machine.world fallback none part r))
    → (let end = arrived machine guard transfer before (part, r) in
        IsFetched machine guard transfer before end.0 end.1)
arrived-IsFetched machine guard transfer before part (err e) h = refl
arrived-IsFetched machine guard transfer before part (ok written)
      (inl (bytes, there, count, body)) =
    rw there (digested-IsFetched machine guard transfer before bytes _ (inl body) refl)
arrived-IsFetched machine guard transfer before part (ok written) (inr (url, stated, h)) =
    rw h.1 (digested-IsFetched machine guard transfer before h.0 _ (inr (url, stated, h.3)) refl)

unless_held-IsFetched :
    (machine : Machine) (guard : Guard) (transfer : Transfer) (before : Disk) (l : Lock)
    (e : GeoIpDownloadError) (done : Disk × Result Text)
    → IsFetched machine guard transfer before done.0 done.1
    → (let end = unless_held l (before, err e) done in
        IsFetched machine guard transfer before end.0 end.1)
unless_held-IsFetched machine guard transfer before held e done h = refl
unless_held-IsFetched machine guard transfer before free e done h = h
unless_held-IsFetched machine guard transfer before unsupported e done h = h

-- A transfer that fails, at whatever point, leaves the destination as it was. One that succeeds has
-- put there a file that was made of the bytes of one response (or of the part file and the response
-- that continued it), whose digest, if one is published, is the published one, which has the
-- structure of its format, and which the guard admitted against the copy that it replaces; neither
-- a part file nor a staged file is left.
pub fetch-IsFetched :
    (machine : Machine) (guard : Guard) (limit : ℕ) (age : Option ℕ) (transfer : Transfer)
    (disk : Disk)
    → limit < u64_max
    → Fits limit disk.part
    → (let end = fetch machine guard limit age transfer disk in
        IsFetched machine guard transfer disk end.0 end.1)
unfolding fetch
fetch-IsFetched machine guard limit age transfer disk top fits =
    elim (Bool-cases (not machine.creates_directory || not machine.opens_lock)) [
      | inl shut ↦ rw shut refl
      | inr opens ↦ rw opens (
          unless_held-IsFetched machine guard transfer disk machine.lock (busy transfer.dest) _ (
            arrived-IsFetched machine guard transfer disk _ _
              (stream_with_fallback-IsStreamed machine.world transfer age limit disk.part top
                fits).1))
    ]
