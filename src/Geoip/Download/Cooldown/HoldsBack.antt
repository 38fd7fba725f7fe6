-- ===== src/Geoip/Download/Cooldown/HoldsBack.antt =====
-- A failure that starts a cool-down holds the next attempt back, and a success lets it go.
use factbook_rs.Geoip.Download.Cooldown.{
  ceiling_secs, Suppressed, Cooldowns, remove, lapsed, suppressed, stamped, first_wait, wait_for,
  stamp_wait, begin, clear, waiting, ran, settle, attempt,
}
use factbook_rs.Geoip.Download.Cooldown.Imposed.{imposed, imposed-splits}
use factbook_rs.Geoip.Download.Error.{GeoIpDownloadError, is_permanent}
use factbook_rs.Prelude.Keyed
use factbook_rs.Prelude.Text.{Text, text_eq, text_eq_iff}
use factbook_rs.Prelude.{
  ℕ, ◌+◌, ◌-◌, ◌<◌, ◌≤◌, ◌⊎◌, ◌≡◌, refl, ap, Bool, true, false, Option, none, some, List, [], ◌∷◌,
  arith, min, ==_iff, Bool-cases, Option-cases, inl, inr,
}
use factbook_rs.Table.Index.{Text-Eq}

abbrev pub Waits : Option ℕ → Type 0
Waits o = (wait : ℕ) × (o ≡ some wait)

get-inserted {ℓ} :
    {V : Type ℓ} (k : Text) (v : V) (m : List (Text × V))
    → Keyed.get k (Keyed.insert k v m) ≡ some v
get-inserted k v m = rw (Keyed.get-insert k k v m, (text_eq_iff k k).1 refl)

get-remove {ℓ} : {V : Type ℓ} (k : Text) (m : List (Text × V)) → Keyed.get k (remove k m) ≡ none
unfolding Keyed.get remove
get-remove k [] = refl
get-remove k ((j, v) ∷ m) = elim (Bool-cases (text_eq j k)) [
  | inl same ↦ rw same (get-remove k m)
  | inr other ↦ rw (other, other) (get-remove k m)
]

first_wait-Waits : (p : Option ℕ × Cooldowns) (o : Option ℕ) → Waits o → Waits (first_wait p o).0
first_wait-Waits (none, s) o w = w
first_wait-Waits (some x, s) o w = (x, refl)

abbrev entry_of : ℕ → GeoIpDownloadError → ℕ → Suppressed
entry_of over e fingerprint = record {
  fingerprint = fingerprint;
  until = over + ceiling_secs;
  reason = e;
  announced = false;
}

begin-permanent :
    (over : ℕ) (writable : Bool) (file : Text) (e : GeoIpDownloadError) (fingerprint : ℕ)
    (s : Cooldowns)
    → is_permanent e ≡ true
    → begin over writable file e fingerprint s
      ≡ record s { held = Keyed.insert file (entry_of over e fingerprint) s.held }
unfolding begin
begin-permanent over writable file e fingerprint s permanent = rw permanent

begin-stamped :
    (over : ℕ) (file : Text) (e : GeoIpDownloadError) (fingerprint secs : ℕ) (s : Cooldowns)
    → is_permanent e ≡ false
    → stamp_wait e ≡ some secs
    → begin over true file e fingerprint s
      ≡ record s { stamps = Keyed.insert file (some (over + min secs ceiling_secs)) s.stamps }
unfolding begin
begin-stamped over file e fingerprint secs s passing waits = rw (passing, waits)

suppressed-live :
    (now : ℕ) (file : Text) (fingerprint : ℕ) (s : Cooldowns) (entry : Suppressed)
    → Keyed.get file s.held ≡ some entry
    → lapsed now fingerprint entry ≡ false
    → suppressed now file fingerprint s ≡ (
      some (entry.until - now),
      record s { held = Keyed.insert file (record entry { announced = true }) s.held },
    )
unfolding suppressed
suppressed-live now file fingerprint s entry there live = rw (suppressed, there, live)

suppressed-stamps :
    (now : ℕ) (file : Text) (fingerprint : ℕ) (s : Cooldowns)
    → (suppressed now file fingerprint s).1.stamps ≡ s.stamps
unfolding suppressed
suppressed-stamps now file fingerprint s = elim (Option-cases (Keyed.get file s.held)) [
  | inl absent ↦ rw (suppressed, absent)
  | inr (entry, there) ↦ elim (Bool-cases (lapsed now fingerprint entry)) [
    | inl over ↦ rw (suppressed, there, over)
    | inr live ↦ rw (suppressed, there, live)
  ]
]

pub first_wait-state : (p : Option ℕ × Cooldowns) (o : Option ℕ) → (first_wait p o).1 ≡ p.1
first_wait-state (none, s) o = refl
first_wait-state (some x, s) o = refl

stamped-Waits : (later until : ℕ) → later < until → Waits (stamped later (some (some until)))
unfolding stamped
stamped-Waits later until early = (min until (later + ceiling_secs) - later, ground arith)

-- what holds a file back until a time: an entry under the configuration, or a stamp
abbrev pub IsHeld : Text → ℕ → ℕ → Cooldowns → Type 0
IsHeld file fingerprint until s =
    (entry : Suppressed) × (Keyed.get file s.held ≡ some entry)
    × (entry.fingerprint ≡ fingerprint)
    × (until ≤ entry.until)

abbrev pub IsStamped : Text → ℕ → Cooldowns → Type 0
IsStamped file until s = (u : ℕ) × (Keyed.get file s.stamps ≡ some (some u)) × (until ≤ u)

abbrev pub HeldBack : Text → ℕ → ℕ → Cooldowns → Type 0
HeldBack file fingerprint until s = IsHeld file fingerprint until s ⊎ IsStamped file until s

-- After a failure that imposes a wait, the file is held back until it is over.
pub begin-HeldBack :
    (over : ℕ) (file : Text) (e : GeoIpDownloadError) (fingerprint wait : ℕ) (s : Cooldowns)
    → imposed e ≡ some wait
    → HeldBack file fingerprint (over + wait) (begin over true file e fingerprint s)
begin-HeldBack over file e fingerprint wait s imposes = elim (imposed-splits e wait imposes) [
  | inl (permanent, length_) ↦ rw (begin-permanent over true file e fingerprint s permanent) (
      inl (
        entry_of over e fingerprint,
        get-inserted file (entry_of over e fingerprint) s.held,
        refl,
        omega arith,
      ))
  | inr (secs, passing, waits, length_) ↦
      rw (begin-stamped over file e fingerprint secs s passing waits) (
        inr (
          over + min secs ceiling_secs,
          get-inserted file (some (over + min secs ceiling_secs)) s.stamps,
          omega arith,
        ))
]

live_entry :
    (later fingerprint until : ℕ) (entry : Suppressed)
    → entry.fingerprint ≡ fingerprint
    → until ≤ entry.until
    → later < until
    → lapsed later fingerprint entry ≡ false
live_entry later fingerprint until entry same until_ early =
    rw ((==_iff entry.fingerprint fingerprint).1 same) (ground arith)

-- Until the time is over, a file that is held back is told to wait, and stays held back.
pub wait_for-HeldBack :
    (later : ℕ) (file : Text) (fingerprint until : ℕ) (s : Cooldowns)
    → HeldBack file fingerprint until s
    → later < until
    → Waits (wait_for later file fingerprint s).0
      × HeldBack file fingerprint until (wait_for later file fingerprint s).1
unfolding wait_for
wait_for-HeldBack later file fingerprint until s (inl (entry, there, same, until_)) early =
    let live = live_entry later fingerprint until entry same until_ early in
    rw (suppressed-live later file fingerprint s entry there live) (
      (entry.until - later, refl),
      inl (
        record entry { announced = true },
        get-inserted file (record entry { announced = true }) s.held,
        same,
        until_,
      ),
    )
wait_for-HeldBack later file fingerprint until s (inr (u, there, until_)) early = rw there (
  first_wait-Waits (suppressed later file fingerprint s) _ (stamped-Waits later u (omega arith)),
  inr (
    u,
    rw
        (
          first_wait-state (suppressed later file fingerprint s) (stamped later (some (some u))),
          suppressed-stamps later file fingerprint s,
        )
        there,
    until_,
  ),
)

suppressed-absent :
    (now : ℕ) (file : Text) (fingerprint : ℕ) (s : Cooldowns)
    → Keyed.get file s.held ≡ none
    → suppressed now file fingerprint s ≡ (none, s)
unfolding suppressed
suppressed-absent now file fingerprint s absent = rw (suppressed, absent)

wait_for-clear :
    (later : ℕ) (file : Text) (fingerprint : ℕ) (s : Cooldowns)
    → (wait_for later file fingerprint (clear true file s)).0 ≡ none
unfolding wait_for clear stamped
wait_for-clear later file fingerprint s = rw (
  suppressed-absent later file fingerprint (clear true file s) (get-remove file s.held),
  get-remove file s.stamps,
)

-- the next attempt, by what it was told to wait
pub attempt-Waits :
    (later over : ℕ) (writable : Bool) (file : Text) (fingerprint : ℕ)
    (result : Option GeoIpDownloadError) (s : Cooldowns)
    → Waits (wait_for later file fingerprint s).0
    → (left : ℕ) × ((attempt later over writable (some file) fingerprint result s).0 ≡ waiting left)
unfolding attempt
attempt-Waits later over writable file fingerprint result s (left, told) =
    (left, rw (attempt, told))

pub attempt-free :
    (later over : ℕ) (writable : Bool) (file : Text) (fingerprint : ℕ)
    (result : Option GeoIpDownloadError) (s : Cooldowns)
    → (wait_for later file fingerprint s).0 ≡ none
    → attempt later over writable (some file) fingerprint result s ≡ (
      ran result,
      settle over writable (some file) fingerprint result (wait_for later file fingerprint s).1,
    )
unfolding attempt
attempt-free later over writable file fingerprint result s free = rw (attempt, free)

-- An attempt that succeeded leaves nothing that holds the file back, under any configuration, if
-- the stamp could be removed: the next attempt runs.
pub attempt-success :
    (now over later ended : ℕ) (writable : Bool) (file : Text) (fingerprint other : ℕ)
    (again : Option GeoIpDownloadError) (s : Cooldowns)
    → (wait_for now file fingerprint s).0 ≡ none
    → (attempt later ended writable
        (some file)
        other
        again
        (attempt now over true (some file) fingerprint none s).1).0
      ≡ ran again
attempt-success now over later ended writable file fingerprint other again s free =
    rw (attempt-free now over true file fingerprint none s free) (
      ap (λ r. r.0)
        (attempt-free later ended writable file other again _
          (wait_for-clear later file other (wait_for now file fingerprint s).1)))
