-- ===== src/Geoip/Download/Cooldown.antt =====
-- src/geoip/download/cooldown.rs, and `attempt` of mod.rs beside it: how long a file is left alone
-- after its provider refused it. The two statics and the stamp files are one state, keyed by the
-- file; `now` is `now_secs`, and a flag says whether a file operation succeeds. A stamp holds the
-- number that it parses to, or none if it does not parse. Log lines and the set of stamps that were
-- announced, which only they read, are left out.
pub mod Imposed
pub mod HoldsBack
pub mod Attempts
use factbook_rs.Geoip.Download.Error.{
  GeoIpDownloadError, rate_limited, is_permanent, Outcome, outcome,
}
use factbook_rs.Prelude.Keyed
use factbook_rs.Prelude.Keyed.{Eq}
use factbook_rs.Prelude.Text.{Text, text_eq}
use factbook_rs.Prelude.{
  ℕ, ◌+◌, ◌-◌, ◌*◌, Bool, true, false, not, ◌||◌, Option, none, some, List, [], ◌∷◌, ltb, ◌==◌, min,
  if◌then◌else◌,
}
use factbook_rs.Table.Index.{Text-Eq}

abbrev pub floor_secs : ℕ
floor_secs = 60 * 60

abbrev pub ceiling_secs : ℕ
ceiling_secs = 24 * 60 * 60

-- One permanent failure; the reason is the error whose text is kept.
pub record Suppressed : Type 0 where
  pub fingerprint : ℕ
  pub until : ℕ
  pub reason : GeoIpDownloadError
  pub announced : Bool

pub record Cooldowns : Type 0 where
  pub stamps : List (Text × Option ℕ)
  pub held : List (Text × Suppressed)

-- `HashMap::remove`
unfoldable pub remove {ℓ} : {V : Type ℓ} → Text → List (Text × V) → List (Text × V)
remove k [] = []
remove k ((j, v) ∷ m) = if text_eq j k then remove k m else (j, v) ∷ remove k m

-- whether an entry says nothing any more
abbrev pub lapsed : ℕ → ℕ → Suppressed → Bool
lapsed now fingerprint entry = not (entry.fingerprint == fingerprint) || (entry.until - now) == 0

unfoldable pub suppressed : ℕ → Text → ℕ → Cooldowns → Option ℕ × Cooldowns
suppressed now dest fingerprint s = elim (Keyed.get dest s.held) [
  | none ↦ (none, s)
  | some entry ↦
      if lapsed now fingerprint entry then (none, record s { held = remove dest s.held }) else (
        some (entry.until - now),
        record s { held = Keyed.insert dest (record entry { announced = true }) s.held },
      )
]

-- the wait that a stamp asks for
unfoldable pub stamped : ℕ → Option (Option ℕ) → Option ℕ
stamped now (some (some until)) =
    let bounded = min until (now + ceiling_secs) in
    if ltb now bounded then some (bounded - now) else none
stamped now _ = none

abbrev pub first_wait : Option ℕ × Cooldowns → Option ℕ → Option ℕ × Cooldowns
first_wait (some wait, s) stamp = (some wait, s)
first_wait (none, s) stamp = (stamp, s)

unfoldable pub wait_for : ℕ → Text → ℕ → Cooldowns → Option ℕ × Cooldowns
unfolding suppressed stamped
wait_for now dest fingerprint s =
    first_wait (suppressed now dest fingerprint s) (stamped now (Keyed.get dest s.stamps))

abbrev pub or_floor : Option ℕ → ℕ
or_floor none = floor_secs
or_floor (some secs) = secs

abbrev pub is_refused : Outcome → Bool
is_refused Outcome.refused = true
is_refused _ = false

-- the wait that an error which is not permanent starts
unfoldable pub stamp_wait : GeoIpDownloadError → Option ℕ
unfolding outcome
stamp_wait (rate_limited provider after) = some (or_floor after)
stamp_wait error = if is_refused (outcome error) then some floor_secs else none

abbrev pub write_stamp : ℕ → Bool → Text → Cooldowns → Option ℕ → Cooldowns
write_stamp now writable dest s none = s
write_stamp now false dest s (some wait) = s
write_stamp now true dest s (some wait) = record s {
  stamps = Keyed.insert dest (some (now + min wait ceiling_secs)) s.stamps;
}

unfoldable pub begin : ℕ → Bool → Text → GeoIpDownloadError → ℕ → Cooldowns → Cooldowns
begin now writable dest error fingerprint s =
    if is_permanent error
    then record s {
      held =
          Keyed.insert dest
            (record {
              fingerprint = fingerprint;
              until = now + ceiling_secs;
              reason = error;
              announced = false;
            })
            s.held;
    }
    else write_stamp now writable dest s (stamp_wait error)

unfoldable pub clear : Bool → Text → Cooldowns → Cooldowns
clear removable dest s = record {
  stamps = if removable then remove dest s.stamps else s.stamps;
  held = remove dest s.held;
}

-- How an attempt came out: still waiting, or run, with the error it ended in.
pub data Attempt : Type 0 where
  waiting : ℕ → Attempt
  ran : Option GeoIpDownloadError → Attempt

-- what a result does to the cool-downs, at the time that the fetch is over
abbrev pub settle : ℕ → Bool → Option Text → ℕ → Option GeoIpDownloadError → Cooldowns → Cooldowns
settle over writable none fingerprint result s = s
settle over writable (some file) fingerprint none s = clear writable file s
settle over writable (some file) fingerprint (some e) s = begin over writable file e fingerprint s

abbrev pub asked : ℕ → Option Text → ℕ → Cooldowns → Option ℕ × Cooldowns
asked now none fingerprint s = (none, s)
asked now (some file) fingerprint s = wait_for now file fingerprint s

-- `attempt`: the fetch ends in `result`, at `over`
unfoldable pub attempt :
    ℕ → ℕ → Bool → Option Text → ℕ → Option GeoIpDownloadError → Cooldowns → Attempt × Cooldowns
attempt now over writable stamp fingerprint result s =
    let (wait, after) = asked now stamp fingerprint s in
    elim wait [
      | some left ↦ (waiting left, after)
      | none ↦ (ran result, settle over writable stamp fingerprint result after)
    ]
