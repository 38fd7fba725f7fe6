-- ===== src/Geoip/Download/Cooldown/Attempts.antt =====
-- Attempts of one file after another, among those of other files.
use factbook_rs.Geoip.Download.Cooldown.HoldsBack.{
  Waits, HeldBack, begin-HeldBack, wait_for-HeldBack, attempt-Waits, attempt-free, first_wait-state,
}
use factbook_rs.Geoip.Download.Cooldown.Imposed.{imposed}
use factbook_rs.Geoip.Download.Cooldown.{
  Cooldowns, remove, lapsed, suppressed, stamped, wait_for, stamp_wait, write_stamp, begin, clear,
  Attempt, waiting, settle, attempt,
}
use factbook_rs.Geoip.Download.Error.{GeoIpDownloadError, is_permanent}
use factbook_rs.Prelude.Keyed
use factbook_rs.Prelude.Text.{Text, text_eq, text_eq_iff}
use factbook_rs.Prelude.{
  ℕ, ◌+◌, ◌<◌, ◌⊎◌, All, ◌≡◌, ◌∙◌, refl, Bool, true, false, Option, none, some, List, [], ◌∷◌,
  Bool-cases, Option-cases, inl, inr,
}
use factbook_rs.Table.Index.{Text-Eq}

-- one attempt: when it starts, when its fetch is over if it runs, whether a stamp can be written or
-- removed then, its file and configuration, and the result of its fetch
pub record Try : Type 0 where
  pub at : ℕ
  pub over : ℕ
  pub writable : Bool
  pub file : Text
  pub fingerprint : ℕ
  pub result : Option GeoIpDownloadError

abbrev pub attempt_of : Try → Cooldowns → Attempt × Cooldowns
attempt_of t s = attempt t.at t.over t.writable (some t.file) t.fingerprint t.result s

-- the cool-downs behind some attempts
abbrev pub after_all : List Try → Cooldowns → Cooldowns
after_all [] s = s
after_all (t ∷ ts) s = after_all ts (attempt_of t s).1

-- of another file, or under the configuration and before the time is over
abbrev pub IsEarly : Text → ℕ → ℕ → Try → Type 0
IsEarly file fingerprint until t =
    (text_eq t.file file ≡ false)
    ⊎ ((t.file ≡ file) × (t.fingerprint ≡ fingerprint) × (t.at < until))

-- what two states say of a file
abbrev Agrees : Text → Cooldowns → Cooldowns → Type 0
Agrees file s s' =
    (Keyed.get file s'.held ≡ Keyed.get file s.held)
    × (Keyed.get file s'.stamps ≡ Keyed.get file s.stamps)

get-inserted_other {ℓ} :
    {V : Type ℓ} (k j : Text) (v : V) (m : List (Text × V))
    → text_eq k j ≡ false
    → Keyed.get j (Keyed.insert k v m) ≡ Keyed.get j m
get-inserted_other k j v m other = rw (Keyed.get-insert k j v m, other)

get-remove_other {ℓ} :
    {V : Type ℓ} (k j : Text) (m : List (Text × V))
    → text_eq k j ≡ false
    → Keyed.get j (remove k m) ≡ Keyed.get j m
unfolding Keyed.get remove
get-remove_other k j [] other = refl
get-remove_other k j ((i, v) ∷ m) other = elim (Bool-cases (text_eq i k)) [
  | inl same ↦
      let is_k : i ≡ k = (text_eq_iff i k).0 same in
      rw (same, is_k, other) (get-remove_other k j m other)
  | inr differs ↦ elim (Bool-cases (text_eq i j)) [
    | inl here ↦ rw (differs, here)
    | inr there ↦ rw (differs, there) (get-remove_other k j m other)
  ]
]

suppressed-Agrees :
    (now : ℕ) (other file : Text) (fingerprint : ℕ) (s : Cooldowns)
    → text_eq other file ≡ false
    → Agrees file s (suppressed now other fingerprint s).1
unfolding suppressed
suppressed-Agrees now other file fingerprint s d = elim (Option-cases (Keyed.get other s.held)) [
  | inl absent ↦ rw (suppressed, absent) (refl, refl)
  | inr (entry, there) ↦ elim (Bool-cases (lapsed now fingerprint entry)) [
    | inl over ↦ rw (suppressed, there, over) (get-remove_other other file s.held d, refl)
    | inr live ↦ rw (suppressed, there, live) (get-inserted_other other file _ s.held d, refl)
  ]
]

write_stamp-Agrees :
    (now : ℕ) (writable : Bool) (other file : Text) (s : Cooldowns) (wait : Option ℕ)
    → text_eq other file ≡ false
    → Agrees file s (write_stamp now writable other s wait)
write_stamp-Agrees now writable other file s none d = (refl, refl)
write_stamp-Agrees now false other file s (some wait) d = (refl, refl)
write_stamp-Agrees now true other file s (some wait) d =
    (refl, get-inserted_other other file _ s.stamps d)

settle-Agrees :
    (over : ℕ) (writable : Bool) (other file : Text) (fingerprint : ℕ)
    (result : Option GeoIpDownloadError) (s : Cooldowns)
    → text_eq other file ≡ false
    → Agrees file s (settle over writable (some other) fingerprint result s)
unfolding clear begin
settle-Agrees over true other file fingerprint none s d =
    (get-remove_other other file s.held d, get-remove_other other file s.stamps d)
settle-Agrees over false other file fingerprint none s d =
    (get-remove_other other file s.held d, refl)
settle-Agrees over writable other file fingerprint (some e) s d =
    elim (Bool-cases (is_permanent e)) [
      | inl permanent ↦ rw permanent (get-inserted_other other file _ s.held d, refl)
      | inr passing ↦ rw passing (write_stamp-Agrees over writable other file s (stamp_wait e) d)
    ]

wait_for-state :
    (now : ℕ) (file : Text) (fingerprint : ℕ) (s : Cooldowns)
    → (wait_for now file fingerprint s).1 ≡ (suppressed now file fingerprint s).1
unfolding wait_for
wait_for-state now file fingerprint s =
    first_wait-state (suppressed now file fingerprint s) (stamped now (Keyed.get file s.stamps))

-- An attempt of another file leaves what is said of this one.
attempt_of-Agrees :
    (t : Try) (file : Text) (s : Cooldowns)
    → text_eq t.file file ≡ false
    → Agrees file s (attempt_of t s).1
unfolding attempt
attempt_of-Agrees t file s d =
    let asked_ =
      rw (← wait_for-state t.at t.file t.fingerprint s) at
        (suppressed-Agrees t.at t.file file t.fingerprint s d) in
    elim (Option-cases (wait_for t.at t.file t.fingerprint s).0) [
      | inr (left, told) ↦ rw (attempt, told) asked_
      | inl free ↦
          let settled =
            settle-Agrees t.over t.writable t.file file t.fingerprint t.result
              (wait_for t.at t.file t.fingerprint s).1 d in
          rw (attempt, free) (settled.0 ∙ asked_.0, settled.1 ∙ asked_.1)
    ]

Agrees-HeldBack :
    (file : Text) (fingerprint until : ℕ) (s s' : Cooldowns)
    → Agrees file s s'
    → HeldBack file fingerprint until s
    → HeldBack file fingerprint until s'
Agrees-HeldBack file fingerprint until s s' (held, stamps) (inl (entry, there, same, until_)) =
    inl (entry, held ∙ there, same, until_)
Agrees-HeldBack file fingerprint until s s' (held, stamps) (inr (u, there, until_)) =
    inr (u, stamps ∙ there, until_)

-- An attempt that is told to wait leaves the state that told it.
attempt_of-state :
    (t : Try) (s : Cooldowns)
    → Waits (wait_for t.at t.file t.fingerprint s).0
    → (attempt_of t s).1 ≡ (wait_for t.at t.file t.fingerprint s).1
unfolding attempt
attempt_of-state t s (left, told) = rw (attempt, told)

asked-HeldBack :
    (later : ℕ) (f file : Text) (g fingerprint until : ℕ) (s : Cooldowns)
    → f ≡ file
    → g ≡ fingerprint
    → HeldBack file fingerprint until s
    → later < until
    → Waits (wait_for later f g s).0 × HeldBack file fingerprint until (wait_for later f g s).1
asked-HeldBack later f file g fingerprint until s same config h early =
    rw (same, config) (wait_for-HeldBack later file fingerprint until s h early)

attempt_of-HeldBack :
    (t : Try) (file : Text) (fingerprint until : ℕ) (s : Cooldowns)
    → IsEarly file fingerprint until t
    → HeldBack file fingerprint until s
    → HeldBack file fingerprint until (attempt_of t s).1
attempt_of-HeldBack t file fingerprint until s (inl other) h =
    Agrees-HeldBack file fingerprint until s (attempt_of t s).1 (attempt_of-Agrees t file s other) h
attempt_of-HeldBack t file fingerprint until s (inr (same, config, early)) h =
    let (waits, stays) =
      asked-HeldBack t.at t.file file t.fingerprint fingerprint until s same config h early in
    rw (attempt_of-state t s waits) stays

after_all-HeldBack :
    (ts : List Try) (file : Text) (fingerprint until : ℕ) (s : Cooldowns)
    → All (IsEarly file fingerprint until) ts
    → HeldBack file fingerprint until s
    → HeldBack file fingerprint until (after_all ts s)
after_all-HeldBack [] file fingerprint until s early h = h
after_all-HeldBack (t ∷ ts) file fingerprint until s early h =
    after_all-HeldBack ts file fingerprint until (attempt_of t s).1 early.1
      (attempt_of-HeldBack t file fingerprint until s early.0 h)

-- An attempt ran under a configuration, failed with an error that imposes a wait (a day for a
-- permanent failure, what the provider asks but at most a day for a rate limit, or an hour if it
-- asks for none, an hour for a file that was refused), and the stamp could be written: until the
-- wait is over, an attempt of that file under that configuration is told to wait and sends nothing,
-- also behind any number of attempts of that file under that configuration within the wait, and of
-- other files at any time.
pub attempt-after_all :
    (now over later ended : ℕ) (writable : Bool) (file : Text) (e : GeoIpDownloadError)
    (fingerprint wait : ℕ) (ts : List Try) (again : Option GeoIpDownloadError) (s : Cooldowns)
    → imposed e ≡ some wait
    → (wait_for now file fingerprint s).0 ≡ none
    → All (IsEarly file fingerprint (over + wait)) ts
    → later < over + wait
    → (left : ℕ) × ((attempt later ended writable
          (some file)
          fingerprint
          again
          (after_all ts (attempt now over true (some file) fingerprint (some e) s).1)).0
        ≡ waiting left)
attempt-after_all now over later ended writable file e fingerprint wait ts again s imposes free
      between early =
    rw (attempt-free now over true file fingerprint (some e) s free) (
      attempt-Waits later ended writable file fingerprint again _
        (wait_for-HeldBack later file fingerprint (over + wait) _
          (after_all-HeldBack ts file fingerprint (over + wait) _ between
            (begin-HeldBack over file e fingerprint wait _ imposes))
          early).0)
