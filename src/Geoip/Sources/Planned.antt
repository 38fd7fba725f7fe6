-- ===== src/Geoip/Sources/Planned.antt =====
-- What is planned for the sources that are published.
use factbook_rs.Geoip.Download.Error.{Result, ok, err}
use factbook_rs.Geoip.Fetch.Transfer.{Credential, anonymous, basic, query_token, Transfer}
use factbook_rs.Geoip.Sources.Select.{planned, transfer, staleness_window}
use factbook_rs.Geoip.Sources.Table.{published}
use factbook_rs.Geoip.Sources.{
  AutoDownloadConfig, Platform, SourceSpec, CredentialSlot, CredentialKind, no_credential, basic_of,
  query_token_of, if_stated, require, with_secret, resolve_credential, provider_label, slot_read,
  slot_path,
}
use factbook_rs.Prelude.Text.{Text}
use factbook_rs.Prelude.{
  ℕ, zero, suc, ◌≤◌, ◌<◌, ◌≡◌, refl, sym, ap, Option, none, some, List, [], ◌∷◌, length, get_elem?,
  All, arith,
}

pub All-at {ℓ κ} :
    {A : Type ℓ} (P : A → Type κ) (xs : List A) (i : ℕ) (x : A)
    → All P xs
    → get_elem? xs i ≡ some x
    → P x
All-at P [] i x h e = cc
All-at P (y ∷ xs) zero x h e = let same : y ≡ x = cc in rw (← same) h.0
All-at P (y ∷ xs) (suc i) x h e = All-at P xs i x h.1 e

-- an interval that is stated is within a cadence
abbrev IsPaced : Option ℕ → ℕ → Type 0
IsPaced none cadence = Unit
IsPaced (some floor) cadence = floor ≤ cadence

abbrev IsPacedSource : SourceSpec → Type 0
IsPacedSource s = IsPaced s.min_interval s.cadence

published-IsPacedSource : All IsPacedSource published
published-IsPacedSource = (
  tt,
  (tt, (omega arith, (omega arith, (omega arith, (omega arith, (omega arith, (tt, (tt, tt)))))))),
)

-- How long a copy of a published database counts as current, whatever the configuration: at most as
-- long as its publisher's cadence, and never less than the interval that the publisher asks for
-- between two downloads, if it asks for one.
pub staleness_window-published :
    (i : ℕ) (s : SourceSpec) (auto : AutoDownloadConfig)
    → get_elem? published i ≡ some s
    → (staleness_window s auto ≤ s.cadence) × IsPaced s.min_interval (staleness_window s auto)
unfolding staleness_window
staleness_window-published i s auto e =
    go s.min_interval (All-at IsPacedSource published i s published-IsPacedSource e)
  where
    go :
        (interval : Option ℕ)
        → IsPaced interval s.cadence
        → (staleness_window (record s { min_interval = interval }) auto ≤ s.cadence)
          × IsPaced interval (staleness_window (record s { min_interval = interval }) auto)
    go none h = (omega arith, tt)
    go (some floor) h = ground (arith, h)

-- a secret that is not empty, from the config field that holds it
abbrev IsStated : CredentialSlot → AutoDownloadConfig → Text → Type 0
IsStated slot auto secret = (slot_read slot auto ≡ some secret) × (0 < length secret)

-- the credential that a source asks for, with nothing left blank
abbrev pub IsFilled : CredentialKind → AutoDownloadConfig → Credential → Type 0
IsFilled no_credential auto credential = credential ≡ anonymous
IsFilled (basic_of username password names) auto credential =
    (user : Text) × (secret : Text) × IsStated username auto user
    × IsStated password auto secret
    × (credential ≡ basic user secret names)
IsFilled (query_token_of name token) auto credential =
    (value : Text) × IsStated token auto value
    × (credential ≡ query_token name value (slot_path token))

if_stated-filled :
    (stated : Option Text) (provider path secret : Text)
    → if_stated stated provider path ≡ ok secret
    → (stated ≡ some secret) × (0 < length secret)
if_stated-filled none provider path secret h = cc
if_stated-filled (some []) provider path secret h = cc
if_stated-filled (some (b ∷ text)) provider path secret h =
    let same : b ∷ text ≡ secret = cc in (ap some same, rw (← same) (omega arith))

require-IsStated :
    (slot : CredentialSlot) (provider : Text) (auto : AutoDownloadConfig) (secret : Text)
    → require slot provider auto ≡ ok secret
    → IsStated slot auto secret
unfolding require
require-IsStated slot provider auto secret h =
    if_stated-filled (slot_read slot auto) provider (slot_path slot) secret h

with_secret-through :
    {A : Type 0} (r : Result Text) (next : Text → Result A) (a : A)
    → with_secret r next ≡ ok a
    → (secret : Text) × (r ≡ ok secret) × (next secret ≡ ok a)
with_secret-through (err e) next a h = cc
with_secret-through (ok secret) next a h = (secret, refl, h)

ok_value {ℓ} : {A : Type ℓ} (a b : A) → ok a ≡ ok b → a ≡ b
ok_value a b h = cc

resolve_credential-IsFilled :
    (kind : CredentialKind) (provider : Text) (auto : AutoDownloadConfig) (credential : Credential)
    → resolve_credential kind provider auto ≡ ok credential
    → IsFilled kind auto credential
unfolding resolve_credential
resolve_credential-IsFilled no_credential provider auto credential h =
    sym (ok_value anonymous credential h)
resolve_credential-IsFilled (basic_of username password names) provider auto credential h =
    let (user, user_given, rest) =
      with_secret-through (require username provider auto) _ credential h in
    let (secret, given, last) =
      with_secret-through (require password provider auto) _ credential rest in
    (
      user,
      secret,
      require-IsStated username provider auto user user_given,
      require-IsStated password provider auto secret given,
      sym (ok_value _ credential last),
    )
resolve_credential-IsFilled (query_token_of name token) provider auto credential h =
    let (value, given, last) = with_secret-through (require token provider auto) _ credential h in
    (value, require-IsStated token provider auto value given, sym (ok_value _ credential last))

planned-credential :
    (platform : Platform) (auto : AutoDownloadConfig) (s : SourceSpec) (r : Result Credential)
    (t : Transfer)
    → planned platform auto s r ≡ ok t
    → (r ≡ ok t.credential) × (t.dest ≡ platform.join auto.data_dir s.file) × (t.format ≡ s.format)
planned-credential platform auto s (err e) t h = cc
planned-credential platform auto s (ok credential) t h =
    let same = ok_value _ t h in
    (ap (λ p. ok p.credential) same, ap (λ p. p.dest) (sym same), ap (λ p. p.format) (sym same))

-- A transfer that is planned has the credential that its source asks for: none if it asks for none,
-- and otherwise each secret from the config field that the source names, where it is not empty. It
-- writes to the source's file in the data directory, in the source's format.
pub transfer-IsFilled :
    (platform : Platform) (auto : AutoDownloadConfig) (s : SourceSpec) (t : Transfer)
    → transfer platform auto s ≡ ok t
    → IsFilled s.credential auto t.credential
      × (t.dest ≡ platform.join auto.data_dir s.file)
      × (t.format ≡ s.format)
unfolding transfer
transfer-IsFilled platform auto s t h =
    let (given, dest, format) =
      planned-credential platform auto s
        (resolve_credential s.credential (provider_label s.provider) auto) t h in
    (
      resolve_credential-IsFilled s.credential (provider_label s.provider) auto t.credential given,
      dest,
      format,
    )
