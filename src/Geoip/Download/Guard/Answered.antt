-- ===== src/Geoip/Download/Guard/Answered.antt =====
-- A MaxMind database that the probe admits has an answer.
use factbook_rs.Geoip.Download.Error.{GeoIpDownloadError}
use factbook_rs.Geoip.Download.Guard.{passes, refused}
use factbook_rs.Geoip.Download.Guard.Probe.{
  Kind, Reader, mmdb, probe_addresses, paths_of, is_blank, answers, probe,
}
use factbook_rs.Net.Address.{IpAddr}
use factbook_rs.Prelude.Text.{Text}
use factbook_rs.Prelude.{
  ℕ, suc, ◌≡◌, refl, Bool, true, false, not, Option, none, some, List, [], ◌∷◌, any, get_elem?,
  if◌then◌else◌, Bool-cases, Option-cases, inl, inr,
}
use factbook_rs.Table.Query.{is_some_and}

any-at :
    {A : Type 0} (p : A → Bool) (xs : List A)
    → any p xs ≡ true
    → (i : ℕ) × (x : A) × (get_elem? xs i ≡ some x) × (p x ≡ true)
any-at p [] h = cc
any-at p (x ∷ xs) h = elim (Bool-cases (p x)) [
  | inl here ↦ (0, x, refl, here)
  | inr there ↦ let (i, y, at, holds) = any-at p xs (rw there at h) in (suc i, y, at, holds)
]

-- An address of the probe for which the database has a text that is more than white space, under
-- one of the paths of its kind.
pub record HasAnswer (reader : Reader) (kind : Kind) : Type 0 where
  pub address : IpAddr
  pub place : ℕ
  pub probed : get_elem? probe_addresses place ≡ some address
  pub decode : List Text → Option Text
  pub resolved : reader address ≡ some decode
  pub path : List Text
  pub rank : ℕ
  pub published : get_elem? (paths_of kind) rank ≡ some path
  pub value : Text
  pub decoded : decode path ≡ some value
  pub printed : is_blank value ≡ false

is_some_and-some :
    {A : Type 0} (o : Option A) (p : A → Bool)
    → is_some_and o p ≡ true
    → (a : A) × (o ≡ some a) × (p a ≡ true)
is_some_and-some none p h = cc
is_some_and-some (some a) p h = (a, refl, h)

unnegated : (b : Bool) → not b ≡ true → b ≡ false
unnegated true h = cc
unnegated false h = refl

passed : (b : Bool) (e : GeoIpDownloadError) → (if b then passes else refused e) ≡ passes → b ≡ true
passed true e h = refl
passed false e h = cc

-- A staged MaxMind database that the probe admits opens, and answers for one of the probe's
-- addresses with a text that is more than white space, under a path of its kind.
pub probe-HasAnswer :
    (open_reader : Text → Option Reader) (staged dest : Text) (kind : Kind)
    → probe open_reader staged dest kind mmdb ≡ passes
    → (reader : Reader) × (open_reader staged ≡ some reader) × HasAnswer reader kind
unfolding probe answers
probe-HasAnswer open_reader staged dest kind h = elim (Option-cases (open_reader staged)) [
  | inl shut ↦ absurd (refuses (rw (shut, probe) at h))
  | inr (reader, opened) ↦
      let found =
        any-at (λ address. answers reader address kind) probe_addresses
          (passed _ _ (rw (opened, probe) at h)) in
      let (place, address, probed, holds) = found in
      let (decode, resolved, some_path) = is_some_and-some (reader address) _ holds in
      let (rank, path, published, told) = any-at _ (paths_of kind) some_path in
      let (value, decoded, printed) = is_some_and-some (decode path) _ told in
      (
        reader,
        opened,
        record {
          address = address;
          place = place;
          probed = probed;
          decode = decode;
          resolved = resolved;
          path = path;
          rank = rank;
          published = published;
          value = value;
          decoded = decoded;
          printed = unnegated (is_blank value) printed;
        },
      )
]
  where
    refuses : {e : GeoIpDownloadError} → refused e ≡ passes → ⊥
    refuses h = cc
