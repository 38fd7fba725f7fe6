-- ===== src/Table/Error.antt =====
-- src/table/mod.rs, `TableError`, and the results that carry it. What a message says is data.
use factbook_rs.Prelude.{ℕ, ◌≡◌, refl, List}
use factbook_rs.Prelude.Text.{Text}
use factbook_rs.Geoip.Download.Error.{GeoIpDownloadError}

-- what the readers refuse a file for
pub data Detail : Type 0 where
  field_too_long not_utf8 too_many_fields text_after_quote never_closed : Detail
  width : ℕ → ℕ → Detail
  not_an_object : ℕ → Detail
  too_many_keys : Detail
  other : Text → Detail

pub data TableError : Type 0 where
  fetch : GeoIpDownloadError → TableError
  io : TableError
  bad_url : Text → Text → TableError
  unsafe_file_name : Text → TableError
  malformed : ℕ → Detail → TableError
  not_an_array_of_objects : Detail → TableError
  names_required no_names empty : TableError
  unknown_column : Text → List Text → TableError
  no_address_column no_prefix_column : List Text → TableError
  over_resident_ceiling : ℕ → TableError

pub data Result {ℓ} (A : Type ℓ) : Type ℓ where
  ok : A → Result A
  err : TableError → Result A

-- `?`: what stands behind it runs on the value, and a refusal is passed on.
infixl 5 ◌>>=◌ ◌>>◌
abbrev pub ◌>>=◌ {ℓ κ} : {V : Type ℓ} {W : Type κ} → Result V → (V → Result W) → Result W
err refusal >>= next = err refusal
ok value >>= next = next value

abbrev pub ◌>>◌ {ℓ} : {W : Type ℓ} → Result (Unit {0}) → Result W → Result W
first >> rest = first >>= λ done. rest

-- What a chain that succeeds went through: the value in the middle.
abbrev pub Through {ℓ κ} : {V : Type ℓ} {W : Type κ} → Result V → (V → Result W) → W → Type (ℓ ⊔ κ)
Through {V = V} first next w = (value : V) × (first ≡ ok value) × (next value ≡ ok w)

pub >>=-eq-ok {ℓ κ} :
    {V : Type ℓ} {W : Type κ} (first : Result V) (next : V → Result W) {w : W}
    → (first >>= next) ≡ ok w
    → Through first next w
>>=-eq-ok (err refusal) next chained = cc
>>=-eq-ok (ok value) next chained = (value, refl, chained)

pub >>=-assoc {ℓ κ ι} :
    {A : Type ℓ} {B : Type κ} {C : Type ι} (m : Result A) (f : A → Result B) (g : B → Result C)
    → ((m >>= f) >>= g) ≡ (m >>= λ a. f a >>= g)
>>=-assoc (ok a) f g = refl
>>=-assoc (err e) f g = refl

pub ok-injective {ℓ} : {A : Type ℓ} {a b : A} → ok a ≡ ok b → a ≡ b
ok-injective e = cc
