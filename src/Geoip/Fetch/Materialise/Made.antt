-- ===== src/Geoip/Fetch/Materialise/Made.antt =====
-- What a staged file was made of.
use mathlib.Core.Option.{some-injective}
use factbook_rs.Geoip.Download.Error.{GeoIpDownloadError, Result, ok, err, io, too_large}
use factbook_rs.Geoip.Fetch.Materialise.{
  Stream, Member, Tools, copy_bounded, created, is_match, on_match, extract_from,
}
use factbook_rs.Geoip.Fetch.Transfer.{Archive, raw, gzip, tar_gz, max_expanded_bytes}
use factbook_rs.Prelude.Text.{Text, text_eq, text_eq_iff}
use factbook_rs.Prelude.{
  ℕ, zero, suc, ◌+◌, ◌≤◌, ◌<◌, ◌≡◌, refl, ap, Bool, true, false, not, ◌&&◌, Option, none, some,
  List, [], ◌∷◌, arith, ltb, ltb→ge, if◌then◌else◌, length, take, get_elem?, Bool-cases, inl, inr,
}
use factbook_rs.Table.Build.{map_option}
use factbook_rs.Table.Query.{is_some_and}

-- A reader that was copied to its end, within the ceiling.
abbrev pub IsCopied : Stream → Text → Type 0
IsCopied source file =
    (file ≡ source.bytes) × (source.ends ≡ true) × (length file ≤ max_expanded_bytes)

-- What the archive makes of the part file.
abbrev pub IsMade : Tools → Archive → Text → Text → Type 0
IsMade tools raw part file = file ≡ part
IsMade tools gzip part file = IsCopied (tools.gunzip part) file
IsMade tools (tar_gz name) part file =
    (entries : List (Option Member)) × (i : ℕ) × (member : Member) × (tools.entries part
      ≡ some entries)
    × (get_elem? entries i ≡ some (some member))
    × (member.is_file ≡ true)
    × (member.path ≡ some (some name))
    × IsCopied member.contents file

take-short : (n : ℕ) (bytes : Text) → length (take n bytes) < n → take n bytes ≡ bytes
take-short zero bytes h = absurd (omega (arith, h))
take-short (suc n) [] h = refl
take-short (suc n) (b ∷ bytes) h = ap (λ t. b ∷ t) (take-short n bytes (omega (arith, h)))

-- a guard that refuses, in front of what succeeds
pub past {ℓ κ ν} :
    {A : Type ℓ} {B : Type κ} (over : Bool) (x : A) (e : GeoIpDownloadError) (rest : A × Result B)
    (v : B) (P : A × Result B → Type ν)
    → (over ≡ false → rest.1 ≡ ok v → P rest)
    → (if over then (x, err e) else rest).1 ≡ ok v
    → P (if over then (x, err e) else rest)
past true x e rest v P g h = cc
past false x e rest v P g h = g refl h

-- a copy that succeeds
copy_bounded-IsCopied :
    (flushes : Bool) (source : Stream) (dest : Text)
    → (copy_bounded flushes source dest max_expanded_bytes).1 ≡ ok tt
    → IsCopied source (copy_bounded flushes source dest max_expanded_bytes).0
unfolding copy_bounded
copy_bounded-IsCopied flushes source dest =
    past _ copied io _ tt (λ d. IsCopied source d.0)
      (λ read.
        past _ copied io _ tt (λ d. IsCopied source d.0)
          (λ flushed.
            past _ copied (too_large dest max_expanded_bytes) (copied, ok tt) tt
              (λ d. IsCopied source d.0) (λ within e. whole read within)))
  where
    copied : Text
    copied = take (max_expanded_bytes + 1) source.bytes

    fit :
        length source.bytes ≤ max_expanded_bytes
        → ltb max_expanded_bytes (length source.bytes) ≡ false
    fit h = ground (arith, h)

    ended : (b : Bool) → (not b && true) ≡ false → b ≡ true
    ended true h = refl
    ended false h = cc

    whole :
        (not source.ends && not (ltb max_expanded_bytes (length source.bytes))) ≡ false
        → ltb max_expanded_bytes (length copied) ≡ false
        → IsCopied source copied
    whole read within =
        let fits = ltb→ge max_expanded_bytes (length copied) within in
        let same = take-short (max_expanded_bytes + 1) source.bytes (omega arith) in
        let small : length source.bytes ≤ max_expanded_bytes = rw (← same) fits in
        (same, ended source.ends (rw (fit small) at read), fits)

-- the file that a copy which succeeds leaves
abbrev pub IsCreated : Stream → Option Text → Type 0
IsCreated source staged = (file : Text) × (staged ≡ some file) × IsCopied source file

pub created-IsCreated :
    (creates flushes : Bool) (staged : Option Text) (source : Stream) (dest : Text)
    → (created creates staged (copy_bounded flushes source dest max_expanded_bytes)).1 ≡ ok tt
    → IsCreated source
        (created creates staged (copy_bounded flushes source dest max_expanded_bytes)).0
created-IsCreated false flushes staged source dest h = cc
created-IsCreated true flushes staged source dest h = (
  (copy_bounded flushes source dest max_expanded_bytes).0,
  refl,
  copy_bounded-IsCopied flushes source dest h,
)

-- an entry that is a file of the name, and was extracted
pub record IsExtracted (name : Text) (entries : List (Option Member)) (staged : Option Text)
    : Type 0 where
  pub place : ℕ
  pub member : Member
  pub there : get_elem? entries place ≡ some (some member)
  pub file_entry : member.is_file ≡ true
  pub named : member.path ≡ some (some name)
  pub written : IsCreated member.contents staged

behind :
    (name : Text) (entry : Option Member) (entries : List (Option Member)) (staged : Option Text)
    → IsExtracted name entries staged
    → IsExtracted name (entry ∷ entries) staged
behind name entry entries staged h = record {
  place = suc h.place;
  member = h.member;
  there = h.there;
  file_entry = h.file_entry;
  named = h.named;
  written = h.written;
}

is_match-named :
    (name : Text) (member : Member)
    → is_match name member ≡ some true
    → (member.is_file ≡ true) × (member.path ≡ some (some name))
unfolding is_match
is_match-named name member h = elim (Bool-cases member.is_file) [
  | inr other ↦ absurd (differ (rw (other, is_match) at h))
  | inl is_file ↦ (is_file, path member.path (rw (is_file, is_match) at h))
]
  where
    differ : some false ≡ some true → ⊥
    differ e = cc

    path :
        (o : Option (Option Text))
        → map_option (λ found. is_some_and found (λ text. text_eq text name)) o ≡ some true
        → o ≡ some (some name)
    path none e = cc
    path (some none) e = cc
    path (some (some text)) e =
        ap (λ t. some (some t)) ((text_eq_iff text name).0 (some-injective _ _ e))

pub extract_from-IsExtracted :
    (tools : Tools) (name dest : Text) (staged : Option Text) (entries : List (Option Member))
    → (extract_from tools name dest staged entries).1 ≡ ok tt
    → IsExtracted name entries (extract_from tools name dest staged entries).0
unfolding extract_from
extract_from-IsExtracted tools name dest staged [] h = cc
extract_from-IsExtracted tools name dest staged (none ∷ entries) h = cc
extract_from-IsExtracted tools name dest staged (some member ∷ entries) h =
    matched (is_match name member) _ _ (is_match-named name member)
      (λ named done. record {
        place = 0;
        member = member;
        there = refl;
        file_entry = named.0;
        named = named.1;
        written =
            created-IsCreated tools.creates_staged tools.flushes staged member.contents dest done;
      })
      (λ done.
        behind name (some member) entries _
          (extract_from-IsExtracted tools name dest staged entries done))
      h
  where
    matched :
        (o : Option Bool) (found other : Option Text × Result (Unit {0}))
        → (o ≡ some true → (member.is_file ≡ true) × (member.path ≡ some (some name)))
        → ((member.is_file ≡ true) × (member.path ≡ some (some name))
            → found.1 ≡ ok tt
            → IsExtracted name (some member ∷ entries) found.0)
        → (other.1 ≡ ok tt → IsExtracted name (some member ∷ entries) other.0)
        → (on_match o (staged, err io) found other).1 ≡ ok tt
        → IsExtracted name (some member ∷ entries) (on_match o (staged, err io) found other).0
    matched none found other named f g h = cc
    matched (some true) found other named f g h = f (named refl) h
    matched (some false) found other named f g h = g h
