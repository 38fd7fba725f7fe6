-- ===== src/Geoip/Opening/Stated.antt =====
-- A handle that opens has every database that was stated.
use mathlib.Core.Option.{some-injective}
use mathlib.Core.Path.{subst}
use factbook_rs.Geoip.Download.Guard.Probe.{DatabaseFormat, mmdb, csv, json}
use factbook_rs.Geoip.Engine.{Inner, idle, opened}
use factbook_rs.Geoip.Engine.Sound.{IsSound, opened-IsSound}
use factbook_rs.Geoip.Opening.{
  Opened, opens, fails, and_opens, CacheConfig, Provisioned, Databases, Opening, or_unopened,
  open_stated, source_of, reader_of, open_handle, if_mmdb, first_file, mmdb_path, from_databases,
}
use factbook_rs.Geoip.Reading.{Database}
use factbook_rs.Geoip.Refresh.{
  DatabaseBacking, resident, mapped, Files, Source, Sources, open_backing, open_source,
}
use factbook_rs.Table.Build.{map_option}
use factbook_rs.Prelude.Text.{Text, codes}
use factbook_rs.Prelude.{
  ℕ, ◌≡◌, refl, sym, ap, true, false, Option, none, some, List, [], ◌∷◌, if◌then◌else◌, ltb, leb,
  Bool-cases, Option-cases, inl, inr, arith,
}

-- what opens at a path: the whole file in memory if its length is known and within the bound, and
-- a mapping of it otherwise
abbrev pub opens_at : Files → ℕ → Text → Option ℕ → Option Database
opens_at files most path none = files.open_mmap path
opens_at files most path (some len) =
    if leb len most then files.open_readfile path else files.open_mmap path

-- what a handle holds of a database: its first file, which is an mmdb database and was opened, with
-- the time that the file system says of it, or nothing if none was acquired
abbrev pub IsHeld : Files → ℕ → Option Provisioned → Option Source → Option Database → Type 0
IsHeld files most none source reader = (source ≡ none) × (reader ≡ none)
IsHeld files most (some database) source reader =
    (path : Text) × (others : List Text) × (held : Database) × (database.files ≡ path ∷ others)
    × (database.format ≡ mmdb)
    × (opens_at files most path (files.file_len path) ≡ some held)
    × (source ≡ some (record { path = path; mtime = files.file_mtime path }))
    × (reader ≡ some held)

backed :
    (backing : DatabaseBacking) (o : Option Database) (r : DatabaseBacking × Database)
    → map_option (λ database. (backing, database)) o ≡ some r
    → o ≡ some r.1
backed backing none r h = cc
backed backing (some database) r h = ap (λ p. some p.1) (some-injective _ r h)

open_backing-opens_at :
    (files : Files) (most : ℕ) (path : Text) (r : DatabaseBacking × Database)
    → open_backing files path most ≡ some r
    → opens_at files most path (files.file_len path) ≡ some r.1
unfolding open_backing
open_backing-opens_at files most path r h = elim (Option-cases (files.file_len path)) [
  | inl unknown ↦ rw unknown (backed mapped _ r (rw unknown at h))
  | inr (len, known) ↦ elim (Bool-cases (leb len most)) [
    | inl small ↦
        let fits : ltb most len ≡ false = ground arith in
        rw (known, small) (backed resident _ r (rw (known, fits) at h))
    | inr large ↦
        let over : ltb most len ≡ true = ground arith in
        rw (known, large) (backed mapped _ r (rw (known, over) at h))
  ]
]

dated :
    (source : Source) (o : Option (DatabaseBacking × Database)) (opening : Opening)
    → map_option (λ backing. (source, backing)) o ≡ some opening
    → (o ≡ some opening.1) × (opening.0 ≡ source)
dated source none opening h = cc
dated source (some backing) opening h =
    let same = some-injective (source, backing) opening h in
    (ap (λ p. some p.1) same, sym (ap (λ p. p.0) same))

open_source-opens_at :
    (files : Files) (most : ℕ) (path : Text) (opening : Opening)
    → open_source files most path ≡ some opening
    → (opens_at files most path (files.file_len path) ≡ some opening.1.1)
      × (opening.0 ≡ record { path = path; mtime = files.file_mtime path })
unfolding open_source
open_source-opens_at files most path opening h =
    let (backing, source) = dated _ (open_backing files path most) opening h in
    (open_backing-opens_at files most path opening.1 backing, source)

-- a chain that opens
and_opens-through {ℓ κ} :
    {A : Type ℓ} {B : Type κ} (first : Opened A) (next : A → Opened B) (b : B)
    → and_opens first next ≡ opens b
    → (a : A) × (first ≡ opens a) × (next a ≡ opens b)
and_opens-through (opens a) next b h = (a, refl, h)
and_opens-through (fails e) next b h = cc

opened_value {ℓ} : {A : Type ℓ} (a b : A) → opens a ≡ opens b → a ≡ b
opened_value a b h = cc

or_unopened-some :
    (path : Text) (o : Option Opening) (r : Option Opening)
    → or_unopened path o ≡ opens r
    → (opening : Opening) × (o ≡ some opening) × (r ≡ some opening)
or_unopened-some path none r h = cc
or_unopened-some path (some opening) r h = (opening, refl, cc)

open_stated-some :
    (files : Files) (most : ℕ) (path : Text) (r : Option Opening)
    → open_stated files most (some path) ≡ opens r
    → (opening : Opening) × (open_source files most path ≡ some opening) × (r ≡ some opening)
unfolding open_stated
open_stated-some files most path r h = or_unopened-some path (open_source files most path) r h

open_stated-none :
    (files : Files) (most : ℕ) (r : Option Opening)
    → open_stated files most none ≡ opens r
    → r ≡ none
unfolding open_stated
open_stated-none files most r h = cc

if_mmdb-opens :
    (format : DatabaseFormat) (path : Text) (r : Option Text)
    → if_mmdb format path ≡ opens r
    → (format ≡ mmdb) × (r ≡ some path)
if_mmdb-opens mmdb path r h = (refl, cc)
if_mmdb-opens csv path r h = cc
if_mmdb-opens json path r h = cc

first_file-opens :
    (kind : Text) (format : DatabaseFormat) (paths : List Text) (r : Option Text)
    → first_file kind format paths ≡ opens r
    → (path : Text) × (others : List Text) × (paths ≡ path ∷ others)
      × (format ≡ mmdb)
      × (r ≡ some path)
first_file-opens kind format [] r h = cc
first_file-opens kind format (path ∷ others) r h =
    let (same, given) = if_mmdb-opens format path r h in (path, others, refl, same, given)

-- a database on its way into a handle
stated-IsHeld :
    (files : Files) (most : ℕ) (database : Option Provisioned) (kind : Text) (path : Option Text)
    (opening : Option Opening)
    → mmdb_path database kind ≡ opens path
    → open_stated files most path ≡ opens opening
    → IsHeld files most database (source_of opening) (reader_of opening)
unfolding mmdb_path
stated-IsHeld files most none kind path opening p o =
    let absent : path ≡ none = cc in
    let nothing = open_stated-none files most opening (rw absent at o) in rw nothing (refl, refl)
stated-IsHeld files most (some database) kind path opening p o =
    let (first, others, listed, format, given) =
      first_file-opens kind database.format database.files path p in
    let (found, opened_, held) = open_stated-some files most first opening (rw given at o) in
    let (at, source) = open_source-opens_at files most first found opened_ in
    rw held (first, others, found.1.1, listed, format, at, ap some source, refl)

-- A handle that opens on what was acquired holds, of the city and of the ASN database each, the
-- first file, which is then an mmdb database and was opened (in memory if its length is known and
-- within the bound, and mapped otherwise), under its path and the time that the file system says of
-- it, or nothing if none was acquired. Its cache is sound, and no swap is under way.
pub from_databases-IsHeld :
    (files : Files) (now : ℕ) (databases : Databases) (cache : CacheConfig) (sources : Sources)
    (inner : Inner)
    → from_databases files now databases cache ≡ opens (sources, inner)
    → IsHeld files cache.resident_max_bytes databases.city sources.city inner.readers.city
      × IsHeld files cache.resident_max_bytes databases.asn sources.asn inner.readers.asn
      × IsSound inner
      × (inner.swap ≡ idle)
unfolding from_databases open_handle opened
from_databases-IsHeld files now databases cache sources inner h =
    let most = cache.resident_max_bytes in
    let (city_path, city_given, h1) =
      and_opens-through (mmdb_path databases.city (codes "city")) _ (sources, inner) h in
    let (asn_path, asn_given, h2) =
      and_opens-through (mmdb_path databases.asn (codes "asn")) _ (sources, inner) h1 in
    let (city, city_opens, h3) =
      and_opens-through (open_stated files most city_path) _ (sources, inner) h2 in
    let (asn, asn_opens, h4) =
      and_opens-through (open_stated files most asn_path) _ (sources, inner) h3 in
    let same = opened_value _ (sources, inner) h4 in
    subst
      (λ p.
        IsHeld files most databases.city p.0.city p.1.readers.city
        × IsHeld files most databases.asn p.0.asn p.1.readers.asn
        × IsSound p.1
        × (p.1.swap ≡ idle))
      same
      (
        stated-IsHeld files most databases.city (codes "city") city_path city city_given city_opens,
        stated-IsHeld files most databases.asn (codes "asn") asn_path asn asn_given asn_opens,
        opened-IsSound (reader_of city) (reader_of asn) cache.max_age cache.collect_extra_fields
            now,
        refl,
      )
