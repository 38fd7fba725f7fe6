-- ===== src/Geoip/Engine/Answers.antt =====
-- What a lookup answers, against a read of the databases themselves.
use mathlib.Core.Option.{some-injective}
use factbook_rs.Geoip.Engine.Sound.{
  serving, IsCoherent, IsSound, miss_valid, steps-IsSound, opened-IsSound,
}
use factbook_rs.Geoip.Engine.{
  Entry, Swap, idle, stored, published, Inner, opened, cached, current, miss, insert, hit, lookup,
  lookup_many, Action, steps,
}
use factbook_rs.Geoip.Private.{is_private}
use factbook_rs.Geoip.Reading.{Readers, Database, read}
use factbook_rs.Geoip.Record.{GeoIpRecord, private_record}
use factbook_rs.Net.Address.{IpAddr, address_eq, address_eq_iff}
use factbook_rs.Prelude.{
  ℕ, ◌≡◌, refl, sym, ap, ◌∙◌, Bool, true, false, Option, none, some, List, [], ◌∷◌, map, ◌==◌,
  if◌then◌else◌, All, Bool-cases, Option-cases, inl, inr, and_true, ==_iff,
}

cached-All :
    (P : IpAddr × Entry → Type 0) (ip : IpAddr) (entries : List (IpAddr × Entry)) (entry : Entry)
    → All P entries
    → cached ip entries ≡ some entry
    → P (ip, entry)
unfolding cached
cached-All P ip [] entry h e = cc
cached-All P ip ((key, first) ∷ entries) entry h e = elim (Bool-cases (address_eq key ip)) [
  | inl here ↦
      let same : first ≡ entry = some-injective first entry (rw here at e) in
      rw (← same, ← (address_eq_iff key ip).0 here) h.0
  | inr there ↦ cached-All P ip entries entry h.1 (rw there at e)
]

serving-generation :
    (swap : Swap) (readers : Readers) (generation : ℕ)
    → IsCoherent swap readers generation
    → (serving swap readers).generation ≡ generation
serving-generation idle readers generation h = h
serving-generation (stored before) readers generation h = h.0
serving-generation published readers generation h = h

if_current :
    (b : Bool) (entry found : Entry)
    → (if b then some entry else none) ≡ some found
    → (b ≡ true) × (entry ≡ found)
if_current true entry found h = (refl, some-injective entry found h)
if_current false entry found h = cc

current-generation :
    (inner : Inner) (entry : Entry)
    → current inner entry ≡ true
    → entry.generation ≡ inner.generation
unfolding current
current-generation inner entry h =
    (==_iff entry.generation inner.generation).0
      (and_true (entry.generation == inner.generation) _ h).0

pub hit-IsSound :
    (inner : Inner) (ip : IpAddr) (entry : Entry)
    → IsSound inner
    → hit inner ip ≡ some entry
    → entry.answer ≡ read (serving inner.swap inner.readers) ip inner.collect_extra_fields
unfolding hit
hit-IsSound inner ip entry h e = elim (Option-cases (cached ip inner.cache)) [
  | inl absent ↦ absurd (differ (rw (absent, hit) at e))
  | inr (found, there) ↦
      let (young, same) = if_current (current inner found) found entry (rw (there, hit) at e) in
      rw (← same) (
        (cached-All _ ip inner.cache found h.cache_entries there).0 (
          current-generation inner found young
          ∙ sym (serving-generation inner.swap inner.readers inner.generation h.coherent)))
]
  where
    differ : none ≡ some entry → ⊥
    differ e = cc

-- However lookups, the clock, the cache and swaps interleave, a lookup that the cache answers has
-- the answer that the databases give it which serve at that moment, private addresses apart.
pub hit-reads :
    (city asn : Option Database) (max_age : Option ℕ) (collects : Bool) (now : ℕ)
    (actions : List Action) (ip : IpAddr) (entry : Entry)
    → (let inner = steps actions (opened city asn max_age collects now) in
        hit inner ip ≡ some entry
        → entry.answer ≡ read (serving inner.swap inner.readers) ip inner.collect_extra_fields)
hit-reads city asn max_age collects now actions ip entry =
    hit-IsSound (steps actions (opened city asn max_age collects now)) ip entry
      (steps-IsSound actions _ (opened-IsSound city asn max_age collects now))

-- the answer of the databases, without a cache
abbrev pub answer_of : Readers → Bool → IpAddr → Option GeoIpRecord
answer_of readers collects ip =
    if is_private ip then some private_record else read readers ip collects

miss-answer :
    (inner : Inner) (ip : IpAddr)
    → (miss inner ip).answer ≡ read inner.readers ip inner.collect_extra_fields
unfolding miss
miss-answer inner ip = refl

-- what a lookup leaves: the same handle with a sound cache
record Looked (inner after : Inner) : Type 0 where
  sound : IsSound after
  same_swap : after.swap ≡ inner.swap
  same_readers : after.readers ≡ inner.readers
  same_collects : after.collect_extra_fields ≡ inner.collect_extra_fields

lookup-Looked :
    (inner : Inner) (ip : IpAddr)
    → IsSound inner
    → inner.swap ≡ idle
    → Looked inner (lookup inner ip).0
      × ((lookup inner ip).1 ≡ answer_of inner.readers inner.collect_extra_fields ip)
unfolding lookup insert
lookup-Looked inner ip h quiet = elim (Bool-cases (is_private ip)) [
  | inl private_ ↦ rw (private_, lookup) (stays, refl)
  | inr public_ ↦ elim (Option-cases (hit inner ip)) [
    | inr (entry, found) ↦
        rw (public_, found, lookup)
          (
            stays,
            hit-IsSound inner ip entry h found
                ∙ ap (λ s. read (serving s inner.readers) ip inner.collect_extra_fields) quiet,
          )
    | inl absent ↦
        rw (public_, absent, lookup)
          (
            record {
              sound = record {
                coherent = h.coherent;
                cache_entries = (miss_valid inner ip h, h.cache_entries);
                pending_entries = h.pending_entries;
              };
              same_swap = refl;
              same_readers = refl;
              same_collects = refl;
            },
            miss-answer inner ip,
          )
  ]
]
  where
    stays : Looked inner inner
    stays = record { sound = h; same_swap = refl; same_readers = refl; same_collects = refl }

lookup_many-IsSound :
    (ips : List IpAddr) (inner : Inner)
    → IsSound inner
    → inner.swap ≡ idle
    → (lookup_many inner ips).1 ≡ map (answer_of inner.readers inner.collect_extra_fields) ips
unfolding lookup_many
lookup_many-IsSound [] inner h quiet = refl
lookup_many-IsSound (ip ∷ ips) inner h quiet =
    let (looked, answer) = lookup-Looked inner ip h quiet in
    rw
      (
        answer,
        lookup_many-IsSound ips (lookup inner ip).0 looked.sound (looked.same_swap ∙ quiet),
        looked.same_readers,
        looked.same_collects,
      )
      refl

-- Whatever the threads did before, while no swap is under way a batch of lookups answers each
-- address as the databases that are in place do, or with the private record: the cache changes no
-- answer.
pub lookup_many-answer_of :
    (city asn : Option Database) (max_age : Option ℕ) (collects : Bool) (now : ℕ)
    (actions : List Action) (ips : List IpAddr)
    → (let inner = steps actions (opened city asn max_age collects now) in
        inner.swap ≡ idle
        → (lookup_many inner ips).1 ≡ map (answer_of inner.readers inner.collect_extra_fields) ips)
lookup_many-answer_of city asn max_age collects now actions ips =
    lookup_many-IsSound ips (steps actions (opened city asn max_age collects now))
      (steps-IsSound actions _ (opened-IsSound city asn max_age collects now))
