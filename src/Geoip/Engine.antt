-- ===== src/Geoip/Engine.antt =====
-- src/geoip/enricher.rs: the cache in front of the databases, the lookups that several threads make
-- of it, and the swap that puts other databases in place. What the threads do is a sequence of
-- steps; the cache, which drops an entry whenever it likes, is an association list.
pub mod Sound
pub mod Answers
pub mod Swapped
use factbook_rs.Geoip.Private.{is_private}
use factbook_rs.Geoip.Reading.{Readers, Database, read}
use factbook_rs.Geoip.Record.{GeoIpRecord, private_record}
use factbook_rs.Net.Address.{IpAddr, address_eq}
use factbook_rs.Prelude.{
  ℕ, zero, suc, ◌+◌, ◌-◌, Bool, true, false, not, ◌&&◌, Option, none, some, List, [], ◌∷◌, ◌++◌,
  filter, leb, ◌==◌, get_elem?, if◌then◌else◌,
}

pub record Entry : Type 0 where
  pub loaded : ℕ
  pub generation : ℕ
  pub answer : Option GeoIpRecord

-- How far a swap is: none is under way; the readers are stored, and those before them are named; or
-- their generation is stored too.
pub data Swap : Type 0 where
  idle : Swap
  stored : Readers → Swap
  published : Swap

-- `pending` holds the misses that were read and are not inserted yet.
pub record Inner : Type 0 where
  pub readers : Readers
  pub generation : ℕ
  pub cache : List (IpAddr × Entry)
  pub max_age : Option ℕ
  pub collect_extra_fields : Bool
  pub now : ℕ
  pub swap : Swap
  pub pending : List (IpAddr × Entry)

-- `GeoIp::open`, on the databases that it opened
unfoldable pub opened : Option Database → Option Database → Option ℕ → Bool → ℕ → Inner
opened city asn max_age collects now = record {
  readers = record { city = city; asn = asn; generation = 0 };
  generation = 0;
  cache = [];
  max_age = max_age;
  collect_extra_fields = collects;
  now = now;
  swap = idle;
  pending = [];
}

unfoldable pub cached : IpAddr → List (IpAddr × Entry) → Option Entry
cached ip [] = none
cached ip ((key, entry) ∷ entries) = if address_eq key ip then some entry else cached ip entries

abbrev is_young : Option ℕ → ℕ → Bool
is_young none age = true
is_young (some max_age) age = leb age max_age

unfoldable pub current : Inner → Entry → Bool
current inner entry =
    entry.generation == inner.generation && is_young inner.max_age (inner.now - entry.loaded)

-- the entry that a miss reads
unfoldable pub miss : Inner → IpAddr → Entry
unfolding read
miss inner ip = record {
  loaded = inner.now;
  generation = inner.readers.generation;
  answer = read inner.readers ip inner.collect_extra_fields;
}

unfoldable pub insert : Inner → IpAddr → Entry → Inner
insert inner ip entry = record inner { cache = (ip, entry) ∷ inner.cache }

-- A cached entry that is current answers; anything else is a miss.
unfoldable pub hit : Inner → IpAddr → Option Entry
unfolding cached current
hit inner ip = elim (cached ip inner.cache) [
  | none ↦ none
  | some entry ↦ if current inner entry then some entry else none
]

-- `lookup`, by a thread that nothing interrupts
unfoldable pub lookup : Inner → IpAddr → Inner × Option GeoIpRecord
unfolding hit miss insert private_record
lookup inner ip = if is_private ip then (inner, some private_record) else elim (hit inner ip) [
  | some entry ↦ (inner, entry.answer)
  | none ↦ (insert inner ip (miss inner ip), (miss inner ip).answer)
]

unfoldable pub lookup_many : Inner → List IpAddr → Inner × List (Option GeoIpRecord)
unfolding lookup
lookup_many inner [] = (inner, [])
lookup_many inner (ip ∷ ips) =
    let first = lookup inner ip in let rest = lookup_many first.0 ips in (rest.0, first.1 ∷ rest.1)

unfoldable pub clear_cache : Inner → Inner
clear_cache inner = record inner { cache = [] }

-- What a thread does next: the clock advances; a lookup misses and reads; a miss inserts its entry;
-- the cache drops the entry of an address; it is cleared; a swap stores its readers, stores their
-- generation, or clears the cache.
pub data Action : Type 0 where
  wait : ℕ → Action
  begin_miss : IpAddr → Action
  insert_miss : ℕ → Action
  evict : IpAddr → Action
  clear : Action
  store_readers : Option Database → Option Database → Action
  store_generation : Action
  clear_swapped : Action

-- the list without the element at an index
abbrev pub without_index {ℓ} : {A : Type ℓ} → List A → ℕ → List A
without_index [] i = []
without_index (x ∷ xs) zero = xs
without_index (x ∷ xs) (suc i) = x ∷ without_index xs i

abbrev pub insert_pending : Inner → ℕ → Option (IpAddr × Entry) → Inner
insert_pending inner i none = inner
insert_pending inner i (some (ip, entry)) = record inner {
  cache = (ip, entry) ∷ inner.cache;
  pending = without_index inner.pending i;
}

-- The steps of `swap_readers`, which runs under the lock of the sources.
abbrev pub store_in : Inner → Option Database → Option Database → Swap → Inner
store_in inner city asn idle = record inner {
  readers = record { city = city; asn = asn; generation = inner.generation + 1 };
  swap = stored inner.readers;
}
store_in inner city asn (stored before) = inner
store_in inner city asn published = inner

abbrev pub publish_in : Inner → Swap → Inner
publish_in inner idle = inner
publish_in inner published = inner
publish_in inner (stored before) = record inner {
  generation = inner.readers.generation;
  swap = published;
}

abbrev pub clear_in : Inner → Swap → Inner
clear_in inner idle = inner
clear_in inner (stored before) = inner
clear_in inner published = record inner { cache = []; swap = idle }

unfoldable pub step : Action → Inner → Inner
unfolding miss clear_cache
step (wait n) inner = record inner { now = inner.now + n }
step (begin_miss ip) inner = record inner { pending = inner.pending ++ (ip, miss inner ip) ∷ [] }
step (insert_miss i) inner = insert_pending inner i (get_elem? inner.pending i)
step (evict ip) inner = record inner { cache = filter (λ e. not (address_eq e.0 ip)) inner.cache }
step clear inner = clear_cache inner
step (store_readers city asn) inner = store_in inner city asn inner.swap
step store_generation inner = publish_in inner inner.swap
step clear_swapped inner = clear_in inner inner.swap

-- some steps, one after the other
unfoldable pub steps : List Action → Inner → Inner
unfolding step
steps [] inner = inner
steps (action ∷ actions) inner = steps actions (step action inner)

-- `swap_readers`, uninterrupted
unfoldable pub swap_readers : Option Database → Option Database → Inner → Inner
unfolding step
swap_readers city asn inner =
    step clear_swapped (step store_generation (step (store_readers city asn) inner))
