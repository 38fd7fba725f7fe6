-- ===== src/Geoip/Engine/Sound.antt =====
-- What the entries of the cache answer, however the threads interleave.
use factbook_rs.Geoip.Engine.{
  Entry, Swap, idle, stored, published, Inner, opened, miss, Action, wait, begin_miss, insert_miss,
  evict, clear, store_readers, store_generation, clear_swapped, without_index, insert_pending,
  store_in, publish_in, clear_in, step, steps,
}
use factbook_rs.Geoip.Reading.{Readers, Database, read}
use factbook_rs.Net.Address.{IpAddr, address_eq}
use factbook_rs.Prelude.{
  ℕ, zero, suc, ◌+◌, ◌≤◌, ◌≡◌, refl, Bool, not, Option, none, some, List, [], ◌∷◌, arith, filter,
  get_elem?, All, All-append, Bool-cases, inl, inr,
}

-- The readers whose generation the handle states: those before a swap until it states the next.
abbrev pub serving : Swap → Readers → Readers
serving idle readers = readers
serving (stored before) readers = before
serving published readers = readers

abbrev pub IsCoherent : Swap → Readers → ℕ → Type 0
IsCoherent idle readers generation = readers.generation ≡ generation
IsCoherent (stored before) readers generation =
    (before.generation ≡ generation) × (readers.generation ≡ generation + 1)
IsCoherent published readers generation = readers.generation ≡ generation

-- an entry that answers as some readers do, if it is of their generation
abbrev pub IsOf : Readers → Bool → IpAddr × Entry → Type 0
IsOf readers collects e =
    e.1.generation ≡ readers.generation → e.1.answer ≡ read readers e.0 collects

abbrev pub IsValid : Swap → Readers → Bool → IpAddr × Entry → Type 0
IsValid swap readers collects e =
    IsOf (serving swap readers) collects e
    × IsOf readers collects e
    × (e.1.generation ≤ readers.generation)

pub record IsSound (inner : Inner) : Type 0 where
  pub coherent : IsCoherent inner.swap inner.readers inner.generation
  pub cache_entries : All (IsValid inner.swap inner.readers inner.collect_extra_fields) inner.cache
  pub pending_entries :
      All (IsValid inner.swap inner.readers inner.collect_extra_fields) inner.pending

All-map {ℓ κ ν} :
    {A : Type ℓ} {P : A → Type κ} {Q : A → Type ν} (f : (x : A) → P x → Q x) (xs : List A)
    → All P xs
    → All Q xs
All-map f [] h = tt
All-map f (x ∷ xs) h = (f x h.0, All-map f xs h.1)

All-filter {ℓ κ} :
    {A : Type ℓ} (P : A → Type κ) (p : A → Bool) (xs : List A) → All P xs → All P (filter p xs)
All-filter P p [] h = tt
All-filter P p (x ∷ xs) h = elim (Bool-cases (p x)) [
  | inl keeps ↦ rw keeps (h.0, All-filter P p xs h.1)
  | inr drops ↦ rw drops (All-filter P p xs h.1)
]

All-without {ℓ κ} :
    {A : Type ℓ} (P : A → Type κ) (xs : List A) (i : ℕ) → All P xs → All P (without_index xs i)
All-without P [] i h = tt
All-without P (x ∷ xs) zero h = h.1
All-without P (x ∷ xs) (suc i) h = (h.0, All-without P xs i h.1)

-- a predicate at the value, if there is one
abbrev IfSome {ℓ κ} : {A : Type ℓ} → (A → Type κ) → Option A → Type κ
IfSome P none = Unit
IfSome P (some x) = P x

All-at {ℓ κ} :
    {A : Type ℓ} (P : A → Type κ) (xs : List A) (i : ℕ) → All P xs → IfSome P (get_elem? xs i)
All-at P [] i h = tt
All-at P (x ∷ xs) zero h = h.0
All-at P (x ∷ xs) (suc i) h = All-at P xs i h.1

-- a read of the readers that are stored
miss-IsValid :
    (swap : Swap) (readers : Readers) (generation loaded : ℕ) (collects : Bool) (ip : IpAddr)
    → IsCoherent swap readers generation
    → IsValid swap readers collects (
      ip,
      record {
        loaded = loaded;
        generation = readers.generation;
        answer = read readers ip collects;
      },
    )
miss-IsValid idle readers generation loaded collects ip c = (λ e. refl, λ e. refl, omega arith)
miss-IsValid published readers generation loaded collects ip c = (λ e. refl, λ e. refl, omega arith)
miss-IsValid (stored before) readers generation loaded collects ip c =
    (λ e. absurd (omega (arith, c.0, c.1, e)), λ e. refl, omega arith)

pub miss_valid :
    (inner : Inner) (ip : IpAddr)
    → IsSound inner
    → IsValid inner.swap inner.readers inner.collect_extra_fields (ip, miss inner ip)
unfolding miss
miss_valid inner ip h =
    miss-IsValid inner.swap inner.readers inner.generation inner.now inner.collect_extra_fields ip
      h.coherent

insert_pending-IsSound :
    (inner : Inner) (i : ℕ) (o : Option (IpAddr × Entry))
    → IfSome (IsValid inner.swap inner.readers inner.collect_extra_fields) o
    → IsSound inner
    → IsSound (insert_pending inner i o)
insert_pending-IsSound inner i none v h = h
insert_pending-IsSound inner i (some (ip, e)) v h = record {
  coherent = h.coherent;
  cache_entries = (v, h.cache_entries);
  pending_entries = All-without _ inner.pending i h.pending_entries;
}

-- entries of readers that are replaced
replaced :
    (before next : Readers) (collects : Bool) (es : List (IpAddr × Entry))
    → next.generation ≡ before.generation + 1
    → All (IsValid idle before collects) es
    → All (IsValid (stored before) next collects) es
replaced before next collects es n =
    All-map
      (λ e v. (
        v.0,
        λ same. absurd (let bound = v.2 in omega (arith, same, n, bound)),
        (let bound = v.2 in omega (arith, n, bound)),
      ))
      es

store_in-IsSound :
    (inner : Inner) (city asn : Option Database) (swap : Swap)
    → inner.swap ≡ swap
    → IsSound inner
    → IsSound (store_in inner city asn swap)
store_in-IsSound inner city asn idle s h =
    let level = rw s at h.coherent in
    let next : Readers = record { city = city; asn = asn; generation = inner.generation + 1 } in
    let grown : inner.generation + 1 ≡ inner.readers.generation + 1 = omega (arith, level) in
    record {
      coherent = (level, refl);
      cache_entries =
          replaced inner.readers next inner.collect_extra_fields inner.cache grown
            (rw s at h.cache_entries);
      pending_entries =
          replaced inner.readers next inner.collect_extra_fields inner.pending grown
            (rw s at h.pending_entries);
    }
store_in-IsSound inner city asn (stored before) s h = h
store_in-IsSound inner city asn published s h = h

publish_in-IsSound :
    (inner : Inner) (swap : Swap)
    → inner.swap ≡ swap
    → IsSound inner
    → IsSound (publish_in inner swap)
publish_in-IsSound inner idle s h = h
publish_in-IsSound inner published s h = h
publish_in-IsSound inner (stored before) s h = record {
  coherent = refl;
  cache_entries = All-map (λ e v. (v.1, v.1, v.2)) inner.cache (rw s at h.cache_entries);
  pending_entries = All-map (λ e v. (v.1, v.1, v.2)) inner.pending (rw s at h.pending_entries);
}

clear_in-IsSound :
    (inner : Inner) (swap : Swap)
    → inner.swap ≡ swap
    → IsSound inner
    → IsSound (clear_in inner swap)
clear_in-IsSound inner idle s h = h
clear_in-IsSound inner (stored before) s h = h
clear_in-IsSound inner published s h =
    let level = rw s at h.coherent in
    record { coherent = level; cache_entries = tt; pending_entries = rw s at h.pending_entries }

step-IsSound : (action : Action) (inner : Inner) → IsSound inner → IsSound (step action inner)
unfolding step
step-IsSound (wait n) inner h = record {
  coherent = h.coherent;
  cache_entries = h.cache_entries;
  pending_entries = h.pending_entries;
}
step-IsSound (begin_miss ip) inner h = record {
  coherent = h.coherent;
  cache_entries = h.cache_entries;
  pending_entries =
      All-append _ inner.pending ((ip, miss inner ip) ∷ []) h.pending_entries
        (miss_valid inner ip h, tt);
}
step-IsSound (insert_miss i) inner h =
    insert_pending-IsSound inner i (get_elem? inner.pending i)
      (All-at _ inner.pending i h.pending_entries) h
step-IsSound (evict ip) inner h = record {
  coherent = h.coherent;
  cache_entries = All-filter _ (λ e. not (address_eq e.0 ip)) inner.cache h.cache_entries;
  pending_entries = h.pending_entries;
}
step-IsSound clear inner h = record {
  coherent = h.coherent;
  cache_entries = tt;
  pending_entries = h.pending_entries;
}
step-IsSound (store_readers city asn) inner h = store_in-IsSound inner city asn inner.swap refl h
step-IsSound store_generation inner h = publish_in-IsSound inner inner.swap refl h
step-IsSound clear_swapped inner h = clear_in-IsSound inner inner.swap refl h

-- Whatever the threads do, in whatever order, the entries of the cache and of the misses under way
-- answer as the readers of their generation do, for the readers that serve and for those that are
-- stored.
pub steps-IsSound :
    (actions : List Action) (inner : Inner) → IsSound inner → IsSound (steps actions inner)
unfolding steps
steps-IsSound [] inner h = h
steps-IsSound (action ∷ actions) inner h =
    steps-IsSound actions (step action inner) (step-IsSound action inner h)

pub opened-IsSound :
    (city asn : Option Database) (max_age : Option ℕ) (collects : Bool) (now : ℕ)
    → IsSound (opened city asn max_age collects now)
unfolding opened
opened-IsSound city asn max_age collects now = record {
  coherent = refl;
  cache_entries = tt;
  pending_entries = tt;
}
