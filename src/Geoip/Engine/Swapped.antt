-- ===== src/Geoip/Engine/Swapped.antt =====
-- What a swap leaves behind it.
use factbook_rs.Geoip.Engine.Answers.{hit-IsSound}
use factbook_rs.Geoip.Engine.Sound.{serving, IsSound, steps-IsSound, opened-IsSound}
use factbook_rs.Geoip.Engine.{
  Entry, idle, Inner, opened, hit, Action, wait, begin_miss, insert_miss, evict, clear,
  store_readers, store_generation, clear_swapped, insert_pending, step, steps, swap_readers,
  clear_cache,
}
use factbook_rs.Geoip.Reading.{Readers, Database, read}
use factbook_rs.Net.Address.{IpAddr}
use factbook_rs.Prelude.{
  ℕ, ◌+◌, ◌≡◌, refl, ap, ◌∙◌, Bool, true, false, Option, none, some, List, [], ◌∷◌, get_elem?, all,
  and_true,
}

-- a step that is of no swap
abbrev pub swaps_nothing : Action → Bool
swaps_nothing (store_readers city asn) = false
swaps_nothing store_generation = false
swaps_nothing clear_swapped = false
swaps_nothing (wait n) = true
swaps_nothing (begin_miss ip) = true
swaps_nothing (insert_miss i) = true
swaps_nothing (evict ip) = true
swaps_nothing clear = true

-- a handle with the same readers, which are those that serve
abbrev IsSame : Inner → Inner → Type 0
IsSame inner after =
    (after.readers ≡ inner.readers)
    × (after.swap ≡ inner.swap)
    × (after.collect_extra_fields ≡ inner.collect_extra_fields)

insert_pending-IsSame :
    (inner : Inner) (i : ℕ) (o : Option (IpAddr × Entry)) → IsSame inner (insert_pending inner i o)
insert_pending-IsSame inner i none = (refl, refl, refl)
insert_pending-IsSame inner i (some (ip, e)) = (refl, refl, refl)

step-IsSame :
    (action : Action) (inner : Inner)
    → swaps_nothing action ≡ true
    → IsSame inner (step action inner)
unfolding step clear_cache
step-IsSame (wait n) inner h = (refl, refl, refl)
step-IsSame (begin_miss ip) inner h = (refl, refl, refl)
step-IsSame (insert_miss i) inner h = insert_pending-IsSame inner i (get_elem? inner.pending i)
step-IsSame (evict ip) inner h = (refl, refl, refl)
step-IsSame clear inner h = (refl, refl, refl)
step-IsSame (store_readers city asn) inner h = cc
step-IsSame store_generation inner h = cc
step-IsSame clear_swapped inner h = cc

steps-IsSame :
    (actions : List Action) (inner : Inner)
    → all swaps_nothing actions ≡ true
    → IsSame inner (steps actions inner)
unfolding steps
steps-IsSame [] inner h = (refl, refl, refl)
steps-IsSame (action ∷ actions) inner h =
    let both = and_true (swaps_nothing action) (all swaps_nothing actions) h in
    let first = step-IsSame action inner both.0 in
    let others = steps-IsSame actions (step action inner) both.1 in
    (others.0 ∙ first.0, others.1 ∙ first.1, others.2 ∙ first.2)

-- the steps of a swap, on a handle without one
swap_readers-steps :
    (city asn : Option Database) (inner : Inner)
    → swap_readers city asn inner
      ≡ steps (store_readers city asn ∷ store_generation ∷ clear_swapped ∷ []) inner
unfolding swap_readers steps
swap_readers-steps city asn inner = refl

swap_readers-serves :
    (city asn : Option Database) (inner : Inner)
    → inner.swap ≡ idle
    → (let after = swap_readers city asn inner in
        (serving after.swap after.readers
          ≡ record { city = city; asn = asn; generation = inner.generation + 1 })
        × (after.swap ≡ idle)
        × (after.collect_extra_fields ≡ inner.collect_extra_fields))
unfolding swap_readers step
swap_readers-serves city asn inner quiet = rw (quiet, swap_readers) (refl, refl, refl)

-- Once a swap has returned, and until the next one begins, no lookup that the cache answers has an
-- answer of the databases that were replaced, even if it was read from them and inserted behind the
-- swap: each is the answer that the databases put in place give.
pub hit-swap_readers :
    (city asn city' asn' : Option Database) (max_age : Option ℕ) (collects : Bool) (now : ℕ)
    (before later : List Action) (ip : IpAddr) (entry : Entry)
    → (let inner = steps before (opened city asn max_age collects now) in
        inner.swap ≡ idle
        → all swaps_nothing later ≡ true
        → hit (steps later (swap_readers city' asn' inner)) ip ≡ some entry
        → entry.answer
          ≡ read
              (record { city = city'; asn = asn'; generation = inner.generation + 1 })
              ip
              inner.collect_extra_fields)
hit-swap_readers city asn city' asn' max_age collects now before later ip entry quiet calm found =
    let inner = steps before (opened city asn max_age collects now) in
    let sound : IsSound (swap_readers city' asn' inner) = rw (swap_readers-steps city' asn' inner) (
      steps-IsSound _ inner
        (steps-IsSound before _ (opened-IsSound city asn max_age collects now))) in
    let next : Readers = record { city = city'; asn = asn'; generation = inner.generation + 1 } in
    let serves = swap_readers-serves city' asn' inner quiet in
    let same = steps-IsSame later (swap_readers city' asn' inner) calm in
    hit-IsSound (steps later (swap_readers city' asn' inner)) ip entry (steps-IsSound later _ sound)
      found
    ∙ ap (λ r. read r ip (steps later (swap_readers city' asn' inner)).collect_extra_fields)
        (ap (λ s. serving s (steps later (swap_readers city' asn' inner)).readers) same.1
          ∙ ap (λ r. serving (swap_readers city' asn' inner).swap r) same.0
          ∙ serves.0)
    ∙ ap (λ c. read next ip c) (same.2 ∙ serves.2)
