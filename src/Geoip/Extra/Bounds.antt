-- ===== src/Geoip/Extra/Bounds.antt =====
-- However a record is crafted, the fields kept of it stay within both bounds.
use factbook_rs.Geoip.Extra.{
  most_fields, most_bytes, Node, leaf, object, array, faulty, Entries, end, torn, entry, Elements,
  stop, cut, element, value_of, Kept, nothing_kept, payload, keep, child, walk, visit_map,
  visit_seq, typed, untyped, collect,
}
use factbook_rs.Geoip.Record.{ExtraValue, GeoIpRecord}
use factbook_rs.Prelude.Int.{decimal}
use factbook_rs.Prelude.Text.{Text}
use factbook_rs.Prelude.{
  ℕ, suc, ◌+◌, ◌≤◌, ◌<◌, ◌≡◌, refl, sym, ap, ◌∙◌, Bool, true, false, not, Option, none, some, List,
  [], ◌∷◌, ◌++◌, append-nil, arith, ltb, if◌then◌else◌, length, length-concat, filter,
  length-filter-le, Bool-cases, inl, inr, ltb→ge, leb→gt,
}
use factbook_rs.Table.Query.{then_option}

-- what some fields cost
abbrev pub cost : List (Text × ExtraValue) → ℕ
cost [] = 0
cost (f ∷ fs) = length f.0 + payload f.1 + cost fs

pub cost-append : (fs gs : List (Text × ExtraValue)) → cost (fs ++ gs) ≡ cost fs + cost gs
cost-append [] gs = omega arith
cost-append (f ∷ fs) gs = omega (arith, cost-append fs gs)

pub record IsKept (k : Kept) : Type 0 where
  pub charged : k.bytes ≡ cost k.fields
  pub light : k.bytes ≤ most_bytes
  pub few : length k.fields ≤ most_fields
  pub room : (k.full ≡ false) → length k.fields < most_fields

keep-IsKept :
    (k : Kept) (path : Text) (value : ExtraValue)
    → k.full ≡ false
    → IsKept k
    → IsKept (keep k path value)
unfolding keep
keep-IsKept k path value open_ h =
    elim (Bool-cases (ltb most_bytes (k.bytes + (length path + payload value)))) [
      | inl over ↦
          rw over (record { charged = h.charged; light = h.light; few = h.few; room = λ e. cc })
      | inr fits ↦ rw fits (record {
        charged =
            ap (λ n. n + (length path + payload value)) h.charged
            ∙ omega (arith, cost-append k.fields ((path, value) ∷ []));
        light = ltb→ge most_bytes (k.bytes + (length path + payload value)) fits;
        few = (let room = h.room open_ in omega (arith, length-concat k.fields (path, value)));
        room = λ e.
            (let below = leb→gt most_fields (length k.fields + 1) e in
              omega (arith, length-concat k.fields (path, value)));
      })
    ]

abbrev Keeps : Option Kept → Type 0
Keeps none = Unit
Keeps (some k) = IsKept k

Keeps-then :
    (o : Option Kept) (f : Kept → Option Kept)
    → Keeps o
    → ((k : Kept) → IsKept k → Keeps (f k))
    → Keeps (then_option o f)
Keeps-then none f h g = tt
Keeps-then (some k) f h g = g k h

-- a test that ends the walk once a bound is reached
Keeps-if :
    (b : Bool) (x y : Option Kept) → Keeps x → ((b ≡ false) → Keeps y) → Keeps (if b then x else y)
Keeps-if true x y h g = h
Keeps-if false x y h g = g refl

mutual
  unfolding walk

  walk-Keeps :
      (k : Kept) (path : Text) (node : Node) → k.full ≡ false → IsKept k → Keeps (walk k path node)
  walk-Keeps k path (leaf l) o h = keep-IsKept k path (value_of l) o h
  walk-Keeps k path (object entries) o h = visit_map-Keeps k path entries h
  walk-Keeps k path (array elements) o h = visit_seq-Keeps k path 0 elements h
  walk-Keeps k path faulty o h = tt

  visit_map-Keeps :
      (k : Kept) (path : Text) (entries : Entries) → IsKept k → Keeps (visit_map k path entries)
  visit_map-Keeps k path end h = h
  visit_map-Keeps k path torn h = Keeps-if k.full (some k) none h (λ e. tt)
  visit_map-Keeps k path (entry key node entries) h = Keeps-if k.full (some k) _ h (λ o.
      Keeps-then (walk k (child path key) node) _ (walk-Keeps k (child path key) node o h)
        (λ more kept. visit_map-Keeps more path entries kept))

  visit_seq-Keeps :
      (k : Kept) (path : Text) (index : ℕ) (elements : Elements)
      → IsKept k
      → Keeps (visit_seq k path index elements)
  visit_seq-Keeps k path index stop h = h
  visit_seq-Keeps k path index cut h = Keeps-if k.full (some k) none h (λ e. tt)
  visit_seq-Keeps k path index (element node elements) h = Keeps-if k.full (some k) _ h (λ o.
      Keeps-then (walk k (child path (decimal index)) node) _
        (walk-Keeps k (child path (decimal index)) node o h)
        (λ more kept. visit_seq-Keeps more path (suc index) elements kept))

cost-filter :
    (p : Text × ExtraValue → Bool) (fs : List (Text × ExtraValue)) → cost (filter p fs) ≤ cost fs
cost-filter p [] = omega arith
cost-filter p (f ∷ fs) = ground (arith, cost-filter p fs)

-- What `collect` adds to a record.
pub record IsBounded (before after : GeoIpRecord) : Type 0 where
  pub added : List (Text × ExtraValue)
  pub behind : after ≡ record before { extra = before.extra ++ added }
  pub few : length added ≤ most_fields
  pub light : cost added ≤ most_bytes

unchanged : (r : GeoIpRecord) → IsBounded r r
unchanged r = record {
  added = [];
  behind = ap (λ fs. record r { extra = fs }) (sym (append-nil r.extra));
  few = omega arith;
  light = omega arith;
}

nothing_kept-IsKept : IsKept nothing_kept
nothing_kept-IsKept = record {
  charged = refl;
  light = omega arith;
  few = omega arith;
  room = λ e. omega arith;
}

-- Whatever a record in the database holds, collecting its fields changes nothing of the answer but
-- the extra fields, and adds at most 512 of them, which hold at most 64 KiB.
pub collect-IsBounded : (found : Option Node) (r : GeoIpRecord) → IsBounded r (collect found r)
unfolding collect
collect-IsBounded none r = unchanged r
collect-IsBounded (some node) r =
    go (walk nothing_kept [] node) (walk-Keeps nothing_kept [] node refl nothing_kept-IsKept)
  where
    go :
        (o : Option Kept)
        → Keeps o
        → IsBounded r (elim o [
          | none ↦ r
          | some kept ↦ record r { extra = r.extra ++ untyped r kept.fields }
        ])
    go none h = unchanged r
    go (some k) h = record {
      added = untyped r k.fields;
      behind = refl;
      few =
          (let kept = h.few in
            omega (arith, length-filter-le (λ f. not (typed f.0 f.1 r)) k.fields));
      light =
          (let charged = h.charged in
            let fits = h.light in omega (arith, cost-filter (λ f. not (typed f.0 f.1 r)) k.fields));
    }
