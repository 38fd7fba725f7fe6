-- ===== src/Geoip/Extra/Leaves.antt =====
-- The fields that are collected are the record's leaves, read straight off its tree.
use factbook_rs.Geoip.Extra.Bounds.{cost}
use factbook_rs.Geoip.Extra.{
  most_fields, most_bytes, Node, leaf, object, array, faulty, Entries, end, torn, entry, Elements,
  stop, cut, element, value_of, Kept, nothing_kept, payload, keep, child, walk, visit_map,
  visit_seq, untyped, collect,
}
use factbook_rs.Geoip.Record.{ExtraValue, GeoIpRecord}
use factbook_rs.Prelude.Int.{decimal}
use factbook_rs.Prelude.Text.{Text}
use factbook_rs.Prelude.{
  ℕ, suc, ◌+◌, ◌≤◌, ◌≡◌, refl, sym, ap, ◌∙◌, true, false, Option, some, List, [], ◌∷◌, ◌++◌,
  append-nil, append_assoc, arith, leb, ltb, if◌then◌else◌, length, length-concat, Bool-cases, inl,
  inr, ltb→lt,
}
use factbook_rs.Table.Query.{then_option}

-- A record that the reader decodes to its end.
abbrev mutual
  pub IsSound : Node → Type 0
  IsSound (leaf l) = Unit
  IsSound (object entries) = IsSoundMap entries
  IsSound (array elements) = IsSoundSeq elements
  IsSound faulty = ⊥

  pub IsSoundMap : Entries → Type 0
  IsSoundMap end = Unit
  IsSoundMap torn = ⊥
  IsSoundMap (entry key node entries) = IsSound node × IsSoundMap entries

  pub IsSoundSeq : Elements → Type 0
  IsSoundSeq stop = Unit
  IsSoundSeq cut = ⊥
  IsSoundSeq (element node elements) = IsSound node × IsSoundSeq elements

-- Its leaves with their paths, in source order.
abbrev mutual
  pub leaves : Text → Node → List (Text × ExtraValue)
  leaves path (leaf l) = (path, value_of l) ∷ []
  leaves path (object entries) = leaves_map path entries
  leaves path (array elements) = leaves_seq path 0 elements
  leaves path faulty = []

  pub leaves_map : Text → Entries → List (Text × ExtraValue)
  leaves_map path end = []
  leaves_map path torn = []
  leaves_map path (entry key node entries) = leaves (child path key) node ++ leaves_map path entries

  pub leaves_seq : Text → ℕ → Elements → List (Text × ExtraValue)
  leaves_seq path index stop = []
  leaves_seq path index cut = []
  leaves_seq path index (element node elements) =
      leaves (child path (decimal index)) node ++ leaves_seq path (suc index) elements

-- one leaf after the other, until a bound is reached
keep_all : Kept → List (Text × ExtraValue) → Kept
keep_all k [] = k
keep_all k (f ∷ fs) = if k.full then k else keep_all (keep k f.0 f.1) fs

keep_all_full : (k : Kept) (fs : List (Text × ExtraValue)) → k.full ≡ true → keep_all k fs ≡ k
unfolding keep_all
keep_all_full k [] h = refl
keep_all_full k (f ∷ fs) h = ap (λ b. if b then k else keep_all (keep k f.0 f.1) fs) h

keep_all_open :
    (k : Kept) (f : Text × ExtraValue) (fs : List (Text × ExtraValue))
    → k.full ≡ false
    → keep_all k (f ∷ fs) ≡ keep_all (keep k f.0 f.1) fs
unfolding keep_all
keep_all_open k f fs h = ap (λ b. if b then k else keep_all (keep k f.0 f.1) fs) h

keep_all-append :
    (k : Kept) (fs gs : List (Text × ExtraValue))
    → keep_all k (fs ++ gs) ≡ keep_all (keep_all k fs) gs
unfolding keep_all
keep_all-append k [] gs = refl
keep_all-append k (f ∷ fs) gs = elim (Bool-cases k.full) [
  | inl e ↦
      keep_all_full k (f ∷ (fs ++ gs)) e
      ∙ sym (keep_all_full k gs e)
      ∙ ap (λ j. keep_all j gs) (sym (keep_all_full k (f ∷ fs) e))
  | inr e ↦
      keep_all_open k f (fs ++ gs) e
      ∙ keep_all-append (keep k f.0 f.1) fs gs
      ∙ ap (λ j. keep_all j gs) (sym (keep_all_open k f fs e))
]

-- the walk into one child and on to the others
child-keep_all :
    (k : Kept) (fs gs : List (Text × ExtraValue)) (into : Option Kept) (on : Kept → Option Kept)
    → (k.full ≡ false → into ≡ some (keep_all k fs))
    → ((j : Kept) → on j ≡ some (keep_all j gs))
    → (if k.full then some k else then_option into on) ≡ some (keep_all k (fs ++ gs))
child-keep_all k fs gs into on h g = elim (Bool-cases k.full) [
  | inl e ↦
      ap (λ b. if b then some k else then_option into on) e
      ∙ ap some (sym (keep_all_full k (fs ++ gs) e))
  | inr e ↦
      ap (λ b. if b then some k else then_option into on) e
      ∙ ap (λ o. then_option o on) (h e)
      ∙ g (keep_all k fs)
      ∙ ap some (sym (keep_all-append k fs gs))
]

mutual
  unfolding walk keep_all

  walk-keep_all :
      (k : Kept) (path : Text) (node : Node)
      → IsSound node
      → k.full ≡ false
      → walk k path node ≡ some (keep_all k (leaves path node))
  walk-keep_all k path (leaf l) h o = ap some (sym (keep_all_open k (path, value_of l) [] o))
  walk-keep_all k path (object entries) h o = visit_map-keep_all k path entries h
  walk-keep_all k path (array elements) h o = visit_seq-keep_all k path 0 elements h
  walk-keep_all k path faulty h o = absurd h

  visit_map-keep_all :
      (k : Kept) (path : Text) (entries : Entries)
      → IsSoundMap entries
      → visit_map k path entries ≡ some (keep_all k (leaves_map path entries))
  visit_map-keep_all k path end h = refl
  visit_map-keep_all k path torn h = absurd h
  visit_map-keep_all k path (entry key node entries) h =
      child-keep_all k (leaves (child path key) node) (leaves_map path entries)
        (walk k (child path key) node) (λ more. visit_map more path entries)
        (walk-keep_all k (child path key) node h.0) (λ j. visit_map-keep_all j path entries h.1)

  visit_seq-keep_all :
      (k : Kept) (path : Text) (index : ℕ) (elements : Elements)
      → IsSoundSeq elements
      → visit_seq k path index elements ≡ some (keep_all k (leaves_seq path index elements))
  visit_seq-keep_all k path index stop h = refl
  visit_seq-keep_all k path index cut h = absurd h
  visit_seq-keep_all k path index (element node elements) h =
      child-keep_all k (leaves (child path (decimal index)) node)
        (leaves_seq path (suc index) elements) (walk k (child path (decimal index)) node)
        (λ more. visit_seq more path (suc index) elements)
        (walk-keep_all k (child path (decimal index)) node h.0)
        (λ j. visit_seq-keep_all j path (suc index) elements h.1)

keep_fits :
    (k : Kept) (path : Text) (value : ExtraValue)
    → k.bytes + (length path + payload value) ≤ most_bytes
    → keep k path value ≡ record {
      fields = k.fields ++ (path, value) ∷ [];
      bytes = k.bytes + (length path + payload value);
      full = leb most_fields (length k.fields + 1);
    }
unfolding keep
keep_fits k path value h =
    elim (Bool-cases (ltb most_bytes (k.bytes + (length path + payload value)))) [
      | inl over ↦ absurd (
          let above = ltb→lt most_bytes (k.bytes + (length path + payload value)) over in
          omega (arith, h))
      | inr fits ↦ rw fits refl
    ]

-- Within the bounds every leaf is kept.
keep_all-fits :
    (k : Kept) (fs : List (Text × ExtraValue))
    → k.full ≡ false
    → k.bytes + cost fs ≤ most_bytes
    → length k.fields + length fs ≤ most_fields
    → (keep_all k fs).fields ≡ k.fields ++ fs
unfolding keep_all
keep_all-fits k [] o light few = sym (append-nil k.fields)
keep_all-fits k (f ∷ []) o light few =
    ap (λ j. j.fields) (keep_all_open k f [] o ∙ keep_fits k f.0 f.1 (omega arith))
keep_all-fits k (f ∷ g ∷ fs) o light few =
    ap (λ j. j.fields) (keep_all_open k f (g ∷ fs) o)
    ∙ ap (λ j. (keep_all j (g ∷ fs)).fields) (keep_fits k f.0 f.1 (omega arith))
    ∙ keep_all-fits
        (record {
          fields = k.fields ++ (f.0, f.1) ∷ [];
          bytes = k.bytes + (length f.0 + payload f.1);
          full = leb most_fields (length k.fields + 1);
        })
        (g ∷ fs) (ground arith) (omega arith) (omega (arith, length-concat k.fields (f.0, f.1)))
    ∙ append_assoc k.fields ((f.0, f.1) ∷ []) (g ∷ fs)

-- The extra fields of a record that is sound and within both bounds are its leaves, each with its
-- path and in source order, less those that a typed field of the answer took.
pub collect-untyped :
    (node : Node) (r : GeoIpRecord)
    → IsSound node
    → cost (leaves [] node) ≤ most_bytes
    → length (leaves [] node) ≤ most_fields
    → (collect (some node) r).extra ≡ r.extra ++ untyped r (leaves [] node)
unfolding collect
collect-untyped node r sound light few =
    rw (walk-keep_all nothing_kept [] node sound refl, collect)
      (ap (λ fs. r.extra ++ untyped r fs)
        (keep_all-fits nothing_kept (leaves [] node) refl (omega arith) (omega arith)))
