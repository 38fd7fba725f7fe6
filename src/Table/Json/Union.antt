-- ===== src/Table/Json/Union.antt =====
-- Widening as the objects arrive gives the table that reading all of their keys first would give.
use mathlib.Core.Path.{subst}
use factbook_rs.Prelude.Text.{Text, text_eq, text_eq_iff}
use factbook_rs.Prelude.{
  ℕ, zero, suc, ◌-◌, ◌≡◌, ◌⊎◌, refl, sym, ap, ◌∙◌, Bool, true, false, ◌||◌, Option, none, some,
  List, [], ◌∷◌, ◌++◌, map, append-nil, append_assoc, leb, ltb, length, any, saturating_add,
  Bool-cases, Option-cases, inl, inr,
}
use factbook_rs.Table.Cell.{Cell, Parsed, footprint}
use factbook_rs.Table.Config.{auto}
use factbook_rs.Table.Csv.{max_fields}
use factbook_rs.Table.Error.{ok, err, empty, no_names, >>=-eq-ok, ok-injective}
use factbook_rs.Table.Json.Columns.{Ascending, insertion-Inserts, insertion-none, text_eq-sym}
use factbook_rs.Table.ReadCsv.{refuse_none}
use factbook_rs.Table.Json.{
  insertion, insert_at, Grid, add_key, add_keys, Seen, value, outgrown, faulty, JsonValue, member,
  cell_of_value, keys_of, project, add_object, visit, visit_seq, read_json,
}

or_true : (b : Bool) → (b || true) ≡ true
or_true true = refl
or_true false = refl

or_false : (a b : Bool) → (a || b) ≡ false → (a ≡ false) × (b ≡ false)
or_false false b h = (refl, h)
or_false true b h = cc

or_nil : (a b : Bool) → (a || b) ≡ ((a || false) || b)
or_nil true b = refl
or_nil false b = refl

or_swap : (a b c : Bool) → (a || ((b || false) || c)) ≡ ((b || a) || c)
or_swap true true c = refl
or_swap true false c = refl
or_swap false true c = refl
or_swap false false c = refl

or_move : (a b c : Bool) → (a || (b || c)) ≡ (b || (a || c))
or_move true true c = refl
or_move true false c = refl
or_move false b c = refl

any-concat {ℓ} :
    {A : Type ℓ} (p : A → Bool) (xs : List A) (x : A) → any p (xs ++ x ∷ []) ≡ (p x || any p xs)
any-concat p [] x = refl
any-concat p (y ∷ xs) x = rw (any-concat p xs x) (or_move (p y) (p x) (any p xs))

map-concat {ℓ κ} :
    {A : Type ℓ} {B : Type κ} (f : A → B) (xs : List A) (x : A)
    → map f (xs ++ x ∷ []) ≡ map f xs ++ f x ∷ []
map-concat f [] x = refl
map-concat f (y ∷ xs) x = ap (◌∷◌ (f y)) (map-concat f xs x)

Seen-cases :
    {Value : Type 0} (s : Seen Value)
    → (s ≡ outgrown) ⊎ (((d : Text) × (s ≡ faulty d)) ⊎ ((v : Value) × (s ≡ value v)))
Seen-cases outgrown = inl refl
Seen-cases (faulty d) = inr (inl (d, refl))
Seen-cases (value v) = inr (inr (v, refl))

module _ {Value : Type 0} (json : JsonValue Value) where
  abbrev Object : Type 0
  Object = List (Text × Value)

  abbrev has : Text → Object → Bool
  has k object = any (text_eq k) (keys_of json object)

  member-absent : (k : Text) (o : Object) → has k o ≡ false → member json k o ≡ none
  unfolding member
  member-absent k [] h = refl
  member-absent k ((name, v) ∷ o) h =
      let (differ, rest) = or_false (text_eq k name) (has k o) h in
      rw (text_eq-sym name k, differ) (member-absent k o rest)

  project-insert_at :
      (key : Text) (o : Object) (at : ℕ) (cs : List Text)
      → has key o ≡ false
      → project json (insert_at at key cs) o ≡ insert_at at none (project json cs o)
  unfolding insert_at cell_of_value
  project-insert_at key o zero cs h = rw (member-absent key o h)
  project-insert_at key o (suc at) [] h = rw (member-absent key o h)
  project-insert_at key o (suc at) (c ∷ cs) h =
      ap (◌∷◌ (cell_of_value json (member json c o))) (project-insert_at key o at cs h)

  map-widen :
      (key : Text) (at : ℕ) (cs : List Text) (objects : List Object)
      → any (has key) objects ≡ false
      → map (insert_at at none) (map (project json cs) objects)
        ≡ map (project json (insert_at at key cs)) objects
  map-widen key at cs [] h = refl
  map-widen key at cs (o ∷ objects) h =
      let (here, rest) = or_false (has key o) (any (has key) objects) h in
      rw (project-insert_at key o at cs here, map-widen key at cs objects rest)

  -- The rows are the objects, cut to the columns, and the columns hold all their keys.
  record Fits (objects : List Object) (g : Grid) : Type 0 where
    sorted : Ascending g.columns
    covers : (k : Text) → any (text_eq k) g.columns ≡ false → any (has k) objects ≡ false
    rows : g.rows ≡ map (project json g.columns) objects

  -- `wider` has the columns of `g` and those of `keys`.
  abbrev Adds : List Text → Grid → Grid → Type 0
  Adds keys g wider =
      (k : Text)
      → any (text_eq k) wider.columns ≡ (any (text_eq k) keys || any (text_eq k) g.columns)

  abbrev Widened : List Object → List Text → Grid → Grid → Type 0
  Widened objects keys g wider = Fits objects wider × Adds keys g wider

  same_columns : (key : Text) (g : Grid) → any (text_eq key) g.columns ≡ true → Adds (key ∷ []) g g
  same_columns key g there k = elim (Bool-cases (text_eq k key)) [
    | inr differ ↦ rw differ
    | inl same ↦
        rw same
          (subst (λ j. any (text_eq j) g.columns ≡ true) (sym ((text_eq_iff k key).0 same)) there)
  ]

  add_key-Fits :
      (objects : List Object) (g : Grid) (key : Text) {wider : Grid}
      → Fits objects g
      → add_key g key ≡ ok wider
      → Widened objects (key ∷ []) g wider
  unfolding add_key
  add_key-Fits objects g key f e = elim (Option-cases (insertion key g.columns)) [
    | inl there ↦
        subst (Widened objects (key ∷ []) g) (ok-injective (rw (there, add_key) at e))
          (f, same_columns key g (insertion-none key g.columns there))
    | inr (at, absent) ↦ elim (Bool-cases (leb max_fields (length g.columns))) [
      | inl full ↦ absurd (cc (rw (absent, add_key, full) at e))
      | inr room ↦
          let i = insertion-Inserts key g.columns at f.sorted absent in
          let made = ok-injective (rw (absent, add_key, room) at e) in
          subst (Widened objects (key ∷ []) g) made (
            record {
              sorted = i.sorted;
              covers = λ k h.
                  f.covers k
                    (or_false (text_eq k key) (any (text_eq k) g.columns) (sym (i.names k) ∙ h)).1;
              rows =
                  ap (map (insert_at at none)) f.rows
                  ∙ map-widen key at g.columns objects (f.covers key i.new_key);
            },
            λ k. i.names k ∙ or_nil (text_eq k key) (any (text_eq k) g.columns),
          )
    ]
  ]

  add_keys-Widened :
      (objects : List Object) (keys : List Text) (g : Grid) {wider : Grid}
      → Fits objects g
      → add_keys g keys ≡ ok wider
      → Widened objects keys g wider
  unfolding add_keys
  add_keys-Widened objects [] g f e = subst (Widened objects [] g) (ok-injective e) (f, λ k. refl)
  add_keys-Widened objects (key ∷ keys) g f e =
      let (first, added, rest) = >>=-eq-ok (add_key g key) _ e in
      let (fits, here) = add_key-Fits objects g key f added in
      let (all_fit, later) = add_keys-Widened objects keys first fits rest in
      (
        all_fit,
        λ k.
            later k
            ∙ ap (λ b. any (text_eq k) keys || b) (here k)
            ∙ or_swap (any (text_eq k) keys) (text_eq k key) (any (text_eq k) g.columns),
      )

  -- The columns are the objects' keys, sorted, and the rows are the objects cut to the columns.
  pub record IsUnion (objects : List Object) (columns : List Text) (rows : List (List Cell))
      : Type 0 where
    pub sorted : Ascending columns
    pub names : (k : Text) → any (text_eq k) columns ≡ any (has k) objects
    pub cut : rows ≡ map (project json columns) objects

  abbrev Holds : List Object → Grid → Type 0
  Holds objects g = IsUnion objects g.columns g.rows

  add_object-Holds :
      (ceiling : ℕ) (objects : List Object) (g : Grid) (o : Object) {grown : Grid}
      → Holds objects g
      → add_object json false ceiling g o ≡ ok grown
      → Holds (objects ++ o ∷ []) grown
  unfolding add_object
  add_object-Holds ceiling objects g o h e =
      let (wider, added, rest) = >>=-eq-ok (add_keys g (keys_of json o)) _ e in
      let (fits, adds) =
        add_keys-Widened objects (keys_of json o) g
          (record {
            sorted = h.sorted;
            covers = λ k none_has. sym (h.names k) ∙ none_has;
            rows = h.cut;
          })
          added in
      let row = project json wider.columns o in
      elim (Bool-cases (ltb ceiling (saturating_add wider.held (footprint row)))) [
        | inl over ↦ absurd (cc (rw over at rest))
        | inr fine ↦ subst (Holds (objects ++ o ∷ [])) (ok-injective (rw fine at rest)) (record {
          sorted = fits.sorted;
          names =
              λ k. adds k ∙ ap (λ b. has k o || b) (h.names k) ∙ sym (any-concat (has k) objects o);
          cut =
              ap (λ rows. rows ++ row ∷ []) fits.rows
              ∙ sym (map-concat (project json wider.columns) objects o);
        })
      ]

  -- The elements parse, in whatever room they are given, to these objects.
  abbrev pub Reads : List (ℕ → Seen Value) → List Object → Type 0
  Reads [] [] = Unit
  Reads (element ∷ elements) (o ∷ objects) =
      ((room : ℕ) × (v : Value) × (element room ≡ value v) × (json.members v ≡ some o))
      × Reads elements objects
  Reads _ _ = ⊥

  visit-Holds :
      (ceiling : ℕ) (elements : List (ℕ → Seen Value)) (objects : List Object) (g : Grid)
      {last : Grid}
      → Holds objects g
      → visit json false ceiling g elements ≡ ok last
      → (later : List Object) × Reads elements later × Holds (objects ++ later) last
  unfolding visit
  visit-Holds ceiling [] objects g {last = last} h e = (
    [],
    tt,
    subst (λ os. Holds os last) (sym (append-nil objects))
        (subst (Holds objects) (ok-injective e) h),
  )
  visit-Holds ceiling (element ∷ elements) objects g {last = last} h e =
      elim (Seen-cases (element (ceiling - g.held))) [
        | inl over ↦ absurd (cc (rw (over, visit) at e))
        | inr (inl (d, fault)) ↦ absurd (cc (rw (fault, visit) at e))
        | inr (inr (v, parsed)) ↦ elim (Option-cases (json.members v)) [
          | inl other ↦ absurd (cc (rw (parsed, visit, other) at e))
          | inr (o, object) ↦
              let (grown, added, rest) =
                >>=-eq-ok (add_object json false ceiling g o) _ (rw (parsed, visit, object) at e) in
              let (later, reads, holds) =
                visit-Holds ceiling elements (objects ++ o ∷ []) grown
                  (add_object-Holds ceiling objects g o h added) rest in
              (
                o ∷ later,
                ((ceiling - g.held, v, parsed, object), reads),
                subst (λ os. Holds os last) (append_assoc objects (o ∷ []) later) holds,
              )
        ]
      ]

  -- A JSON document that names its columns nowhere is read, when the read succeeds, as the table
  -- of its objects: the columns are the keys of all of them, sorted and each once, and each
  -- object is a row with its value under every column, and no value where it lacks the key, however
  -- late a key turns up.
  pub read_json-IsUnion :
      (fault : Option Text) (elements : List (ℕ → Seen Value)) (trailing : Option Text)
      (ceiling : ℕ) {p : Parsed}
      → read_json json fault elements trailing auto ceiling ≡ ok p
      → (objects : List Object) × Reads elements objects × IsUnion objects p.columns p.rows
  unfolding read_json visit_seq
  read_json-IsUnion (some d) elements trailing ceiling e = absurd (cc e)
  read_json-IsUnion none elements (some d) ceiling e =
      let (parsed, read, rest) = >>=-eq-ok (visit_seq json auto ceiling elements) _ e in
      absurd (cc rest)
  read_json-IsUnion none elements none ceiling e =
      let start : Grid = record { columns = []; rows = []; held = 0 } in
      let (g, visited, e₁) = >>=-eq-ok (visit json false ceiling start elements) _ e in
      let (u, some_rows, e₂) = >>=-eq-ok (refuse_none g.rows (err empty)) _ e₁ in
      let (v, some_columns, e₃) = >>=-eq-ok (refuse_none g.columns (err no_names)) _ e₂ in
      let (later, reads, holds) =
        visit-Holds ceiling elements [] start
          (record { sorted = tt; names = λ k. refl; cut = refl }) visited in
      (later, reads, subst (λ p. IsUnion later p.columns p.rows) (ok-injective e₃) holds)
