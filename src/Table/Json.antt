-- ===== src/Table/Json.antt =====
-- src/table/parse.rs: a JSON array of objects read into columns and rows. The tokens are
-- serde_json's: `JsonValue` is what the reader asks of a parsed value, and an element of the array
-- is what becomes of parsing it with so many bytes of the document left to take.
pub mod Columns
pub mod Union
use factbook_rs.Prelude.Text.{Text, text_eq}
use factbook_rs.Prelude.{
  ℕ, zero, suc, ◌+◌, ◌-◌, Bool, true, false, ◌&&◌, ◌||◌, Option, none, some, List, [], ◌∷◌, ◌++◌,
  map, leb, ltb, ◌==◌, if◌then◌else◌, length, saturating_add, any,
}
use factbook_rs.Table.Cell.{Cell, Parsed, cell_of_text, footprint, widened}
use factbook_rs.Table.Config.{Schema, auto, named}
use factbook_rs.Table.Csv.{max_fields}
use factbook_rs.Table.Error.{
  not_an_array_of_objects, not_an_object, too_many_keys, other, no_names, empty,
  over_resident_ceiling, Result, ok, err, ◌>>=◌, ◌>>◌,
}
use factbook_rs.Table.Index.{shifted}
use factbook_rs.Table.ReadCsv.{refuse_none}

-- The cases of a value that a cell tells apart; `compact` is any other value's compact JSON.
pub data Scalar : Type 0 where
  null : Scalar
  string : Text → Scalar
  compact : Text → Scalar

-- A value as `cell_of_value` sees it, and its members if it is an object.
pub record JsonValue (Value : Type 0) : Type 0 where
  pub scalar : Value → Scalar
  pub members : Value → Option (List (Text × Value))

-- the order of `str`
unfoldable pub text_lt : Text → Text → Bool
text_lt [] [] = false
text_lt [] (y ∷ ys) = true
text_lt (x ∷ xs) [] = false
text_lt (x ∷ xs) (y ∷ ys) = ltb x y || (x == y && text_lt xs ys)

-- `binary_search` of the sorted columns: where an absent key belongs, and `none` for a key that is
-- there
unfoldable pub insertion : Text → List Text → Option ℕ
insertion key [] = some 0
insertion key (c ∷ cs) =
    if text_lt c key then shifted (insertion key cs) else if text_eq c key then none else some 0

-- `Vec::insert`, at a position that is not past the end
unfoldable pub insert_at {ℓ} : {A : Type ℓ} → ℕ → A → List A → List A
insert_at zero x xs = x ∷ xs
insert_at (suc at) x [] = x ∷ []
insert_at (suc at) x (y ∷ ys) = y ∷ insert_at at x ys

-- what the loop over the elements has read
pub record Grid : Type 0 where
  pub columns : List Text
  pub rows : List (List Cell)
  pub held : ℕ

unfoldable pub cell_of_scalar : Scalar → Cell
cell_of_scalar null = none
cell_of_scalar (string text) = cell_of_text text
cell_of_scalar (compact text) = some text

-- one key of an object: a column that is new widens the rows already read
unfoldable pub add_key : Grid → Text → Result Grid
add_key g key = elim (insertion key g.columns) [
  | none ↦ ok g
  | some at ↦
      if leb max_fields (length g.columns)
      then err (not_an_array_of_objects too_many_keys)
      else ok (record {
        columns = insert_at at key g.columns;
        rows = map (insert_at at none) g.rows;
        held = saturating_add g.held (widened (length g.rows));
      })
]

unfoldable pub add_keys : Grid → List Text → Result Grid
add_keys g [] = ok g
add_keys g (key ∷ keys) = add_key g key >>= λ wider. add_keys wider keys

-- What becomes of parsing one element.
pub data Seen (Value : Type 0) : Type 0 where
  outgrown : Seen Value
  faulty : Text → Seen Value
  value : Value → Seen Value

module _ {Value : Type 0} (json : JsonValue Value) where
  open json use {scalar, members}

  -- `object.get(column)`
  unfoldable pub member : Text → List (Text × Value) → Option Value
  member key [] = none
  member key ((name, v) ∷ more) = if text_eq name key then some v else member key more

  unfoldable pub cell_of_value : Option Value → Cell
  unfolding cell_of_scalar
  cell_of_value none = none
  cell_of_value (some v) = cell_of_scalar (scalar v)

  abbrev pub keys_of : List (Text × Value) → List Text
  keys_of object = map (λ m. m.0) object

  abbrev pub project : List Text → List (Text × Value) → List Cell
  project columns object = map (λ column. cell_of_value (member column object)) columns

  -- the part of the loop behind the parse of an element
  unfoldable pub add_object : Bool → ℕ → Grid → List (Text × Value) → Result Grid
  unfolding footprint
  add_object stated ceiling g object =
      (if stated then ok g else add_keys g (keys_of object)) >>= λ wider.
      let row = project wider.columns object in
      let held = saturating_add wider.held (footprint row) in
      if ltb ceiling held
      then err (over_resident_ceiling ceiling)
      else ok (record wider { rows = wider.rows ++ row ∷ []; held = held })

  -- the loop of `visit_seq`
  unfoldable pub visit : Bool → ℕ → Grid → List (ℕ → Seen Value) → Result Grid
  visit stated ceiling g [] = ok g
  visit stated ceiling g (element ∷ elements) = elim (element (ceiling - g.held)) [
    | outgrown ↦ err (over_resident_ceiling ceiling)
    | faulty detail ↦ err (not_an_array_of_objects (other detail))
    | value v ↦ elim (members v) [
      | none ↦ err (not_an_array_of_objects (not_an_object (length g.rows)))
      | some object ↦
          add_object stated ceiling g object >>= λ grown. visit stated ceiling grown elements
    ]
  ]

  abbrev pub is_stated : Schema → Bool
  is_stated auto = false
  is_stated (named names) = true

  abbrev pub stated_names : Schema → List Text
  stated_names auto = []
  stated_names (named names) = names

  unfoldable pub visit_seq : Schema → ℕ → List (ℕ → Seen Value) → Result Parsed
  visit_seq schema ceiling elements = do
    g ←
        visit (is_stated schema) ceiling
          (record { columns = stated_names schema; rows = []; held = 0 }) elements
    refuse_none g.rows (err empty)
    refuse_none g.columns (err no_names)
    ok (record { columns = g.columns; rows = g.rows; held = g.held })

  -- A document is its elements, or why it is not an array, and what stands behind the array.
  unfoldable pub read_json :
      Option Text → List (ℕ → Seen Value) → Option Text → Schema → ℕ → Result Parsed
  read_json (some detail) elements trailing schema ceiling =
      err (not_an_array_of_objects (other detail))
  read_json none elements (some detail) schema ceiling =
      visit_seq schema ceiling elements >>= λ parsed. err (not_an_array_of_objects (other detail))
  read_json none elements none schema ceiling = visit_seq schema ceiling elements
