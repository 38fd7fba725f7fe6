-- ===== src/Table/ReadCsv/Shape.antt =====
-- The table that a CSV read hands over, and the record that a refusal names.
use mathlib.Core.Path.{subst}
use factbook_rs.Prelude.{
  ℕ, ◌≤◌, ◌≡◌, ◌≢◌, sym, ◌∙◌, ap, Bool, List, [], ◌∷◌, ◌++◌, map, All, arith, length, length-map,
  ◌==◌, ==_iff, Bool-cases, inl, inr, u64_max,
}
use factbook_rs.Table.Cell.{Cell, Parsed, cell_of_text}
use factbook_rs.Table.Config.{Schema}
use factbook_rs.Table.Csv.{Record, new, finish}
use factbook_rs.Table.Error.{
  malformed, width, no_names, empty, Result, ok, err, ◌>>=◌, >>=-eq-ok, >>=-assoc, ok-injective,
}
use factbook_rs.Table.ReadCsv.Bounds.{finish-feed_chunks-Finished}
use factbook_rs.Table.ReadCsv.{
  Reader, feed_chunks, strip_bom, records, header_columns, rows_of, refuse_none, read_csv,
}

-- The rows are as wide as the columns, there are some of both, and the ceiling was kept.
pub record IsTable (ceiling : ℕ) (p : Parsed) : Type 0 where
  pub named : p.columns ≢ []
  pub filled : p.rows ≢ []
  pub rectangular : All (λ row. length row ≡ length p.columns) p.rows
  pub within : p.held ≤ ceiling

abbrev cells_of : Record → List Cell
cells_of r = map cell_of_text r.fields

-- The rows are the records' cells, and every record has the width asked for.
rows_of-eq-ok :
    (wide : ℕ) (rs : List Record) {rows : List (List Cell)}
    → rows_of wide rs ≡ ok rows
    → (rows ≡ map cells_of rs) × All (λ r. length r.fields ≡ wide) rs
unfolding rows_of
rows_of-eq-ok wide [] e = (sym (ok-injective e), tt)
rows_of-eq-ok wide (r ∷ rs) e = elim (Bool-cases (length r.fields == wide)) [
  | inl fits ↦
      let (rest, read, built) = >>=-eq-ok (rows_of wide rs) _ (rw fits at e) in
      let (same, wides) = rows_of-eq-ok wide rs read in
      (sym (ok-injective built) ∙ ap (◌∷◌ (cells_of r)) same, ((==_iff _ wide).0 fits, wides))
  | inr other ↦ absurd (cc (rw other at e))
]

map-rectangular :
    (wide : ℕ) (rs : List Record)
    → All (λ r. length r.fields ≡ wide) rs
    → All (λ row. length row ≡ wide) (map cells_of rs)
map-rectangular wide [] h = tt
map-rectangular wide (r ∷ rs) h =
    (length-map r.fields cell_of_text ∙ h.0, map-rectangular wide rs h.1)

-- A record of the wrong width is refused under its line, if those in front of it fit.
pub rows_of_wrong :
    (wide : ℕ) (good : List Record) (bad : Record) (rest : List Record)
    → All (λ r. length r.fields ≡ wide) good
    → length bad.fields ≢ wide
    → rows_of wide (good ++ bad ∷ rest) ≡ err (malformed bad.line (width (length bad.fields) wide))
unfolding rows_of
rows_of_wrong wide [] bad rest h ne = ground arith
rows_of_wrong wide (r ∷ good) bad rest h ne =
    rw ((==_iff _ wide).1 h.0, rows_of_wrong wide good bad rest h.1 ne)

refuse_none-ne-nil {ℓ} :
    {A : Type ℓ} (xs : List A) (refusal : Result (Unit {0})) (u : Unit {0})
    → ((v : Unit {0}) → refusal ≢ ok v)
    → refuse_none xs refusal ≡ ok u
    → xs ≢ []
unfolding refuse_none
refuse_none-ne-nil [] refusal u never e = absurd (never u e)
refuse_none-ne-nil (x ∷ xs) refusal u never e = λ h. cc

records-within :
    (reader : Reader) (ceiling : ℕ) {rs : List Record} {held : ℕ}
    → ceiling ≤ u64_max
    → records reader ceiling ≡ ok (rs, held)
    → held ≤ ceiling
unfolding records
records-within reader ceiling {held = held} word e =
    let (p, read, made) =
      >>=-eq-ok (feed_chunks (new ceiling) reader >>= finish) stripped
        (>>=-assoc (feed_chunks (new ceiling) reader) finish stripped ∙ e) in
    subst (λ n. n ≤ ceiling) (ap (λ q. q.1) (ok-injective made))
      (finish-feed_chunks-Finished ceiling reader word read).within
  where
    stripped : List Record × ℕ → Result (List Record × ℕ)
    stripped p = ok (strip_bom p.0, p.1)

-- A CSV read that succeeds hands over a table: named columns, at least one row, every row as wide
-- as the columns, and a charge within the ceiling.
pub read_csv-IsTable :
    (reader : Reader) (header : Bool) (schema : Schema) (ceiling : ℕ) {p : Parsed}
    → ceiling ≤ u64_max
    → read_csv reader header schema ceiling ≡ ok p
    → IsTable ceiling p
unfolding read_csv
read_csv-IsTable reader header schema ceiling word e =
    let ((rs, held), read, e₁) = >>=-eq-ok (records reader ceiling) _ e in
    let ((columns, body), headed, e₂) = >>=-eq-ok (header_columns header schema rs) _ e₁ in
    let (u, some_columns, e₃) = >>=-eq-ok (refuse_none columns (err no_names)) _ e₂ in
    let (rows, filed, e₄) = >>=-eq-ok (rows_of (length columns) body) _ e₃ in
    let (v, some_rows, e₅) = >>=-eq-ok (refuse_none rows (err empty)) _ e₄ in
    let (same, wides) = rows_of-eq-ok (length columns) body filed in
    subst (IsTable ceiling) (ok-injective e₅) (record {
      named = refuse_none-ne-nil columns (err no_names) u (λ w h. cc) some_columns;
      filled = refuse_none-ne-nil rows (err empty) v (λ w h. cc) some_rows;
      rectangular = rw same (map-rectangular (length columns) body wides);
      within = records-within reader ceiling word read;
    })
