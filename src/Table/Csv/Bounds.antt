-- ===== src/Table/Csv/Bounds.antt =====
-- What holds of the reader after every byte: the ceiling, the two length limits, UTF-8, and what
-- has been charged.
use factbook_rs.Prelude.{
  ℕ, ◌+◌, ◌≤◌, ◌≡◌, true, false, List, [], ◌∷◌, ◌++◌, All, All-append, arith, length, length-concat,
  min, u64_max, saturating_add,
}
use factbook_rs.Prelude.Text.{Text, is_utf8}
use factbook_rs.Table.Csv.Document.{cells_cost}
use factbook_rs.Table.Csv.{
  quote, row_overhead, max_field, max_fields, Record, State, field_start, unquoted, quoted,
  quote_in_quoted, Csv, new, push, begin, end_field, end_record, newline, carriage, byte_in, byte,
  feed,
}
use factbook_rs.Table.Error.{Result, ok, err, ◌>>=◌}

abbrev pub IsText : Text → Type 0
IsText t = (length t ≤ max_field) × (is_utf8 t ≡ true)

abbrev pub IsRecord : Record → Type 0
IsRecord r = (1 ≤ length r.fields) × (length r.fields ≤ max_fields) × All IsText r.fields

abbrev pub records_cost : List Record → ℕ
records_cost [] = 0
records_cost (r ∷ rs) = row_overhead + cells_cost r.fields + records_cost rs

cells_cost-concat :
    (ts : List Text) (t : Text) → cells_cost (ts ++ t ∷ []) ≡ cells_cost ts + cells_cost (t ∷ [])
cells_cost-concat [] t = omega arith
cells_cost-concat (x ∷ ts) t = omega (arith, cells_cost-concat ts t)

records_cost-concat :
    (rs : List Record) (r : Record)
    → records_cost (rs ++ r ∷ []) ≡ records_cost rs + records_cost (r ∷ [])
records_cost-concat [] r = omega arith
records_cost-concat (x ∷ rs) r = omega (arith, records_cost-concat rs r)

-- The invariant of a read under `ceiling`.
module _ (ceiling : ℕ) where
  pub record Inv (c : Csv) : Type 0 where
    pub limit : c.ceiling ≡ ceiling
    pub word : ceiling ≤ u64_max
    pub within : c.held ≤ c.ceiling
    pub short : length c.field ≤ max_field
    pub narrow : length c.fields ≤ max_fields
    pub fields_fit : All IsText c.fields
    pub records_fit : All IsRecord c.records
    pub charged : c.held ≡ min u64_max (records_cost c.records)
    pub charging : c.record_cost ≡ min u64_max (cells_cost c.fields)

  abbrev pub Keeps : Result Csv → Type 0
  Keeps (ok c) = Inv c
  Keeps (err e) = Unit

  pub new-Inv : ceiling ≤ u64_max → Inv (new ceiling)
  unfolding new
  new-Inv h = ground arith

  begin-Inv : (c : Csv) → Inv c → Inv (begin c)
  unfolding begin
  begin-Inv c i = ground arith

  push-Inv : (c : Csv) (b : ℕ) → Inv c → Keeps (push c b)
  unfolding push
  push-Inv c b i = ground (arith, length-concat c.field b)

  -- `end_record` behind its `end_field`
  abbrev completes : Csv → Csv
  completes closed = record closed {
    fields = [];
    record_cost = 0;
    held = saturating_add closed.held (saturating_add closed.record_cost row_overhead);
    records = closed.records ++ (record { line = closed.record_line; fields = closed.fields }) ∷ [];
    started = false;
  }

  -- What holds when a field is closed: the invariant, and room for the record that it may end.
  abbrev Closes : Result Csv → Type 0
  Closes (ok c) =
      Inv c
      × (1 ≤ length c.fields)
      × (saturating_add c.held (saturating_add c.record_cost row_overhead) ≤ c.ceiling)
  Closes (err e) = Unit

  end_field-Closes : (c : Csv) → Inv c → Closes (end_field c)
  unfolding end_field
  end_field-Closes c i = ground (
    arith,
    length-concat c.fields c.field,
    cells_cost-concat c.fields c.field,
    All-append IsText c.fields (c.field ∷ []) i.fields_fit,
  )

  Closes-Keeps : (r : Result Csv) → Closes r → Keeps r
  Closes-Keeps (ok c) h = h.0
  Closes-Keeps (err e) h = tt

  end_field-Inv : (c : Csv) → Inv c → Keeps (end_field c)
  end_field-Inv c i = Closes-Keeps (end_field c) (end_field-Closes c i)

  -- the record that is completed
  abbrev completed : Csv → Record
  completed c = record { line = c.record_line; fields = c.fields }

  pub end_record-Inv : (c : Csv) → Inv c → Keeps (end_record c)
  unfolding end_record
  end_record-Inv c i = complete (end_field c) (end_field-Closes c i)
    where
      complete : (r : Result Csv) → Closes r → Keeps (r >>= λ closed. ok (completes closed))
      complete (err e) h = tt
      complete (ok d) (j, some_field, room) = record {
        limit = j.limit;
        word = j.word;
        within = room;
        short = j.short;
        narrow = omega arith;
        fields_fit = tt;
        records_fit =
            All-append IsRecord d.records (completed d ∷ []) j.records_fit
              ((some_field, j.narrow, j.fields_fit), tt);
        charged = omega (arith, records_cost-concat d.records (completed d));
        charging = omega arith;
      }

  newline-Inv : (c : Csv) → Inv c → Keeps (newline c)
  unfolding newline
  newline-Inv c i = ground (arith, end_record-Inv (record c { line = c.line + 1 }))

  carriage-Inv : (c : Csv) → Inv c → Keeps (carriage c)
  unfolding carriage
  carriage-Inv c i = newline-Inv (record c { after_cr = true }) (ground arith)

  Keeps-state :
      (r : Result Csv) (s : State) → Keeps r → Keeps (r >>= λ c. ok (record c { state = s }))
  Keeps-state (ok c) s h = ground arith
  Keeps-state (err e) s h = tt

  Inv-state : (c : Csv) (s : State) → Inv c → Inv (record c { state = s })
  Inv-state c s i = ground arith

  byte_in-Inv : (s : State) (c : Csv) (b : ℕ) → Inv c → Keeps (byte_in s c b)
  unfolding byte_in
  byte_in-Inv field_start c b i =
      let j = begin-Inv c i in
      ground (
        arith,
        Inv-state (begin c) quoted j,
        end_field-Inv (begin c) j,
        newline-Inv c i,
        carriage-Inv c i,
        Keeps-state (push (begin c) b) unquoted (push-Inv (begin c) b j),
      )
  byte_in-Inv unquoted c b i =
      ground (arith, end_field-Inv c i, newline-Inv c i, carriage-Inv c i, push-Inv c b i)
  byte_in-Inv quoted c b i = ground (
    arith,
    Inv-state c quote_in_quoted i,
    push-Inv (record c { line = c.line + 1 }) b,
    push-Inv c b i,
  )
  byte_in-Inv quote_in_quoted c b i = ground (
    arith,
    Keeps-state (push c quote) quoted (push-Inv c quote i),
    end_field-Inv c i,
    newline-Inv c i,
    carriage-Inv c i,
  )

  byte-Inv : (c : Csv) (b : ℕ) → Inv c → Keeps (byte c b)
  unfolding byte
  byte-Inv c b i =
      let j : Inv (record c { after_cr = false }) = ground arith in
      ground
        (arith, byte_in-Inv c.state c b i, byte_in-Inv c.state (record c { after_cr = false }) b j)

  pub Keeps-bind :
      (r : Result Csv) (f : Csv → Result Csv)
      → Keeps r
      → ((c : Csv) → Inv c → Keeps (f c))
      → Keeps (r >>= f)
  Keeps-bind (ok c) f h k = k c h
  Keeps-bind (err e) f h k = tt

  pub feed-Inv : (bs : Text) (c : Csv) → Inv c → Keeps (feed c bs)
  unfolding feed
  feed-Inv [] c i = i
  feed-Inv (b ∷ bs) c i = Keeps-bind (byte c b) _ (byte-Inv c b i) (feed-Inv bs)

-- What a finished read hands over.
pub record Finished (ceiling : ℕ) (rs : List Record) (held : ℕ) : Type 0 where
  pub records_fit : All IsRecord rs
  pub within : held ≤ ceiling
  pub charged : held ≡ min u64_max (records_cost rs)
