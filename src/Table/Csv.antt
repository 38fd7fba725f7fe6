-- ===== src/Table/Csv.antt =====
-- src/table/parse.rs, `Csv`: the reader as a state machine, one byte at a time.
-- A `usize` is a `u64` here (the 64-bit targets), so `size_of::<Cell>()` is 16; sums of lengths
-- that memory holds do not wrap.
pub mod Document
pub mod Fields
pub mod Rows
pub mod Bounds
pub mod Lines
use factbook_rs.Prelude.{
  ℕ, suc, ◌+◌, ◌*◌, Bool, true, false, not, ◌&&◌, ◌||◌, List, [], ◌∷◌, ◌++◌, leb, ltb, ◌==◌,
  if◌then◌else◌, length, saturating_add,
}
use factbook_rs.Prelude.Text.{Text, is_utf8}
use factbook_rs.Table.Error.{
  TableError, malformed, over_resident_ceiling, field_too_long, not_utf8, too_many_fields,
  text_after_quote, never_closed, Result, ok, err, ◌>>=◌, ◌>>◌,
}

abbrev pub quote : ℕ
quote = b'"'

abbrev pub delimiter : ℕ
delimiter = b','

abbrev pub line_feed : ℕ
line_feed = b'\n'

abbrev pub carriage_return : ℕ
carriage_return = b'\r'

abbrev pub cell_overhead : ℕ
cell_overhead = 16

abbrev pub row_overhead : ℕ
row_overhead = 32

abbrev pub max_field : ℕ
max_field = 8 * 1024 * 1024

abbrev pub max_fields : ℕ
max_fields = 4096

-- one record, and the line it started on
abbrev pub Record : Type 0
Record = record { line : ℕ; fields : List Text }

pub data State : Type 0 where
  field_start unquoted quoted quote_in_quoted : State

pub record Csv : Type 0 where
  pub records : List Record
  pub fields : List Text
  pub field : Text
  pub state : State
  pub line : ℕ
  pub record_line : ℕ
  pub started : Bool
  pub after_cr : Bool
  pub held : ℕ
  pub record_cost : ℕ
  pub ceiling : ℕ

unfoldable pub new : ℕ → Csv
new ceiling = record {
  records = [];
  fields = [];
  field = [];
  state = field_start;
  line = 1;
  record_line = 1;
  started = false;
  after_cr = false;
  held = 0;
  record_cost = 0;
  ceiling = ceiling;
}

unfoldable pub charge : Csv → ℕ → Result (Unit {0})
charge c open_bytes =
    let row = saturating_add c.record_cost (row_overhead + open_bytes) in
    if ltb c.ceiling (saturating_add c.held row)
    then err (over_resident_ceiling c.ceiling)
    else ok tt

unfoldable pub push : Csv → ℕ → Result Csv
unfolding charge
push c byte =
    if leb max_field (length c.field) then err (malformed c.record_line field_too_long) else do
      charge c (length c.field + 1 + cell_overhead)
      ok (record c { field = c.field ++ byte ∷ [] })

unfoldable pub begin : Csv → Csv
begin c = if not c.started then record c { started = true; record_line = c.line } else c

unfoldable pub end_field : Csv → Result Csv
unfolding charge
end_field c =
    if leb max_fields (length c.fields)
    then err (malformed c.record_line too_many_fields)
    else if not (is_utf8 c.field)
    then err (malformed c.record_line not_utf8)
    else let closed : Csv = record c {
      field = [];
      record_cost = saturating_add c.record_cost (length c.field + cell_overhead);
      fields = c.fields ++ c.field ∷ [];
      state = field_start;
    } in
      do charge closed 0; ok closed

unfoldable pub end_record : Csv → Result Csv
end_record c = do
  closed ← end_field c
  ok (record closed {
    fields = [];
    record_cost = 0;
    held = saturating_add closed.held (saturating_add closed.record_cost row_overhead);
    records = closed.records ++ (record { line = closed.record_line; fields = closed.fields }) ∷ [];
    started = false;
  })

unfoldable pub newline : Csv → Result Csv
newline c =
    let next : Csv = record c { line = c.line + 1 } in
    if not next.started then ok next else end_record next

-- the arms that end a record, which three of the states share
unfoldable pub carriage : Csv → Result Csv
carriage c = newline (record c { after_cr = true })

unfoldable pub byte_in : State → Csv → ℕ → Result Csv
byte_in field_start c b =
    if b == quote
    then ok (record (begin c) { state = quoted })
    else if b == delimiter
    then end_field (begin c)
    else if b == line_feed
    then newline c
    else if b == carriage_return
    then carriage c
    else do pushed ← push (begin c) b; ok (record pushed { state = unquoted })
byte_in unquoted c b =
    if b == delimiter
    then end_field c
    else if b == line_feed
    then newline c
    else if b == carriage_return
    then carriage c
    else push c b
byte_in quoted c b =
    if b == quote
    then ok (record c { state = quote_in_quoted })
    else if b == line_feed
    then push (record c { line = c.line + 1 }) b
    else push c b
byte_in quote_in_quoted c b =
    if b == quote
    then push c quote >>= (λ pushed. ok (record pushed { state = quoted }))
    else if b == delimiter
    then end_field c
    else if b == line_feed
    then newline c
    else if b == carriage_return
    then carriage c
    else err (malformed c.record_line text_after_quote)

abbrev pub is_quoted : State → Bool
is_quoted quoted = true
is_quoted _ = false

unfoldable pub byte : Csv → ℕ → Result Csv
byte c b =
    if is_quoted c.state
    then byte_in c.state c b
    else if b == line_feed && c.after_cr
    then ok (record c { after_cr = false })
    else byte_in c.state (record c { after_cr = false }) b

unfoldable pub finish : Csv → Result (List Record × ℕ)
finish c =
    if is_quoted c.state
    then err (malformed c.record_line never_closed)
    else do closed ← (if c.started then end_record c else ok c); ok (closed.records, closed.held)

-- the loop over one chunk that the reader hands out
unfoldable pub feed : Csv → Text → Result Csv
feed c [] = ok c
feed c (b ∷ bs) = do next ← byte c b; feed next bs
