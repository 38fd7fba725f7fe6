-- ===== src/Table/Csv/Rows.antt =====
-- The reader over the fields of one record, up to what ends it.
use factbook_rs.Prelude.{
  ℕ, ◌+◌, ◌≤◌, ◌≡◌, refl, ◌∙◌, ap, Bool, true, false, List, [], ◌∷◌, ◌++◌, All, append_assoc, arith,
  length, length-concat, u64_max,
}
use native.Mathlib.Nat.{add-zero}
use factbook_rs.Prelude.Text.{Text, is_utf8}
use factbook_rs.Table.Csv.Document.{
  Style, bare, quoted, Written, write_field, write_more, IsField, StyleFits, cells_cost, texts,
  occurrences, feeds,
}
use factbook_rs.Table.Csv.Fields.{mid, HasRoom, Taken, feed-write_field}
use factbook_rs.Table.Csv.{
  delimiter, line_feed, cell_overhead, row_overhead, max_field, max_fields, State, field_start,
  is_quoted, Csv, begin, end_field, end_record, byte_in, byte, feed,
}
use factbook_rs.Table.Error.{Result, ok}

-- The reader behind a delimiter.
abbrev closed : Csv → Text → ℕ → Csv
closed c t l =
    mid
      (record c {
        fields = c.fields ++ t ∷ [];
        record_cost = c.record_cost + (length t + cell_overhead);
      })
      [] field_start l

-- Room for the fields `ts` of the open record.
pub record RowRoom (c : Csv) (ts : List Text) : Type 0 where
  pub budget : c.held + (c.record_cost + (row_overhead + cells_cost ts)) ≤ c.ceiling
  pub word : c.ceiling ≤ u64_max
  pub narrow : length c.fields + length ts ≤ max_fields

end_field-mid :
    (c : Csv) (t : Text) (s : State) (l : ℕ) (ts : List Text) (cr : Bool)
    → RowRoom c (t ∷ ts)
    → is_utf8 t ≡ true
    → end_field (record (mid c t s l) { after_cr = cr })
      ≡ ok (record (closed c t l) { after_cr = cr })
unfolding end_field
end_field-mid c t s l ts cr r u = ground arith

byte-delimiter :
    (c : Csv) (t : Text) (s : State) (l : ℕ)
    → is_quoted s ≡ false
    → byte (mid c t s l) delimiter ≡ end_field (mid c t s l)
unfolding byte byte_in begin
byte-delimiter c t field_start l h = refl
byte-delimiter c t State.quoted l h = cc
byte-delimiter c t _ l h = refl

-- The record that the reader completes with the fields `ts`, now at line `l`.
abbrev pub row_done : Csv → List Text → ℕ → Bool → Csv
row_done c ts l cr = record c {
  records = c.records ++ (record { line = c.record_line; fields = c.fields ++ ts }) ∷ [];
  fields = [];
  field = [];
  state = field_start;
  line = l;
  started = false;
  after_cr = cr;
  held = c.held + (c.record_cost + (row_overhead + cells_cost ts));
  record_cost = 0;
}

end_record-mid :
    (c : Csv) (t : Text) (s : State) (l : ℕ) (cr : Bool)
    → RowRoom c (t ∷ [])
    → is_utf8 t ≡ true
    → end_record (record (mid c t s l) { after_cr = cr }) ≡ ok (row_done c (t ∷ []) l cr)
unfolding end_record
end_record-mid c t s l cr r u = rw (end_field-mid c t s l [] cr r u) (ground arith)

-- A record read up to its last field, which ending it completes.
pub record Row (c : Csv) (ts : List Text) (l : ℕ) (rest : Text) (from : Result Csv) : Type 0 where
  pub base : Csv
  pub text : Text
  pub last : State
  pub open_state : is_quoted last ≡ false
  pub takes : from ≡ feed (mid base text last l) rest
  pub ends :
      (m : ℕ) (cr : Bool)
      → end_record (record (mid base text last m) { after_cr = cr }) ≡ ok (row_done c ts m cr)

row_done-closed :
    (c : Csv) (t : Text) (ts : List Text) (l m : ℕ) (cr : Bool)
    → row_done (closed c t l) ts m cr ≡ row_done c (t ∷ ts) m cr
row_done-closed c t ts l m cr = ground (arith, append_assoc c.fields (t ∷ []) ts)

RowRoom-closed :
    (c : Csv) (t : Text) (ts : List Text) (l : ℕ) → RowRoom c (t ∷ ts) → RowRoom (closed c t l) ts
RowRoom-closed c t ts l r = omega (arith, length-concat c.fields t)

begin-closed : (c : Csv) (t : Text) (l : ℕ) → begin (closed c t l) ≡ closed c t l
unfolding begin
begin-closed c t l = refl

-- A field behind a delimiter, the empty bare one too.
feed-later_field :
    (c : Csv) (t : Text) (l : ℕ) (w : Written) (rest : Text)
    → IsField w
    → HasRoom (closed c t l) [] (length w.text)
    → Taken (closed c t l) w.text rest (write_field w.style w.text rest)
unfolding feed
feed-later_field c t l w rest f r = later w.style w.text f.0 r
  where
    later :
        (style : Style) (text : Text)
        → StyleFits style text
        → HasRoom (closed c t l) [] (length text)
        → Taken (closed c t l) text rest (write_field style text rest)
    later bare [] f r = record {
      last = field_start;
      open_state = refl;
      takes = rw (begin-closed c t l, add-zero);
    }
    later bare (b ∷ bs) f r =
        feed-write_field (closed c t l) bare (b ∷ bs) rest
          (record { no_field = refl; start = refl }) (rw (begin-closed c t l) r) f (λ _. cc)
    later quoted text f r =
        feed-write_field (closed c t l) quoted text rest (record { no_field = refl; start = refl })
          (rw (begin-closed c t l) r) f (λ e. cc)

HasRoom-closed :
    (c : Csv) (t : Text) (l : ℕ) (w : Text) (ts : List Text)
    → RowRoom c (t ∷ w ∷ ts)
    → length w ≤ max_field
    → HasRoom (closed c t l) [] (length w)
HasRoom-closed c t l w ts r h = omega arith

RowRoom-short : (c : Csv) (t : Text) (ts : List Text) → RowRoom c (t ∷ ts) → RowRoom c (t ∷ [])
RowRoom-short c t ts r = omega arith

-- A delimiter and the field behind it, in front of what is read of the record after them.
Row-closed :
    (c : Csv) (t : Text) (s : State) (l : ℕ) (w : Written) (ws : List Written) (rest : Text)
    → is_quoted s ≡ false
    → RowRoom c (t ∷ texts (w ∷ ws))
    → is_utf8 t ≡ true
    → (taken : Taken
        (closed c t l)
        w.text
        (write_more ws rest)
        (write_field w.style w.text (write_more ws rest)))
    → Row (closed c t l) (texts (w ∷ ws)) (l + occurrences line_feed w.text + feeds ws) rest (
        feed
          (mid (closed c t l) w.text taken.last (l + occurrences line_feed w.text))
          (write_more ws rest))
    → Row c
        (t ∷ texts (w ∷ ws))
        (l + feeds (w ∷ ws))
        rest
        (feed (mid c t s l) (write_more (w ∷ ws) rest))
unfolding feed
Row-closed c t s l w ws rest o r u taken tail = record {
  base = tail.base;
  text = tail.text;
  last = tail.last;
  open_state = tail.open_state;
  takes =
      rw (byte-delimiter c t s l o, end_field-mid c t s l _ false r u)
        (taken.takes
          ∙ rw (begin-closed c t l) (
              tail.takes
              ∙ ap (λ n. feed (mid tail.base tail.text tail.last n) rest) (omega arith)));
  ends = λ m cr. tail.ends m cr ∙ ap ok (row_done-closed c t (texts (w ∷ ws)) l m cr);
}

-- The fields behind the first.
pub feed-more :
    (ws : List Written) (c : Csv) (t : Text) (s : State) (l : ℕ) (rest : Text)
    → is_quoted s ≡ false
    → RowRoom c (t ∷ texts ws)
    → is_utf8 t ≡ true
    → All IsField ws
    → Row c (t ∷ texts ws) (l + feeds ws) rest (feed (mid c t s l) (write_more ws rest))
feed-more [] c t s l rest o r u fs = record {
  base = c;
  text = t;
  last = s;
  open_state = o;
  takes = rw add-zero;
  ends = λ m cr. end_record-mid c t s m cr r u;
}
feed-more (w ∷ ws) c t s l rest o r u (f, fs) =
    let taken : Taken (closed c t l) w.text (write_more ws rest)
        (write_field w.style w.text (write_more ws rest)) =
      feed-later_field c t l w (write_more ws rest) f
        (HasRoom-closed c t l w.text (texts ws) r f.2) in
    Row-closed c t s l w ws rest o r u taken (
      feed-more ws (closed c t l) w.text taken.last (l + occurrences line_feed w.text) rest
        taken.open_state (RowRoom-closed c t (texts (w ∷ ws)) l r) f.1 fs)
