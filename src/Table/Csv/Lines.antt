-- ===== src/Table/Csv/Lines.antt =====
-- The reader over whole records, lines and documents.
use native.Mathlib.Nat.{zero-add, add-zero, add_assoc}
use factbook_rs.Prelude.{
  ℕ, ◌+◌, ◌≤◌, ◌≡◌, refl, ◌∙◌, Bool, true, false, List, [], ◌∷◌, ◌++◌, All, length-map, append-nil,
  append_assoc, arith, length, u64_max,
}
use factbook_rs.Prelude.Text.{Text}
use factbook_rs.Table.Csv.Document.{
  Style, bare, quoted, Written, write_more, write_row, IsField, NotBlank, cells_cost, texts,
  occurrences, feeds, Ending, lf, cr, crlf, write_ending, Line, blank, row, write_lines, IsLine,
  lines_cost, records_from, line_after,
}
use factbook_rs.Table.Csv.Fields.{mid, HasRoom, AtStart, Taken, feed-write_field}
use factbook_rs.Table.Csv.Rows.{RowRoom, Row, row_done, feed-more}
use factbook_rs.Table.Csv.{
  delimiter, line_feed, carriage_return, row_overhead, max_field, max_fields, Record, State,
  field_start, is_quoted, Csv, begin, newline, carriage, end_record, byte_in, byte, finish, feed,
}
use factbook_rs.Table.Error.{Result, ok, ◌>>=◌}

-- A field that ends in a delimiter and holds nothing is taken at the start of a record too.
byte_first_delimiter :
    (c : Csv) → AtStart c → byte c delimiter ≡ byte (mid (begin c) [] field_start c.line) delimiter
unfolding byte byte_in begin
byte_first_delimiter c h = ground arith

HasRoom-first :
    (c : Csv) (w : Text) (ts : List Text)
    → RowRoom c (w ∷ ts)
    → length w ≤ max_field
    → HasRoom c [] (length w)
HasRoom-first c w ts r h = omega arith

-- A record whose first field is taken.
Row-Taken :
    (c : Csv) (w : Written) (ws : List Written) (rest : Text)
    → RowRoom (begin c) (texts (w ∷ ws))
    → IsField w
    → All IsField ws
    → Taken c w.text (write_more ws rest) (write_row w ws rest)
    → Row (begin c) (texts (w ∷ ws)) (c.line + feeds (w ∷ ws)) rest (feed c (write_row w ws rest))
Row-Taken c w ws rest r f fs taken =
    rw (taken.takes, ← add_assoc)
      (feed-more ws (begin c) w.text taken.last (c.line + occurrences line_feed w.text) rest
        taken.open_state r f.1 fs)

-- A whole record, from the start of a line.
pub feed-write_row :
    (c : Csv) (w : Written) (ws : List Written) (rest : Text)
    → AtStart c
    → RowRoom (begin c) (texts (w ∷ ws))
    → IsField w
    → All IsField ws
    → NotBlank w ws
    → Row (begin c) (texts (w ∷ ws)) (c.line + feeds (w ∷ ws)) rest (feed c (write_row w ws rest))
unfolding feed
feed-write_row c w ws rest h r f fs nb = by_style w.style w.text ws r f fs nb
  where
    by_style :
        (style : Style) (text : Text) (ws : List Written)
        → RowRoom (begin c) (text ∷ texts ws)
        → IsField (record { style = style; text = text })
        → All IsField ws
        → NotBlank (record { style = style; text = text }) ws
        → Row
            (begin c)
            (text ∷ texts ws)
            (c.line + (occurrences line_feed text + feeds ws))
            rest
            (feed c (write_row (record { style = style; text = text }) ws rest))
    by_style bare [] [] r f fs nb = absurd (nb refl refl)
    by_style bare [] (w ∷ ws) r f fs nb =
        rw (byte_first_delimiter c h, zero-add)
          (feed-more (w ∷ ws) (begin c) [] field_start c.line rest refl r f.1 fs)
    by_style bare (b ∷ bs) ws r f fs nb =
        Row-Taken c (record { style = bare; text = b ∷ bs }) ws rest r f fs
          (feed-write_field c bare (b ∷ bs) _ h (HasRoom-first _ _ _ r f.2) f.0 (λ _. cc))
    by_style quoted text ws r f fs nb =
        Row-Taken c (record { style = quoted; text = text }) ws rest r f fs
          (feed-write_field c quoted text _ h (HasRoom-first _ _ _ r f.2) f.0 (λ e. cc))

byte-line_feed :
    (c : Csv) (t : Text) (s : State) (l : ℕ)
    → is_quoted s ≡ false
    → byte (mid c t s l) line_feed ≡ end_record (record (mid c t s (l + 1)) { after_cr = false })
unfolding byte byte_in newline
byte-line_feed c t field_start l h = refl
byte-line_feed c t State.quoted l h = cc
byte-line_feed c t _ l h = refl

byte-carriage_return :
    (c : Csv) (t : Text) (s : State) (l : ℕ)
    → is_quoted s ≡ false
    → byte (mid c t s l) carriage_return
      ≡ end_record (record (mid c t s (l + 1)) { after_cr = true })
unfolding byte byte_in carriage newline
byte-carriage_return c t field_start l h = refl
byte-carriage_return c t State.quoted l h = cc
byte-carriage_return c t _ l h = refl

-- The reader between two records, at line `l`.
abbrev pub between : ℕ → List Record → ℕ → ℕ → ℕ → Bool → Csv
between ceiling rs held l start after = record {
  records = rs;
  fields = [];
  field = [];
  state = field_start;
  line = l;
  record_line = start;
  started = false;
  after_cr = after;
  held = held;
  record_cost = 0;
  ceiling = ceiling;
}

-- whether the reader owes a line feed to the ending that it has read
abbrev owes : Ending → Bool
owes cr = true
owes _ = false

abbrev pub Settled : Ending → Bool → Type 0
Settled cr after = Unit
Settled _ after = after ≡ false

Settled-owes : (e : Ending) → Settled e (owes e)
Settled-owes lf = refl
Settled-owes cr = tt
Settled-owes crlf = refl

pub Settled-false : (e : Ending) → Settled e false
Settled-false cr = tt
Settled-false lf = refl
Settled-false crlf = refl

feed_ending :
    (e : Ending) (c : Csv) (ts : List Text) (l : ℕ) (rest : Text) (from : Result Csv)
    → Row c ts l (write_ending e rest) from
    → from ≡ feed (row_done c ts (l + 1) (owes e)) rest
unfolding feed
feed_ending lf c ts l rest from r =
    r.takes ∙ rw (byte-line_feed r.base r.text r.last l r.open_state, r.ends)
feed_ending cr c ts l rest from r =
    r.takes ∙ rw (byte-carriage_return r.base r.text r.last l r.open_state, r.ends)
feed_ending crlf c ts l rest from r =
    r.takes
    ∙ rw (byte-carriage_return r.base r.text r.last l r.open_state, r.ends) (unfold byte in refl)

-- A record that the end of the file ends.
finish-Row :
    (c : Csv) (ts : List Text) (l : ℕ) (from : Result Csv)
    → Row c ts l [] from
    → (from >>= finish) ≡ ok ((row_done c ts l false).records, (row_done c ts l false).held)
unfolding feed finish
finish-Row c ts l from r = rw (r.takes, r.open_state, r.ends)

module _ (ceiling : ℕ) where
  feed_blank :
      (e : Ending) (rs : List Record) (held l start : ℕ) (after : Bool) (rest : Text)
      → Settled e after
      → feed (between ceiling rs held l start after) (write_ending e rest)
        ≡ feed (between ceiling rs held (l + 1) start (owes e)) rest
  unfolding feed byte byte_in newline carriage
  feed_blank lf rs held l start after rest s = rw s
  feed_blank cr rs held l start after rest s = ground arith
  feed_blank crlf rs held l start after rest s = refl

  -- The room that a document needs.
  pub record Holds (held cost : ℕ) : Type 0 where
    pub budget : held + cost ≤ ceiling
    pub word : ceiling ≤ u64_max

  row_room :
      (rs : List Record) (held l start : ℕ) (after : Bool) (w : Written) (ws : List Written)
      → length ws + 1 ≤ max_fields
      → Holds held (row_overhead + cells_cost (texts (w ∷ ws)))
      → RowRoom (begin (between ceiling rs held l start after)) (texts (w ∷ ws))
  unfolding begin
  row_room rs held l start after w ws n h = omega (arith, length-map ws (λ v. v.text))

  Row-between :
      (rs : List Record) (held l start : ℕ) (after : Bool) (w : Written) (ws : List Written)
      (rest : Text)
      → IsLine (row w ws)
      → Holds held (row_overhead + cells_cost (texts (w ∷ ws)))
      → Row
          (begin (between ceiling rs held l start after))
          (texts (w ∷ ws))
          (l + feeds (w ∷ ws))
          rest
          (feed (between ceiling rs held l start after) (write_row w ws rest))
  Row-between rs held l start after w ws rest (f, fs, nb, n) h =
      feed-write_row (between ceiling rs held l start after) w ws rest
        (record { no_field = refl; start = refl }) (row_room rs held l start after w ws n h) f fs nb

  feed_row :
      (e : Ending) (rs : List Record) (held l start : ℕ) (after : Bool) (w : Written)
      (ws : List Written) (rest : Text)
      → IsLine (row w ws)
      → Holds held (row_overhead + cells_cost (texts (w ∷ ws)))
      → feed (between ceiling rs held l start after) (write_row w ws (write_ending e rest))
        ≡ feed
            (between ceiling
              (rs ++ (record { line = l; fields = texts (w ∷ ws) }) ∷ [])
              (held + (row_overhead + cells_cost (texts (w ∷ ws))))
              (l + feeds (w ∷ ws) + 1)
              l
              (owes e))
            rest
  feed_row e rs held l start after w ws rest fine h =
      feed_ending e _ (texts (w ∷ ws)) (l + feeds (w ∷ ws)) rest _
        (Row-between rs held l start after w ws (write_ending e rest) fine h)
      ∙ (unfold begin in rw zero-add)

  pub finish_row :
      (rs : List Record) (held l start : ℕ) (after : Bool) (w : Written) (ws : List Written)
      → IsLine (row w ws)
      → Holds held (row_overhead + cells_cost (texts (w ∷ ws)))
      → (feed (between ceiling rs held l start after) (write_row w ws []) >>= finish)
        ≡ ok (
          rs ++ (record { line = l; fields = texts (w ∷ ws) }) ∷ [],
          held + (row_overhead + cells_cost (texts (w ∷ ws))),
        )
  finish_row rs held l start after w ws fine h =
      finish-Row _ (texts (w ∷ ws)) _ _ (Row-between rs held l start after w ws [] fine h)
      ∙ (unfold begin in rw zero-add)

  between-eq :
      (l start : ℕ) (after : Bool) (rest : Text) {rs rs' : List Record} {held held' : ℕ}
      → rs ≡ rs'
      → held ≡ held'
      → feed (between ceiling rs held l start after) rest
        ≡ feed (between ceiling rs' held' l start after) rest
  between-eq l start after rest e f = rw (e, f)

  -- The reader has taken some lines, and stands between two records.
  pub record AfterLines (e : Ending) (rs : List Record) (held line : ℕ) (rest written : Text)
      (from : Csv) : Type 0 where
    pub start : ℕ
    pub after : Bool
    pub settled : Settled e after
    pub takes : feed from written ≡ feed (between ceiling rs held line start after) rest

  pub feed-write_lines :
      (ls : List Line) (e : Ending) (rs : List Record) (held l start : ℕ) (after : Bool)
      (rest : Text)
      → Settled e after
      → All IsLine ls
      → Holds held (lines_cost ls)
      → AfterLines e
          (rs ++ records_from l ls)
          (held + lines_cost ls)
          (line_after l ls)
          rest
          (write_lines e ls rest)
          (between ceiling rs held l start after)
  feed-write_lines [] e rs held l start after rest s fine h = record {
    start = start;
    after = after;
    settled = s;
    takes = rw (append-nil, add-zero);
  }
  feed-write_lines (blank ∷ ls) e rs held l start after rest s (_, fine) h =
      let tail =
        feed-write_lines ls e rs held (l + 1) start (owes e) rest (Settled-owes e) fine h in
      record {
        start = tail.start;
        after = tail.after;
        settled = tail.settled;
        takes = feed_blank e rs held l start after (write_lines e ls rest) s ∙ tail.takes;
      }
  feed-write_lines (row w ws ∷ ls) e rs held l start after rest s (first, fine) h =
      let tail =
        feed-write_lines ls e (rs ++ (record { line = l; fields = texts (w ∷ ws) }) ∷ [])
          (held + (row_overhead + cells_cost (texts (w ∷ ws)))) (l + feeds (w ∷ ws) + 1) l (owes e)
          rest (Settled-owes e) fine (omega arith) in
      record {
        start = tail.start;
        after = tail.after;
        settled = tail.settled;
        takes =
            feed_row e rs held l start after w ws (write_lines e ls rest) first (omega arith)
            ∙ tail.takes
            ∙ between-eq _ _ _ rest (append_assoc rs _ _) (omega arith);
      }
