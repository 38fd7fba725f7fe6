-- ===== src/Table/Csv/Fields.antt =====
-- The reader over one written field, and over the fields of one record.
use factbook_rs.Prelude.{
  ℕ, suc, ◌+◌, ◌≤◌, ◌≡◌, ◌≢◌, refl, ◌∙◌, ap, true, false, [], ◌∷◌, ◌++◌, All, append-nil,
  append_assoc, arith, ◌==◌, if◌then◌else◌, length, length-concat, u64_max, Bool-cases, inl, inr,
  ==_iff,
}
use native.Mathlib.Nat.{add-zero}
use factbook_rs.Prelude.Text.{Text}
use factbook_rs.Table.Csv.Document.{
  Style, bare, quoted, doubled, write_field, acts, StyleFits, occurrences,
}
use factbook_rs.Table.Csv.{
  quote, delimiter, line_feed, carriage_return, cell_overhead, row_overhead, max_field, State,
  field_start, unquoted, quote_in_quoted, is_quoted, Csv, push, begin, byte_in, byte, feed,
}
use factbook_rs.Table.Error.{ok}

-- The reader inside a record, at line `l`, with `f` read of the open field.
abbrev pub mid : Csv → Text → State → ℕ → Csv
mid c f s l = record c { field = f; state = s; line = l; started = true; after_cr = false }

-- Room for `n` bytes behind `f`.
pub record HasRoom (c : Csv) (f : Text) (n : ℕ) : Type 0 where
  pub budget :
      c.held + (c.record_cost + (row_overhead + (length f + n + cell_overhead))) ≤ c.ceiling
  pub word : c.ceiling ≤ u64_max
  pub short : length f + n ≤ max_field

HasRoom-next : (c : Csv) (f : Text) (b n : ℕ) → HasRoom c f (suc n) → HasRoom c (f ++ b ∷ []) n
HasRoom-next c f b n h = omega (arith, length-concat f b)

push-mid :
    (c : Csv) (f : Text) (s : State) (l b n : ℕ)
    → HasRoom c f (suc n)
    → push (mid c f s l) b ≡ ok (mid c (f ++ b ∷ []) s l)
unfolding push
push-mid c f s l b n h = ground arith

byte-quoted :
    (c : Csv) (f : Text) (l b n : ℕ)
    → HasRoom c f (suc n)
    → (b == quote) ≡ false
    → byte (mid c f State.quoted l) b
      ≡ ok (mid c (f ++ b ∷ []) State.quoted (l + (if b == line_feed then 1 else 0)))
unfolding byte_in byte
byte-quoted c f l b n h ne = elim (Bool-cases (b == line_feed)) [
  | inl e ↦ rw (ne, e, push-mid c f State.quoted (l + 1) b n h)
  | inr e ↦
      rw (ne, e, push-mid c f State.quoted l b n h)
        (ap (λ m. ok (mid c (f ++ b ∷ []) State.quoted m)) (omega arith))
]

byte-closing :
    (c : Csv) (f : Text) (l : ℕ)
    → byte (mid c f State.quoted l) quote ≡ ok (mid c f quote_in_quoted l)
unfolding byte byte_in
byte-closing c f l = refl

byte-escaped :
    (c : Csv) (f : Text) (l n : ℕ)
    → HasRoom c f (suc n)
    → byte (mid c f quote_in_quoted l) quote ≡ ok (mid c (f ++ quote ∷ []) State.quoted l)
unfolding byte byte_in
byte-escaped c f l n h = rw (push-mid c f quote_in_quoted l quote n h)

-- The field read so far, regrouped.
regroup :
    (c : Csv) (f : Text) (b : ℕ) (bs : Text) (s : State) {l m : ℕ} (rest : Text)
    → l ≡ m
    → feed (mid c ((f ++ b ∷ []) ++ bs) s l) rest ≡ feed (mid c (f ++ b ∷ bs) s m) rest
regroup c f b bs s rest e = rw (append_assoc, e)

-- A quoted field is read up to its closing quote.
feed-doubled :
    (v : Text) (c : Csv) (f : Text) (l : ℕ) (rest : Text)
    → HasRoom c f (length v)
    → feed (mid c f State.quoted l) (doubled v ++ quote ∷ rest)
      ≡ feed (mid c (f ++ v) quote_in_quoted (l + occurrences line_feed v)) rest
unfolding feed
feed-doubled [] c f l rest h = rw (byte-closing, append-nil, add-zero)
feed-doubled (b ∷ bs) c f l rest h = elim (Bool-cases (b == quote)) [
  | inl e ↦
      rw ((==_iff b quote).0 e, byte-closing, byte-escaped c f l (length bs) h)
        (feed-doubled bs c (f ++ quote ∷ []) l rest (HasRoom-next c f quote (length bs) h)
          ∙ regroup c f quote bs quote_in_quoted rest (omega arith))
  | inr e ↦
      rw (e, byte-quoted c f l b (length bs) h e)
        (feed-doubled bs c (f ++ b ∷ []) _ rest (HasRoom-next c f b (length bs) h)
          ∙ regroup c f b bs quote_in_quoted rest (omega arith))
]

acts_cases :
    (b : ℕ)
    → acts b ≡ false
    → ((b == delimiter) ≡ false) × ((b == line_feed) ≡ false) × ((b == carriage_return) ≡ false)
acts_cases b h = ground arith

byte-unquoted :
    (c : Csv) (f : Text) (l b n : ℕ)
    → HasRoom c f (suc n)
    → acts b ≡ false
    → byte (mid c f unquoted l) b ≡ ok (mid c (f ++ b ∷ []) unquoted l)
unfolding byte byte_in
byte-unquoted c f l b n h a =
    let (d, e, r) = acts_cases b a in rw (e, d, r, push-mid c f unquoted l b n h)

-- A bare field is read up to what follows it.
feed-bare :
    (v : Text) (c : Csv) (f : Text) (l : ℕ) (rest : Text)
    → HasRoom c f (length v)
    → All (λ b. acts b ≡ false) v
    → feed (mid c f unquoted l) (v ++ rest) ≡ feed (mid c (f ++ v) unquoted l) rest
unfolding feed
feed-bare [] c f l rest h a = rw append-nil
feed-bare (b ∷ bs) c f l rest h a = rw (byte-unquoted c f l b (length bs) h a.0) (
    feed-bare bs c (f ++ b ∷ []) l rest (HasRoom-next c f b (length bs) h) a.1
    ∙ regroup c f b bs unquoted rest refl)

-- The reader at the start of a field.
pub record AtStart (c : Csv) : Type 0 where
  pub no_field : c.field ≡ []
  pub start : c.state ≡ field_start

byte_first_quote : (c : Csv) → AtStart c → byte c quote ≡ ok (mid (begin c) [] State.quoted c.line)
unfolding byte byte_in begin
byte_first_quote c h = ground arith

begin-mid :
    (c : Csv)
    → AtStart c
    → begin (record c { after_cr = false }) ≡ mid (begin c) [] field_start c.line
unfolding begin
begin-mid c h = ground arith

byte-start :
    (c : Csv) (b : ℕ)
    → AtStart c
    → (b == line_feed) ≡ false
    → byte c b ≡ byte_in field_start (record c { after_cr = false }) b
unfolding byte
byte-start c b h n = rw (h.start, n)

byte_first_bare :
    (c : Csv) (b n : ℕ)
    → AtStart c
    → HasRoom (begin c) [] (suc n)
    → (b == quote) ≡ false
    → acts b ≡ false
    → byte c b ≡ ok (mid (begin c) (b ∷ []) unquoted c.line)
unfolding byte_in
byte_first_bare c b n h r q a =
    let (d, e, cr) = acts_cases b a in
    rw (
      byte-start c b h e,
      q,
      d,
      e,
      cr,
      begin-mid c h,
      push-mid (begin c) [] field_start c.line b n r,
    )

-- The reader has taken the text of one field, and not what ends it.
pub record Taken (c : Csv) (text rest written : Text) : Type 0 where
  pub last : State
  pub open_state : is_quoted last ≡ false
  pub takes :
      feed c written ≡ feed (mid (begin c) text last (c.line + occurrences line_feed text)) rest

count_bare : (v : Text) → All (λ b. acts b ≡ false) v → occurrences line_feed v ≡ 0
count_bare [] a = refl
count_bare (b ∷ bs) a = rw ((acts_cases b a.0).1, count_bare bs a.1)

-- A quoted field, and a bare one with text in it, are taken from any start of a field.
pub feed-write_field :
    (c : Csv) (style : Style) (text rest : Text)
    → AtStart c
    → HasRoom (begin c) [] (length text)
    → StyleFits style text
    → (style ≡ bare → text ≢ [])
    → Taken c text rest (write_field style text rest)
unfolding feed
feed-write_field c quoted text rest h r f ne = record {
  last = quote_in_quoted;
  open_state = refl;
  takes = rw (byte_first_quote c h) (feed-doubled text (begin c) [] c.line rest r);
}
feed-write_field c bare [] rest h r f ne = absurd (ne refl refl)
feed-write_field c bare (b ∷ bs) rest h r (q, a, more) ne = record {
  last = unquoted;
  open_state = refl;
  takes = rw (byte_first_bare c b (length bs) h r q a) (
      feed-bare bs (begin c) (b ∷ []) c.line rest (HasRoom-next (begin c) [] b (length bs) r) more
      ∙ ap (λ n. feed (mid (begin c) (b ∷ bs) unquoted n) rest)
          (omega (arith, count_bare (b ∷ bs) (a, more))));
}
