-- ===== src/Table/Query/Narrow.antt =====
-- What the index narrows a query to holds every row that satisfies the query.
use mathlib.Core.Option.{some-injective}
use factbook_rs.Net.Address.{IpAddr-Eq, address_eq, address_eq_iff}
use factbook_rs.Net.Networks.{Networks}
use factbook_rs.Prelude.Text.{Text, text_eq, text_eq_iff}
use factbook_rs.Prelude.{
  and_true, ℕ, suc, ◌≡◌, refl, sym, ap, ◌∙◌, Bool, true, false, ◌||◌, Option, none, some, List, [],
  ◌∷◌, ◌==◌, ==_iff, Bool-cases, Option-cases, inl, inr,
}
use factbook_rs.Table.Build.Indexed.{KeysFiled}
use factbook_rs.Table.Build.Loops.{rows_under}
use factbook_rs.Table.Build.{Keys, text, address, prefix, as_prefix, or_no_rows}
use factbook_rs.Table.Cell.{Cell, cell}
use factbook_rs.Table.Index.{Text-Eq}
use factbook_rs.Table.Positions.{positions_where, files_under, unparsed}
use factbook_rs.Table.Query.Walks.{lists_of, passes}
use factbook_rs.Table.Query.{
  Reading, Condition, equals, between_dates, from_date, to_date, Query, then_option, is_some_and,
  equal, accepts, satisfies_each, satisfies, key_value, other_key, narrowed,
}

or_true : (b : Bool) → (b || true) ≡ true
or_true true = refl
or_true false = refl

positions_where_none {ℓ} :
    {A : Type ℓ} (p : A → Bool) (n : ℕ) (xs : List A)
    → ((x : A) → p x ≡ false)
    → positions_where p n xs ≡ []
positions_where_none p n [] h = refl
positions_where_none p n (x ∷ xs) h = rw (h x) (positions_where_none p (suc n) xs h)

-- the rows under a key, if there is a key
abbrev under_option {ℓ} : {K : Type ℓ} → (Text → Option K) → (K → K → Bool) → Option K → Cell → Bool
under_option parse same none c = false
under_option parse same (some k) c = files_under parse same k c

-- the three tests behind the three lists
abbrev tests {ℓ} :
    {K : Type ℓ}
    → (Text → Option K)
    → (K → K → Bool)
    → (K → K → Bool)
    → Text
    → Option Text
    → ℕ
    → List (List Cell → Bool)
tests parse same eq value wildcard kc =
    (λ row. under_option parse same (parse value) (cell row kc))
    ∷ (λ row.
        under_option parse same (other_key eq (parse value) (then_option wildcard parse))
          (cell row kc))
    ∷ (λ row. unparsed parse (cell row kc))
    ∷ []

module _ {ℓ} {K : Type ℓ} (parse : Text → Option K) (same eq : K → K → Bool)
    (same_refl : (k : K) → same k k ≡ true) (eq_sound : (j k : K) → eq j k ≡ true → j ≡ k) where
  -- A cell that holds the value, or the wildcard, is in one of the lists.
  covers_value :
      (value : Text) (wildcard : Option Text) (kc : ℕ) (cells : List Cell)
      → cell cells kc ≡ some value
      → passes (tests parse same eq value wildcard kc) cells ≡ true
  covers_value value wildcard kc cells h = elim (Option-cases (parse value)) [
    | inl refused ↦ rw (h, refused) (or_true _)
    | inr (k, parsed) ↦ rw (h, parsed, parsed, same_refl)
  ]

  covers_wildcard :
      (value w : Text) (kc : ℕ) (cells : List Cell)
      → cell cells kc ≡ some w
      → passes (tests parse same eq value (some w) kc) cells ≡ true
  covers_wildcard value w kc cells h = elim (Option-cases (parse w)) [
    | inl refused ↦ rw (h, refused) (or_true _)
    | inr (j, parsed) ↦ elim (Option-cases (parse value)) [
      | inl no_key ↦ rw (h, no_key, parsed, parsed, same_refl)
      | inr (k, key) ↦ elim (Bool-cases (eq j k)) [
        | inl equal_keys ↦ rw (h, key, parsed, equal_keys, eq_sound j k equal_keys, same_refl)
        | inr other ↦ rw (h, key, parsed, other, parsed, same_refl) (or_true _)
      ]
    ]
  ]

  -- The row that an equality accepts, exactly or by the wildcard, is in one of the lists.
  covers :
      (value : Text) (wildcard : Option Text) (kc : ℕ) (cells : List Cell) (held : Text)
      → cell cells kc ≡ some held
      → (text_eq held value || is_some_and wildcard (λ w. text_eq held w)) ≡ true
      → passes (tests parse same eq value wildcard kc) cells ≡ true
  covers value wildcard kc cells held h a = elim (Bool-cases (text_eq held value)) [
    | inl exact ↦
        covers_value value wildcard kc cells (h ∙ ap some ((text_eq_iff held value).0 exact))
    | inr other ↦ by_wildcard wildcard (rw other at a)
  ]
    where
      by_wildcard :
          (wildcard : Option Text)
          → is_some_and wildcard (λ w. text_eq held w) ≡ true
          → passes (tests parse same eq value wildcard kc) cells ≡ true
      by_wildcard none a = cc
      by_wildcard (some w) a =
          covers_wildcard value w kc cells (h ∙ ap some ((text_eq_iff held w).0 a))

is_some_and-some {ℓ} :
    {A : Type ℓ} (a? : Option A) (p : A → Bool)
    → is_some_and a? p ≡ true
    → (a : A) × (a? ≡ some a) × (p a ≡ true)
is_some_and-some none p h = cc
is_some_and-some (some a) p h = (a, refl, h)

module _ (reading : Reading) where
  -- the cell holds the value, or the wildcard
  abbrev HeldBy : Option Text → Text → Cell → Type 0
  HeldBy wildcard value c =
      (held : Text) × (c ≡ some held)
      × ((text_eq held value || is_some_and wildcard (λ w. text_eq held w)) ≡ true)

  later :
      (wildcard : Option Text) (c : Condition reading) (cs : List (Condition reading)) (at : ℕ)
      (plan : List ℕ) (cells : List Cell)
      → satisfies_each reading true wildcard (c ∷ cs) (at ∷ plan) cells ≡ true
      → satisfies_each reading true wildcard cs plan cells ≡ true
  unfolding satisfies_each
  later wildcard c cs at plan cells s = (and_true _ _ s).1

  -- A row that satisfies the conditions holds the key value, or the wildcard, in its key column.
  key_value-HeldBy :
      (wildcard : Option Text) (kc : ℕ) (conditions : List (Condition reading)) (plan : List ℕ)
      (cells : List Cell) {value : Text}
      → key_value reading kc conditions plan ≡ some value
      → satisfies_each reading true wildcard conditions plan cells ≡ true
      → HeldBy wildcard value (cell cells kc)
  unfolding key_value satisfies_each accepts equal
  key_value-HeldBy wildcard kc [] plan cells k s = cc
  key_value-HeldBy wildcard kc (c ∷ cs) [] cells k s = cc
  key_value-HeldBy wildcard kc (equals column v ∷ cs) (at ∷ plan) cells k s =
      elim (Bool-cases (at == kc)) [
        | inl here ↦
            let (held, got, yes_cell) = is_some_and-some (cell cells at) _ (and_true _ _ s).0 in
            let value_eq = some-injective _ _ (rw here at k) in
            let same_column = ap (cell cells) ((==_iff at kc).0 here) in
            (
              held,
              sym same_column ∙ got,
              ap (λ x. text_eq held x || is_some_and wildcard (λ w. text_eq held w)) (sym value_eq)
                  ∙ yes_cell,
            )
        | inr other ↦
            key_value-HeldBy wildcard kc cs plan cells (rw other at k)
              (later wildcard (equals column v) cs at plan cells s)
      ]
  key_value-HeldBy wildcard kc (between_dates column a b ∷ cs) (at ∷ plan) cells k s =
      key_value-HeldBy wildcard kc cs plan cells k
        (later wildcard (between_dates column a b) cs at plan cells s)
  key_value-HeldBy wildcard kc (from_date column a ∷ cs) (at ∷ plan) cells k s =
      key_value-HeldBy wildcard kc cs plan cells k
        (later wildcard (from_date column a) cs at plan cells s)
  key_value-HeldBy wildcard kc (to_date column a ∷ cs) (at ∷ plan) cells k s =
      key_value-HeldBy wildcard kc cs plan cells k
        (later wildcard (to_date column a) cs at plan cells s)

-- The list under an optional key is the rows that the key's test passes.
filed_list {ℓ} :
    {K : Type ℓ} (parse : Text → Option K) (same : K → K → Bool) (look : K → Option (List ℕ))
    (kc : ℕ) (rows : List (List Cell))
    → ((k : K) → or_no_rows (look k) ≡ rows_under parse same k kc 0 rows)
    → (key : Option K)
    → or_no_rows (then_option key look)
      ≡ positions_where (λ row. under_option parse same key (cell row kc)) 0 rows
filed_list parse same look kc rows filed none = sym (positions_where_none _ 0 rows (λ row. refl))
filed_list parse same look kc rows filed (some k) = filed k

three : {a b c x y z : List ℕ} → a ≡ x → b ≡ y → c ≡ z → (a ∷ b ∷ c ∷ []) ≡ x ∷ y ∷ z ∷ []
three p q r = rw (p, q, r)

all_parse : (c : Cell) → unparsed some c ≡ false
all_parse none = refl
all_parse (some t) = refl

module _ (reading : Reading) (net : Networks) where
  open net use {parse_address, same, net_eq, same_refl, eq_of_net_eq}

  -- the rows that the index narrows a value to
  abbrev pub key_tests : Keys net → Text → Option Text → ℕ → List (List Cell → Bool)
  key_tests (text filed) value wildcard kc = tests some text_eq text_eq value wildcard kc
  key_tests (address filed unindexed) value wildcard kc =
      tests parse_address address_eq address_eq value wildcard kc
  key_tests (prefix filed unindexed) value wildcard kc =
      tests (as_prefix net) same net_eq value wildcard kc

  then_some : (o : Option Text) → then_option o some ≡ o
  then_some none = refl
  then_some (some w) = refl

  pub narrowed-lists_of :
      (keys : Keys net) (kc : ℕ) (rows : List (List Cell)) (value : Text) (wildcard : Option Text)
      → KeysFiled net kc rows keys
      → narrowed reading net keys value wildcard
        ≡ lists_of (key_tests keys value wildcard kc) 0 rows
  unfolding narrowed
  narrowed-lists_of (text filed) kc rows value wildcard h =
      three (h value)
        (filed_list some text_eq _ kc rows h _
          ∙ ap
              (λ o.
                positions_where
                  (λ row.
                    under_option some text_eq (other_key text_eq (some value) o) (cell row kc))
                  0 rows)
              (sym (then_some wildcard)))
        (sym (positions_where_none _ 0 rows (λ row. all_parse (cell row kc))))
  narrowed-lists_of (address filed unindexed) kc rows value wildcard h =
      three (filed_list parse_address address_eq _ kc rows h.0 _)
        (filed_list parse_address address_eq _ kc rows h.0 _) h.1
  narrowed-lists_of (prefix filed unindexed) kc rows value wildcard h =
      three (filed_list (as_prefix net) same _ kc rows h.0 _)
        (filed_list (as_prefix net) same _ kc rows h.0 _) h.1

  -- The rows that satisfy a query with a key value are among those the index narrows it to.
  pub key_tests-covers :
      (keys : Keys net) (kc : ℕ) (q : Query reading) (plan : List ℕ) (value : Text)
      (cells : List Cell)
      → q.case_sensitive ≡ true
      → key_value reading kc q.conditions plan ≡ some value
      → satisfies reading q plan cells ≡ true
      → passes (key_tests keys value q.wildcard kc) cells ≡ true
  unfolding satisfies
  key_tests-covers keys kc q plan value cells exact k s =
      let (held, got, yes_cell) =
        key_value-HeldBy reading q.wildcard kc q.conditions plan cells k (rw exact at s) in
      go keys held got yes_cell
    where
      go :
          (keys : Keys net) (held : Text)
          → cell cells kc ≡ some held
          → (text_eq held value || is_some_and q.wildcard (λ w. text_eq held w)) ≡ true
          → passes (key_tests keys value q.wildcard kc) cells ≡ true
      go (text filed) held got yes_cell =
          covers some text_eq text_eq (λ k. (text_eq_iff k k).1 refl) (λ j k. (text_eq_iff j k).0)
            value q.wildcard kc cells held got yes_cell
      go (address filed unindexed) held got yes_cell =
          covers parse_address address_eq address_eq (λ k. (address_eq_iff k k).1 refl)
            (λ j k. (address_eq_iff j k).0) value q.wildcard kc cells held got yes_cell
      go (prefix filed unindexed) held got yes_cell =
          covers (as_prefix net) same net_eq same_refl eq_of_net_eq value q.wildcard kc cells held
            got yes_cell
