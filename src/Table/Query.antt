-- ===== src/Table/Query.antt =====
-- src/table/query.rs: conditions, the rows that the index narrows them to, and the walk over them.
pub mod Walks
pub mod Collect
pub mod Narrow
pub mod Find
use factbook_rs.Net.Address.{IpAddr, IpAddr-Eq, address_eq}
use factbook_rs.Net.Networks.{Networks}
use factbook_rs.Prelude.Keyed
use factbook_rs.Prelude.Text.{Text, text_eq, is_ascii, to_ascii_lowercase, chars}
use factbook_rs.Prelude.{
  ℕ, zero, suc, ◌+◌, ◌-◌, Bool, true, false, not, ◌&&◌, ◌||◌, Option, none, some, List, [], ◌∷◌,
  ◌++◌, map, min, ltb, ◌==◌, if◌then◌else◌, length, get_elem?, head?,
}
use factbook_rs.Table.Build.{
  Keys, text, address, prefix, Table, as_prefix, or_no_rows, or_else, map_option,
}
use factbook_rs.Table.Cell.{Cell, cell}
use factbook_rs.Table.Index.{Text-Eq, position}

-- What the conditions take of `std::time`, of `chrono`'s parsers, and of the Unicode table behind
-- `char::to_lowercase`.
pub record Reading : Type 1 where
  pub Instant : Type 0
  pub le : Instant → Instant → Bool
  -- `DateTime::parse_from_rfc3339`, as a `SystemTime`
  pub parse_rfc3339 : Text → Option Instant
  pub Date : Type 0
  -- `NaiveDate::parse_from_str(text, "%Y-%m-%d")`
  pub parse_date : Text → Option Date
  -- `date.and_hms_opt(0, 0, 0)`, read as UTC
  pub midnight : Date → Option Instant
  pub to_lowercase : ℕ → List ℕ

abbrev pub flat_map : (ℕ → List ℕ) → List ℕ → List ℕ
flat_map f [] = []
flat_map f (x ∷ xs) = f x ++ flat_map f xs

abbrev pub then_option {ℓ κ} : {A : Type ℓ} {B : Type κ} → Option A → (A → Option B) → Option B
then_option none f = none
then_option (some a) f = f a

-- `Option::is_some_and`
abbrev pub is_some_and {ℓ} : {A : Type ℓ} → Option A → (A → Bool) → Bool
is_some_and none p = false
is_some_and (some a) p = p a

-- the wildcard's key, unless it is the value's key again
abbrev pub other_key {ℓ} : {K : Type ℓ} → (K → K → Bool) → Option K → Option K → Option K
other_key eq key none = none
other_key eq key (some w) = if is_some_and key (λ k. eq w k) then none else some w

pub data Walk : Type 0 where
  all_rows : ℕ → ℕ → Walk
  listed : List (List ℕ) → Walk

-- `Walk::nothing`
abbrev pub nothing : Walk
nothing = listed ([] ∷ [] ∷ [] ∷ [])

abbrev pub lower : Option ℕ → Option ℕ → Option ℕ
lower none y = y
lower (some x) none = some x
lower (some x) (some y) = some (min x y)

-- the lowest head among the lists
unfoldable pub lowest : List (List ℕ) → Option ℕ
lowest [] = none
lowest (l ∷ ls) = lower (head? l) (lowest ls)

abbrev pub advance : ℕ → List ℕ → List ℕ
advance low [] = []
advance low (x ∷ xs) = if x == low then xs else x ∷ xs

unfoldable pub pop : Walk → Option (ℕ × Walk)
unfolding lowest
pop (all_rows start stop) = if ltb start stop then some (start, all_rows (start + 1) stop) else none
pop (listed lists) = map_option (λ low. (low, listed (map (advance low) lists))) (lowest lists)

abbrev pub total_length : List (List ℕ) → ℕ
total_length [] = 0
total_length (l ∷ ls) = length l + total_length ls

unfoldable pub remaining : Walk → ℕ
remaining (all_rows start stop) = stop - start
remaining (listed lists) = total_length lists

module _ (reading : Reading) where
  open reading use {Instant, le, parse_rfc3339, parse_date, midnight, to_lowercase}

  pub data Condition : Type 0 where
    equals : Text → Text → Condition
    between_dates : Text → Instant → Instant → Condition
    from_date : Text → Instant → Condition
    to_date : Text → Instant → Condition

  unfoldable pub condition_column : Condition → Text
  condition_column (equals column value) = column
  condition_column (between_dates column from to) = column
  condition_column (from_date column from) = column
  condition_column (to_date column to) = column

  pub record Query : Type 0 where
    pub conditions : List Condition
    pub case_sensitive : Bool
    pub wildcard : Option Text
    pub select : Option (List Text)

  unfoldable pub as_date : Text → Option Instant
  as_date raw = or_else (parse_rfc3339 raw) (then_option (parse_date raw) midnight)

  unfoldable pub equal : Text → Text → Bool → Bool
  equal held value true = text_eq held value
  equal held value false =
      if is_ascii held && is_ascii value
      then text_eq (to_ascii_lowercase held) (to_ascii_lowercase value)
      else text_eq (flat_map to_lowercase (chars held)) (flat_map to_lowercase (chars value))

  -- one condition on the text of its cell
  unfoldable pub accepts : Bool → Option Text → Condition → Text → Bool
  unfolding as_date
  accepts exactly wildcard (equals column value) held =
      equal held value exactly || is_some_and wildcard (λ w. equal held w exactly)
  accepts exactly wildcard (between_dates column from to) held =
      is_some_and (as_date held) (λ when. le from when && le when to)
  accepts exactly wildcard (from_date column from) held =
      is_some_and (as_date held) (λ when. le from when)
  accepts exactly wildcard (to_date column to) held =
      is_some_and (as_date held) (λ when. le when to)

  -- `satisfies`, over the conditions beside their column positions
  unfoldable pub satisfies_each : Bool → Option Text → List Condition → List ℕ → List Cell → Bool
  satisfies_each exactly wildcard (c ∷ cs) (at ∷ plan) cells =
      is_some_and (cell cells at) (accepts exactly wildcard c)
      && satisfies_each exactly wildcard cs plan cells
  satisfies_each exactly wildcard _ _ cells = true

  unfoldable pub satisfies : Query → List ℕ → List Cell → Bool
  unfolding satisfies_each
  satisfies q plan cells = satisfies_each q.case_sensitive q.wildcard q.conditions plan cells

  abbrev pub value_at : ℕ → Condition → ℕ → Option Text
  value_at key_column (equals column value) at = if at == key_column then some value else none
  value_at key_column _ at = none

  -- the value of the first equality on the key column
  unfoldable pub key_value : ℕ → List Condition → List ℕ → Option Text
  key_value key_column (c ∷ cs) (at ∷ plan) =
      or_else (value_at key_column c at) (key_value key_column cs plan)
  key_value key_column _ _ = none

  module _ (net : Networks) where
    open net use {parse_address, IpNet, net_eq}

    unfoldable pub narrowed : Keys net → Text → Option Text → List (List ℕ)
    narrowed (text filed) value wildcard =
        or_no_rows (Keyed.get value filed)
        ∷ or_no_rows
            (then_option (other_key text_eq (some value) wildcard) (λ w. Keyed.get w filed))
        ∷ []
        ∷ []
    narrowed (address filed unindexed) value wildcard =
        let key = parse_address value in
        or_no_rows (then_option key (λ a. Keyed.get a filed))
        ∷ or_no_rows (
            then_option (other_key address_eq key (then_option wildcard parse_address))
              (λ a. Keyed.get a filed))
        ∷ unindexed
        ∷ []
    narrowed (prefix filed unindexed) value wildcard =
        let key = as_prefix net value in
        or_no_rows (then_option key (λ n. net.get n filed))
        ∷ or_no_rows (
            then_option (other_key net_eq key (then_option wildcard (as_prefix net)))
              (λ n. net.get n filed))
        ∷ unindexed
        ∷ []

    unfoldable pub narrow : Table net → Query → List ℕ → Option (List (List ℕ))
    narrow t q plan =
        if not q.case_sensitive
        then none
        else map_option (λ value. narrowed t.keys value q.wildcard)
            (key_value t.key_column q.conditions plan)

    unfoldable pub position_of : Table net → Text → Option ℕ
    position_of t column = position (λ name. text_eq name column) t.columns

    -- each condition's column position, if the table has all the columns
    unfoldable pub resolve : Table net → List Condition → Option (List ℕ)
    resolve t [] = some []
    resolve t (c ∷ cs) =
        then_option (position_of t (condition_column c)) (λ at. map_option (◌∷◌ at) (resolve t cs))

    pub record Matches : Type 0 where
      pub plan : List ℕ
      pub walk : Walk

    abbrev pub walk_of : Table net → Option (List (List ℕ)) → Walk
    walk_of t none = all_rows 0 (length t.rows)
    walk_of t (some lists) = listed lists

    abbrev pub matches_of : Table net → Query → Option (List ℕ) → Matches
    matches_of t q none = record { plan = []; walk = nothing }
    matches_of t q (some plan) = record { plan = plan; walk = walk_of t (narrow t q plan) }

    unfoldable pub find : Table net → Query → Matches
    find t q = matches_of t q (resolve t q.conditions)

    -- How `Matches::next` ends: `panicked` is a position past the rows.
    pub data Next : Type 0 where
      out_of_fuel panicked finished : Next
      found : ℕ → Matches → Next

    -- the loop of `next`, which takes at most as many rounds as the walk has positions left
    unfoldable pub next : Table net → Query → ℕ → List ℕ → Walk → Next
    next t q zero plan walk = out_of_fuel
    next t q (suc fuel) plan walk = elim (pop walk) [
      | none ↦ finished
      | some (at, rest) ↦ elim (get_elem? t.rows at) [
        | none ↦ panicked
        | some cells ↦ elim (satisfies q plan cells) [
          | true ↦ found at (record { plan = plan; walk = rest })
          | false ↦ next t q fuel plan rest
        ]
      ]
    ]

    -- `next` until it is finished: the positions of the rows handed back, `none` if it fails
    unfoldable pub collect : Table net → Query → ℕ → Matches → Option (List ℕ)
    collect t q zero m = none
    collect t q (suc rounds) m = elim (next t q (suc (remaining m.walk)) m.plan m.walk) [
      | out_of_fuel ↦ none
      | panicked ↦ none
      | finished ↦ some []
      | found at rest ↦ map_option (◌∷◌ at) (collect t q rounds rest)
    ]
