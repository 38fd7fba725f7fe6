-- ===== src/Table/Build/Loops.antt =====
-- The loops of `build` over the rows: what they file is what the specification names.
use factbook_rs.Net.Address.{IpAddr, IpAddr-Eq, address_eq}
use factbook_rs.Net.Networks.{Networks}
use factbook_rs.Prelude.Keyed
use factbook_rs.Prelude.Text.{Text, text_eq}
use factbook_rs.Prelude.{
  ℕ, suc, ◌≡◌, sym, ap, ◌∙◌, Bool, true, false, Option, some, List, [], ◌∷◌, ◌++◌, append-nil,
  append_assoc, if◌then◌else◌, length, inl, inr, Option-cases,
}
use factbook_rs.Table.Build.Filed.{push-eq-ok, get-file}
use factbook_rs.Table.Build.{or_no_rows, file_text, file_address}
use factbook_rs.Table.Cell.{Cell, cell}
use factbook_rs.Table.Error.{ok, >>=-eq-ok, ok-injective}
use factbook_rs.Table.Index.{Allocation, Budget, Text-Eq, push, file}
use factbook_rs.Table.Positions.{positions_where, files_under, unparsed}

pub append_if :
    (t : Bool) (xs ys : List ℕ) (at : ℕ)
    → (xs ++ (if t then at ∷ [] else [])) ++ ys ≡ xs ++ (if t then at ∷ ys else ys)
append_if true xs ys at = append_assoc xs (at ∷ []) ys
append_if false xs ys at = rw append-nil

-- The rows that belong under a key, and those whose key does not parse.
abbrev pub rows_under {ℓ} :
    {K : Type ℓ} → (Text → Option K) → (K → K → Bool) → K → ℕ → ℕ → List (List Cell) → List ℕ
rows_under parse same k key_column =
    positions_where (λ row. files_under parse same k (cell row key_column))

abbrev pub rows_unparsed {ℓ} : {K : Type ℓ} → (Text → Option K) → ℕ → ℕ → List (List Cell) → List ℕ
rows_unparsed parse key_column = positions_where (λ row. unparsed parse (cell row key_column))

module _ (net : Networks) (alloc : Allocation) (key_column : ℕ) where
  open net use {parse_address}

  pub get-file_text :
      (rows : List (List Cell)) (at : ℕ) (b : Budget) (filed : List (Text × List ℕ)) (k : Text)
      {r : Budget × List (Text × List ℕ)}
      → file_text net alloc key_column at rows b filed ≡ ok r
      → or_no_rows (Keyed.get k r.1)
        ≡ or_no_rows (Keyed.get k filed) ++ rows_under some text_eq k key_column at rows
  unfolding file_text
  get-file_text [] at b filed k e =
      rw append-nil (ap (λ r. or_no_rows (Keyed.get k r.1)) (sym (ok-injective e)))
  get-file_text (row ∷ rows) at b filed k e = elim (Option-cases (cell row key_column)) [
    | inl absent ↦ rw absent (get-file_text rows (suc at) b filed k (rw (absent, file_text) at e))
    | inr (key, there) ↦
        let (s, got, later) =
          >>=-eq-ok (file alloc b filed alloc.text_entry key (length key) at) _
            (rw (there, file_text) at e) in
        let rest : List ℕ = rows_under some text_eq k key_column (suc at) rows in
        get-file_text rows (suc at) s.0 s.1 k later
        ∙ ap (λ l. l ++ rest) (get-file alloc b filed alloc.text_entry key (length key) at k got)
        ∙ rw there (append_if (text_eq key k) (or_no_rows (Keyed.get k filed)) rest at)
  ]

  pub get-file_address :
      (rows : List (List Cell)) (at : ℕ) (b : Budget) (filed : List (IpAddr × List ℕ))
      (unindexed : List ℕ) (k : IpAddr) {r : Budget × List (IpAddr × List ℕ) × List ℕ}
      → file_address net alloc key_column at rows b filed unindexed ≡ ok r
      → (or_no_rows (Keyed.get k r.1)
          ≡ or_no_rows (Keyed.get k filed)
            ++ rows_under parse_address address_eq k key_column at rows)
        × (r.2 ≡ unindexed ++ rows_unparsed parse_address key_column at rows)
  unfolding file_address
  get-file_address [] at b filed unindexed k e = (
    rw append-nil (ap (λ r. or_no_rows (Keyed.get k r.1)) (sym (ok-injective e))),
    rw append-nil (ap (λ r. r.2) (sym (ok-injective e))),
  )
  get-file_address (row ∷ rows) at b filed unindexed k e =
      elim (Option-cases (cell row key_column)) [
        | inl absent ↦
            rw absent
              (get-file_address rows (suc at) b filed unindexed k (rw (absent, file_address) at e))
        | inr (raw, there) ↦ elim (Option-cases (parse_address raw)) [
          | inl refused ↦
              let (s, got, later) =
                >>=-eq-ok (push alloc b unindexed at) _ (rw (there, file_address, refused) at e) in
              let rest : List ℕ = rows_unparsed parse_address key_column (suc at) rows in
              let (found, kept) = get-file_address rows (suc at) s.0 filed s.1 k later in
              (
                rw (there, refused) found,
                kept
                    ∙ ap (λ l. l ++ rest) (push-eq-ok alloc b unindexed at got)
                    ∙ rw (there, refused) (append_assoc unindexed (at ∷ []) rest),
              )
          | inr (key, parsed) ↦
              let (s, got, later) =
                >>=-eq-ok (file alloc b filed alloc.address_entry key 0 at) _
                  (rw (there, file_address, parsed) at e) in
              let rest : List ℕ = rows_under parse_address address_eq k key_column (suc at) rows in
              let (found, kept) = get-file_address rows (suc at) s.0 s.1 unindexed k later in
              (
                found
                    ∙ ap (λ l. l ++ rest)
                        (get-file alloc b filed alloc.address_entry key 0 at k got)
                    ∙ rw (there, parsed)
                        (append_if (address_eq key k) (or_no_rows (Keyed.get k filed)) rest at),
                rw (there, parsed) kept,
              )
        ]
      ]
