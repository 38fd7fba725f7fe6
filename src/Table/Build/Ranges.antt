-- ===== src/Table/Build/Ranges.antt =====
-- The loop of `build` over the rows of a prefix index.
use factbook_rs.Net.Networks.{Networks}
use factbook_rs.Prelude.{
  ℕ, suc, ◌≡◌, sym, ap, ◌∙◌, List, [], ◌∷◌, ◌++◌, append-nil, append_assoc, if◌then◌else◌, inl, inr,
  Bool-cases, Option-cases,
}
use factbook_rs.Table.Build.Filed.{push-eq-ok}
use factbook_rs.Table.Build.Loops.{append_if, rows_under, rows_unparsed}
use factbook_rs.Table.Build.{or_no_rows, file_range, file_prefix, as_prefix}
use factbook_rs.Table.Cell.{Cell, cell}
use factbook_rs.Table.Error.{ok, >>=-eq-ok, ok-injective}
use factbook_rs.Table.Index.{Allocation, Budget, charge, push}

module _ (net : Networks) (alloc : Allocation) (key_column : ℕ) where
  open net use {IpNet, PrefixMap, same}

  get-inserted :
      (filed : PrefixMap) (key k : IpNet) (at : ℕ) (list longer : List ℕ) (m : PrefixMap)
      → or_no_rows (net.get key filed) ≡ list
      → longer ≡ list ++ at ∷ []
      → m ≡ net.insert key longer filed
      → or_no_rows (net.get k m)
        ≡ or_no_rows (net.get k filed) ++ (if same key k then at ∷ [] else [])
  get-inserted filed key k at list longer m found grown made =
      rw (made, net.get-insert)
        (elim (Bool-cases (same key k)) [
          | inl equal ↦ rw (equal, grown, ← found, net.get_same key k filed equal)
          | inr other ↦ rw (other, append-nil)
        ])

  get-file_range :
      (b : Budget) (filed : PrefixMap) (key : IpNet) (at : ℕ) (k : IpNet) {r : Budget × PrefixMap}
      → file_range net alloc b filed key at ≡ ok r
      → or_no_rows (net.get k r.1)
        ≡ or_no_rows (net.get k filed) ++ (if same key k then at ∷ [] else [])
  unfolding file_range
  get-file_range b filed key at k e = elim (Option-cases (net.get key filed)) [
    | inl absent ↦
        let (charged, got, e₁) =
          >>=-eq-ok (charge b alloc.prefix_entry_bytes) _ (rw (absent, file_range) at e) in
        let (pushed, put, e₂) = >>=-eq-ok (push alloc charged [] at) _ e₁ in
        get-inserted filed key k at [] pushed.1 _ (rw absent) (push-eq-ok alloc charged [] at put)
          (sym (ap (λ r. r.1) (ok-injective e₂)))
    | inr (list, there) ↦
        let (pushed, put, e₁) = >>=-eq-ok (push alloc b list at) _ (rw (there, file_range) at e) in
        get-inserted filed key k at list pushed.1 _ (rw there) (push-eq-ok alloc b list at put)
          (sym (ap (λ r. r.1) (ok-injective e₁)))
  ]

  pub get-file_prefix :
      (rows : List (List Cell)) (at : ℕ) (b : Budget) (filed : PrefixMap) (unindexed : List ℕ)
      (k : IpNet) {r : Budget × PrefixMap × List ℕ}
      → file_prefix net alloc key_column at rows b filed unindexed ≡ ok r
      → (or_no_rows (net.get k r.1)
          ≡ or_no_rows (net.get k filed) ++ rows_under (as_prefix net) same k key_column at rows)
        × (r.2 ≡ unindexed ++ rows_unparsed (as_prefix net) key_column at rows)
  unfolding file_prefix
  get-file_prefix [] at b filed unindexed k e = (
    rw append-nil (ap (λ r. or_no_rows (net.get k r.1)) (sym (ok-injective e))),
    rw append-nil (ap (λ r. r.2) (sym (ok-injective e))),
  )
  get-file_prefix (row ∷ rows) at b filed unindexed k e =
      elim (Option-cases (cell row key_column)) [
        | inl absent ↦
            rw absent
              (get-file_prefix rows (suc at) b filed unindexed k (rw (absent, file_prefix) at e))
        | inr (raw, there) ↦ elim (Option-cases (as_prefix net raw)) [
          | inl refused ↦
              let (s, got, later) =
                >>=-eq-ok (push alloc b unindexed at) _ (rw (there, file_prefix, refused) at e) in
              let rest : List ℕ = rows_unparsed (as_prefix net) key_column (suc at) rows in
              let (found, kept) = get-file_prefix rows (suc at) s.0 filed s.1 k later in
              (
                rw (there, refused) found,
                kept
                    ∙ ap (λ l. l ++ rest) (push-eq-ok alloc b unindexed at got)
                    ∙ rw (there, refused) (append_assoc unindexed (at ∷ []) rest),
              )
          | inr (key, parsed) ↦
              let (s, got, later) =
                >>=-eq-ok (file_range net alloc b filed key at) _
                  (rw (there, file_prefix, parsed) at e) in
              let rest : List ℕ = rows_under (as_prefix net) same k key_column (suc at) rows in
              let (found, kept) = get-file_prefix rows (suc at) s.0 s.1 unindexed k later in
              (
                found
                    ∙ ap (λ l. l ++ rest) (get-file_range b filed key at k got)
                    ∙ rw (there, parsed)
                        (append_if (same key k) (or_no_rows (net.get k filed)) rest at),
                rw (there, parsed) kept,
              )
        ]
      ]
