-- ===== src/Table/Build/Nonempty.antt =====
-- A prefix index files no network without rows.
use factbook_rs.Net.Networks.{Networks}
use factbook_rs.Prelude.{
  ℕ, suc, ◌≡◌, ◌≢◌, ap, some, List, [], ◌∷◌, ◌++◌, inl, inr, Bool-cases, Option-cases,
}
use factbook_rs.Table.Build.Filed.{push-eq-ok}
use factbook_rs.Table.Build.{file_range, file_prefix, as_prefix}
use factbook_rs.Table.Cell.{Cell, cell}
use factbook_rs.Table.Error.{ok, >>=-eq-ok, ok-injective}
use factbook_rs.Table.Index.{Allocation, Budget, charge, push}
use mathlib.Core.Path.{subst}

snoc_nonempty : (list : List ℕ) (at : ℕ) → some (list ++ at ∷ []) ≢ some []
snoc_nonempty [] at e = cc
snoc_nonempty (x ∷ list) at e = cc

module _ (net : Networks) where
  open net use {IpNet, PrefixMap, same}

  abbrev pub NoneEmpty : PrefixMap → Type 0
  NoneEmpty m = (k : IpNet) → net.get k m ≢ some []

  pub none_filed-NoneEmpty : NoneEmpty net.none_filed
  none_filed-NoneEmpty k e = cc (net.get-none_filed k)

  insert-NoneEmpty :
      (m : PrefixMap) (key : IpNet) (list longer : List ℕ) (at : ℕ)
      → longer ≡ list ++ at ∷ []
      → NoneEmpty m
      → NoneEmpty (net.insert key longer m)
  insert-NoneEmpty m key list longer at grown h k e = elim (Bool-cases (same key k)) [
    | inl equal ↦ snoc_nonempty list at (rw (net.get-insert, equal, grown) at e)
    | inr other ↦ h k (rw (net.get-insert, other) at e)
  ]

  module _ (alloc : Allocation) (key_column : ℕ) where
    file_range-NoneEmpty :
        (b : Budget) (filed : PrefixMap) (key : IpNet) (at : ℕ) {r : Budget × PrefixMap}
        → file_range net alloc b filed key at ≡ ok r
        → NoneEmpty filed
        → NoneEmpty r.1
    unfolding file_range
    file_range-NoneEmpty b filed key at e h = elim (Option-cases (net.get key filed)) [
      | inl absent ↦
          let (charged, got, e₁) =
            >>=-eq-ok (charge b alloc.prefix_entry_bytes) _ (rw (absent, file_range) at e) in
          let (pushed, put, e₂) = >>=-eq-ok (push alloc charged [] at) _ e₁ in
          subst NoneEmpty (ap (λ r. r.1) (ok-injective e₂))
            (insert-NoneEmpty filed key [] pushed.1 at (push-eq-ok alloc charged [] at put) h)
      | inr (list, there) ↦
          let (pushed, put, e₁) =
            >>=-eq-ok (push alloc b list at) _ (rw (there, file_range) at e) in
          subst NoneEmpty (ap (λ r. r.1) (ok-injective e₁))
            (insert-NoneEmpty filed key list pushed.1 at (push-eq-ok alloc b list at put) h)
    ]

    pub file_prefix-NoneEmpty :
        (rows : List (List Cell)) (at : ℕ) (b : Budget) (filed : PrefixMap) (unindexed : List ℕ)
        {r : Budget × PrefixMap × List ℕ}
        → file_prefix net alloc key_column at rows b filed unindexed ≡ ok r
        → NoneEmpty filed
        → NoneEmpty r.1
    unfolding file_prefix
    file_prefix-NoneEmpty [] at b filed unindexed e h =
        subst NoneEmpty (ap (λ r. r.1) (ok-injective e)) h
    file_prefix-NoneEmpty (row ∷ rows) at b filed unindexed e h =
        elim (Option-cases (cell row key_column)) [
          | inl absent ↦
              file_prefix-NoneEmpty rows (suc at) b filed unindexed (rw (absent, file_prefix) at e)
                h
          | inr (raw, there) ↦ elim (Option-cases (as_prefix net raw)) [
            | inl refused ↦
                let (s, got, later) =
                  >>=-eq-ok (push alloc b unindexed at) _ (rw (there, file_prefix, refused) at e) in
                file_prefix-NoneEmpty rows (suc at) s.0 filed s.1 later h
            | inr (key, parsed) ↦
                let (s, got, later) =
                  >>=-eq-ok (file_range net alloc b filed key at) _
                    (rw (there, file_prefix, parsed) at e) in
                file_prefix-NoneEmpty rows (suc at) s.0 s.1 unindexed later
                  (file_range-NoneEmpty b filed key at got h)
          ]
        ]
