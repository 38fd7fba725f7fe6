-- ===== src/Table/Build/Filed.antt =====
-- The index that `build` makes is the specification's: under each key stand the positions of its
-- rows in file order, and beside it the positions of the rows whose key does not parse.
use factbook_rs.Net.Address.{IpAddr-Eq}
use factbook_rs.Prelude.Keyed
use factbook_rs.Prelude.Keyed.{Eq, get-insert}
use factbook_rs.Prelude.{
  ℕ, ◌≡◌, sym, ap, ◌∙◌, Option, none, some, List, [], ◌∷◌, ◌++◌, append-nil, arith, if◌then◌else◌,
  inl, inr, Bool-cases,
}
use factbook_rs.Table.Build.{or_no_rows}
use factbook_rs.Table.Error.{ok, >>=-eq-ok, ok-injective}
use factbook_rs.Table.Index.{Allocation, Budget, Text-Eq, charge, paid, push, entry, file}

paid-eq-ok {ℓ} :
    {A : Type ℓ} (b : Budget) (bytes : ℕ) (a : A) {r : Budget × A} → paid b bytes a ≡ ok r → r.1 ≡ a
unfolding paid charge
paid-eq-ok b bytes a e = ground arith

module _ (alloc : Allocation) where
  pub push-eq-ok :
      (b : Budget) (list : List ℕ) (at : ℕ) {r : Budget × List ℕ}
      → push alloc b list at ≡ ok r
      → r.1 ≡ list ++ at ∷ []
  unfolding push
  push-eq-ok b list at e = paid-eq-ok b _ (list ++ at ∷ []) e

  entry-eq-ok :
      (b : Budget) (key_bytes : ℕ) (found : Option (List ℕ)) {r : Budget × List ℕ}
      → entry alloc b key_bytes found ≡ ok r
      → r.1 ≡ or_no_rows found
  unfolding entry
  entry-eq-ok b key_bytes none e = paid-eq-ok b key_bytes [] e
  entry-eq-ok b key_bytes (some list) e = sym (ap (λ r. r.1) (ok-injective e))

  module _ {ℓ} {K : Type ℓ} ⦃k_eq : Eq K⦄ where
    file-eq-ok :
        (b : Budget) (filed : List (K × List ℕ)) (entry_bytes : ℕ) (key : K) (key_bytes at : ℕ)
        {r : Budget × List (K × List ℕ)}
        → file alloc b filed entry_bytes key key_bytes at ≡ ok r
        → r.1 ≡ Keyed.insert key (or_no_rows (Keyed.get key filed) ++ at ∷ []) filed
    unfolding file
    file-eq-ok b filed entry_bytes key key_bytes at e =
        let (opened, got, e₁) = >>=-eq-ok (entry alloc b key_bytes (Keyed.get key filed)) _ e in
        let (pushed, put, e₂) = >>=-eq-ok (push alloc opened.0 opened.1 at) _ e₁ in
        paid-eq-ok pushed.0 _ (Keyed.insert key pushed.1 filed) e₂
        ∙ ap (λ l. Keyed.insert key l filed)
            (push-eq-ok opened.0 opened.1 at put
              ∙ ap (λ l. l ++ at ∷ []) (entry-eq-ok b key_bytes (Keyed.get key filed) got))

    pub get-file :
        (b : Budget) (filed : List (K × List ℕ)) (entry_bytes : ℕ) (key : K) (key_bytes at : ℕ)
        (k : K) {r : Budget × List (K × List ℕ)}
        → file alloc b filed entry_bytes key key_bytes at ≡ ok r
        → or_no_rows (Keyed.get k r.1)
          ≡ or_no_rows (Keyed.get k filed) ++ (if k_eq.beq key k then at ∷ [] else [])
    get-file b filed entry_bytes key key_bytes at k e =
        rw (file-eq-ok b filed entry_bytes key key_bytes at e, get-insert)
          (elim (Bool-cases (k_eq.beq key k)) [
            | inl same ↦ rw (same, (k_eq.beq_iff key k).0 same)
            | inr other ↦ rw (other, append-nil)
          ])
