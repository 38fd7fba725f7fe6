-- ===== src/Table/Query/Find.antt =====
-- What a query answers: the rows that satisfy it, each once and in file order, however the index
-- narrows the search.
use mathlib.Core.Path.{subst}
use native.Mathlib.Nat.{zero-add}
use factbook_rs.Net.Networks.{Networks}
use factbook_rs.Prelude.{
  ℕ, suc, ◌≡◌, refl, ap, ◌∙◌, true, false, not, Option, none, some, List, [], arith, length,
  get_elem?, if◌then◌else◌, Bool-cases, Option-cases, inl, inr,
}
use factbook_rs.Table.Build.Indexed.{IsIndexed}
use factbook_rs.Table.Build.{Table, map_option}
use factbook_rs.Table.Positions.{positions_where}
use factbook_rs.Table.Query.Collect.{collect-Enumerates}
use factbook_rs.Table.Query.Narrow.{narrowed-lists_of, key_tests, key_tests-covers}
use factbook_rs.Table.Query.Walks.{Enumerates, passes, listed-Enumerates, all_rows-Enumerates}
use factbook_rs.Table.Query.{
  Reading, Query, all_rows, key_value, narrow, narrowed, satisfies, resolve, walk_of, nothing, find,
  collect, pop, next, lowest,
}

module _ (reading : Reading) (net : Networks) where
  -- The specification: every row tested in turn, or no row if a condition's column is missing.
  abbrev pub answer : Table net → Query reading → Option (List ℕ) → List ℕ
  answer t q none = []
  answer t q (some plan) = positions_where (satisfies reading q plan) 0 t.rows

  module _ (t : Table net) (q : Query reading) (plan : List ℕ) where
    abbrev walked : Option (List (List ℕ)) → Option (List ℕ)
    walked lists =
        collect reading net t q (suc (length t.rows))
          (record { plan = plan; walk = walk_of reading net t lists })

    scanned : walked none ≡ some (answer t q (some plan))
    scanned =
        collect-Enumerates reading net t q plan (λ cells. true) t.rows 0
          (all_rows 0 (length t.rows)) (suc (length t.rows)) (λ cells s. refl)
          (λ i. ap (get_elem? t.rows) (omega arith))
          (subst (λ n. Enumerates (λ cells. true) 0 t.rows (all_rows 0 n))
            (zero-add (length t.rows)) (all_rows-Enumerates t.rows 0))
          (omega arith)

    merged :
        (value : _)
        → IsIndexed net t
        → q.case_sensitive ≡ true
        → key_value reading t.key_column q.conditions plan ≡ some value
        → walked (some (narrowed reading net t.keys value q.wildcard))
          ≡ some (answer t q (some plan))
    merged value h exact k =
        rw (narrowed-lists_of reading net t.keys t.key_column t.rows value q.wildcard h) (
          let ps = key_tests reading net t.keys value q.wildcard t.key_column in
          collect-Enumerates reading net t q plan (passes ps) t.rows 0 _ (suc (length t.rows))
            (λ cells s.
              key_tests-covers reading net t.keys t.key_column q plan value cells exact k s)
            (λ i. ap (get_elem? t.rows) (omega arith)) (listed-Enumerates ps t.rows 0)
            (omega arith))

    -- what a comparison that is exact narrows to
    abbrev under_key : Option (List (List ℕ))
    under_key =
        map_option (λ value. narrowed reading net t.keys value q.wildcard)
          (key_value reading t.key_column q.conditions plan)

    narrow_folding : q.case_sensitive ≡ false → narrow reading net t q plan ≡ none
    unfolding narrow
    narrow_folding folding = ap (λ b. if not b then none else under_key) folding

    narrow_exact : q.case_sensitive ≡ true → narrow reading net t q plan ≡ under_key
    unfolding narrow
    narrow_exact exact = ap (λ b. if not b then none else under_key) exact

    narrowed_walk :
        IsIndexed net t → walked (narrow reading net t q plan) ≡ some (answer t q (some plan))
    narrowed_walk h = elim (Bool-cases q.case_sensitive) [
      | inr folding ↦ ap walked (narrow_folding folding) ∙ scanned
      | inl exact ↦
          ap walked (narrow_exact exact)
          ∙ (elim (Option-cases (key_value reading t.key_column q.conditions plan)) [
            | inl no_key ↦ rw no_key scanned
            | inr (value, k) ↦ rw k (merged value h exact k)
          ])
    ]

  nothing_found :
      (t : Table net) (q : Query reading) (rounds : ℕ)
      → collect reading net t q (suc rounds) (record { plan = []; walk = nothing }) ≡ some []
  unfolding collect next pop lowest
  nothing_found t q rounds = refl

  -- On a table whose index is right, the rows that a query hands back are those that satisfy all of
  -- its conditions when every row is tested in turn, each once and in file order, and none if a
  -- condition names a column that the table does not have. `next` never reads past the rows, and as
  -- many rounds as the walk has positions are enough for it.
  pub collect-find :
      (t : Table net) (q : Query reading)
      → IsIndexed net t
      → collect reading net t q (suc (length t.rows)) (find reading net t q)
        ≡ some (answer t q (resolve reading net t q.conditions))
  unfolding find
  collect-find t q h = elim (Option-cases (resolve reading net t q.conditions)) [
    | inl missing ↦ rw missing (nothing_found t q (length t.rows))
    | inr (plan, found) ↦ rw found (narrowed_walk t q plan h)
  ]
