-- ===== src/Table/Query/Collect.antt =====
-- The rows that `Matches` hands back, for any walk that hands out enough positions.
use native.Mathlib.Nat.{add-zero}
use factbook_rs.Net.Networks.{Networks}
use factbook_rs.Prelude.{
  ℕ, zero, suc, ◌+◌, ◌<◌, ◌≡◌, refl, sym, ap, ◌∙◌, Bool, true, false, Option, none, some, List, [],
  ◌∷◌, arith, length, get_elem?, Bool-cases, inl, inr,
}
use factbook_rs.Table.Build.{Table, map_option}
use factbook_rs.Table.Cell.{Cell}
use factbook_rs.Table.Positions.{positions_where}
use factbook_rs.Table.Query.Walks.{Enumerates}
use factbook_rs.Table.Query.{Reading, Query, Walk, pop, remaining, satisfies, Next, next, collect}

module _ (reading : Reading) (net : Networks) (t : Table net) (q : Query reading) (plan : List ℕ)
    (p : List Cell → Bool) where
  -- `xs` is what the table's rows are from position `n` on.
  abbrev RowsFrom : ℕ → List (List Cell) → Type 0
  RowsFrom n xs = (i : ℕ) → get_elem? t.rows (n + i) ≡ get_elem? xs i

  RowsFrom-head :
      (n : ℕ) (x : List Cell) (xs : List (List Cell))
      → RowsFrom n (x ∷ xs)
      → get_elem? t.rows n ≡ some x
  RowsFrom-head n x xs r = rw (← add-zero n) (r 0)

  RowsFrom-tail :
      (n : ℕ) (x : List Cell) (xs : List (List Cell)) → RowsFrom n (x ∷ xs) → RowsFrom (suc n) xs
  RowsFrom-tail n x xs r i = ap (get_elem? t.rows) (omega arith) ∙ r (suc i)

  -- The walk hands out every row that satisfies the query.
  abbrev Suffices : Type 0
  Suffices = (cells : List Cell) → satisfies reading q plan cells ≡ true → p cells ≡ true

  abbrev round : ℕ → Walk → Next reading net
  round fuel walk = next reading net t q fuel plan walk

  abbrev gathered : ℕ → Walk → Option (List ℕ)
  gathered rounds walk = collect reading net t q rounds (record { plan = plan; walk = walk })

  next_done : (fuel : ℕ) (walk : Walk) → pop walk ≡ none → round (suc fuel) walk ≡ Next.finished
  unfolding next
  next_done fuel walk e = rw (e, next)

  next_take :
      (fuel n : ℕ) (x : List Cell) (walk after : Walk)
      → pop walk ≡ some (n, after)
      → get_elem? t.rows n ≡ some x
      → satisfies reading q plan x ≡ true
      → round (suc fuel) walk ≡ Next.found n (record { plan = plan; walk = after })
  unfolding next
  next_take fuel n x walk after e r s = rw (e, next, r, s)

  next_skip :
      (fuel n : ℕ) (x : List Cell) (walk after : Walk)
      → pop walk ≡ some (n, after)
      → get_elem? t.rows n ≡ some x
      → satisfies reading q plan x ≡ false
      → round (suc fuel) walk ≡ round fuel after
  unfolding next
  next_skip fuel n x walk after e r s = rw (e, next, r, s)

  -- Any fuel above the positions left gives the same answer.
  next-fuel :
      (xs : List (List Cell)) (n : ℕ) (walk : Walk) (fuel more : ℕ)
      → RowsFrom n xs
      → Enumerates p n xs walk
      → remaining walk < fuel
      → remaining walk < more
      → round fuel walk ≡ round more walk
  next-fuel xs n walk zero more r e h k = elim h [ ]
  next-fuel xs n walk (suc fuel) zero r e h k = elim k [ ]
  next-fuel [] n walk (suc fuel) (suc more) r e h k =
      next_done fuel walk e ∙ sym (next_done more walk e)
  next-fuel (x ∷ xs) n walk (suc fuel) (suc more) r e h k = elim (Bool-cases (p x)) [
    | inr passed_over ↦
        next-fuel xs (suc n) walk (suc fuel) (suc more) (RowsFrom-tail n x xs r)
          (rw passed_over at e) h k
    | inl handed_out ↦
        let (after, popped, less, rest) = rw handed_out at e in
        let here = RowsFrom-head n x xs r in
        elim (Bool-cases (satisfies reading q plan x)) [
          | inl yes_row ↦
              next_take fuel n x walk after popped here yes_row
              ∙ sym (next_take more n x walk after popped here yes_row)
          | inr no_row ↦
              next_skip fuel n x walk after popped here no_row
              ∙ next-fuel xs (suc n) after fuel more (RowsFrom-tail n x xs r) rest (omega arith)
                  (omega arith)
              ∙ sym (next_skip more n x walk after popped here no_row)
        ]
  ]

  collect_done : (rounds : ℕ) (walk : Walk) → pop walk ≡ none → gathered (suc rounds) walk ≡ some []
  unfolding collect
  collect_done rounds walk e = rw (next_done (remaining walk) walk e, collect)

  collect_take :
      (rounds n : ℕ) (walk after : Walk)
      → round (suc (remaining walk)) walk ≡ Next.found n (record { plan = plan; walk = after })
      → gathered (suc rounds) walk ≡ map_option (◌∷◌ n) (gathered rounds after)
  unfolding collect
  collect_take rounds n walk after e = rw (e, collect)

  collect_skip :
      (rounds : ℕ) (walk after : Walk)
      → round (suc (remaining walk)) walk ≡ round (suc (remaining after)) after
      → gathered rounds walk ≡ gathered rounds after
  unfolding collect
  collect_skip zero walk after e = refl
  collect_skip (suc rounds) walk after e = rw (e, collect)

  -- All of it: the rows handed back are those that satisfy the query, in file order.
  pub collect-Enumerates :
      (xs : List (List Cell)) (n : ℕ) (walk : Walk) (rounds : ℕ)
      → Suffices
      → RowsFrom n xs
      → Enumerates p n xs walk
      → length xs < rounds
      → gathered rounds walk ≡ some (positions_where (satisfies reading q plan) n xs)
  collect-Enumerates xs n walk zero s r e h = elim h [ ]
  collect-Enumerates [] n walk (suc rounds) s r e h = collect_done rounds walk e
  collect-Enumerates (x ∷ xs) n walk (suc rounds) s r e h = elim (Bool-cases (p x)) [
    | inr passed_over ↦ elim (Bool-cases (satisfies reading q plan x)) [
      | inl yes_row ↦ absurd (cc (s x yes_row))
      | inr no_row ↦ rw no_row (
          collect-Enumerates xs (suc n) walk (suc rounds) s (RowsFrom-tail n x xs r)
            (rw passed_over at e) (omega arith))
    ]
    | inl handed_out ↦
        let (after, popped, less, rest) = rw handed_out at e in
        let here = RowsFrom-head n x xs r in
        let later = RowsFrom-tail n x xs r in
        elim (Bool-cases (satisfies reading q plan x)) [
          | inl yes_row ↦ rw yes_row (
              collect_take rounds n walk after
                (next_take (remaining walk) n x walk after popped here yes_row)
              ∙ ap (map_option (◌∷◌ n))
                  (collect-Enumerates xs (suc n) after rounds s later rest (omega arith)))
          | inr no_row ↦ rw no_row (
              collect_skip (suc rounds) walk after (
                next_skip (remaining walk) n x walk after popped here no_row
                ∙ next-fuel xs (suc n) after (remaining walk) (suc (remaining after)) later rest
                    less (omega arith))
              ∙ collect-Enumerates xs (suc n) after (suc rounds) s later rest (omega arith))
        ]
  ]
