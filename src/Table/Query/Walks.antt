-- ===== src/Table/Query/Walks.antt =====
-- A walk hands out, lowest first and each once, the positions of the rows that pass a test.
use factbook_rs.Prelude.{
  ℕ, suc, ◌+◌, ◌≤◌, ◌<◌, ◌≡◌, refl, ap, Bool, true, false, Option, none, some, List, [], ◌∷◌, map,
  arith, length, head?, any, Bool-cases, inl, inr,
}
use factbook_rs.Table.Positions.{positions_where}
use factbook_rs.Table.Query.{
  Walk, all_rows, listed, lower, lowest, advance, pop, total_length, remaining,
}

-- the next position is `n` if the test passes, and the walk goes on as `Rest` says
abbrev pub HandsOut : Bool → ℕ → (Walk → Type 0) → Walk → Type 0
HandsOut true n Rest walk =
    (after : Walk) × (pop walk ≡ some (n, after)) × (remaining after < remaining walk) × Rest after
HandsOut false n Rest walk = Rest walk

-- The walk hands out the positions of the elements of `xs`, counted from `n`, that pass `p`.
abbrev pub Enumerates {ℓ} : {A : Type ℓ} → (A → Bool) → ℕ → List A → Walk → Type 0
Enumerates p n [] walk = pop walk ≡ none
Enumerates p n (x ∷ xs) walk = HandsOut (p x) n (Enumerates p (suc n) xs) walk

-- at or behind `n`, if there is one
abbrev AtLeast : ℕ → Option ℕ → Type 0
AtLeast n none = Unit
AtLeast n (some m) = n ≤ m

AtLeast-lower : (n : ℕ) (x y : Option ℕ) → AtLeast n x → AtLeast n y → AtLeast n (lower x y)
AtLeast-lower n none y h k = k
AtLeast-lower n (some x) none h k = h
AtLeast-lower n (some x) (some y) h k = omega arith

lower_first : (n : ℕ) (y : Option ℕ) → AtLeast n y → lower (some n) y ≡ some n
lower_first n none h = refl
lower_first n (some y) h = ground arith

lower_second : (n : ℕ) (x : Option ℕ) → AtLeast n x → lower x (some n) ≡ some n
lower_second n none h = refl
lower_second n (some x) h = ground arith

advance-AtLeast : (n : ℕ) (l : List ℕ) → AtLeast (suc n) (head? l) → advance n l ≡ l
advance-AtLeast n [] h = refl
advance-AtLeast n (x ∷ l) h = ground arith

module _ {ℓ} {A : Type ℓ} where
  abbrev pub lists_of : List (A → Bool) → ℕ → List A → List (List ℕ)
  lists_of ps n xs = map (λ p. positions_where p n xs) ps

  abbrev pub passes : List (A → Bool) → A → Bool
  passes ps x = any (λ p. p x) ps

  head?-positions_where :
      (p : A → Bool) (n : ℕ) (xs : List A) (m : ℕ)
      → m ≤ n
      → AtLeast m (head? (positions_where p n xs))
  head?-positions_where p n [] m h = tt
  head?-positions_where p n (x ∷ xs) m h = ground (arith, head?-positions_where p (suc n) xs m)

  lowest-AtLeast :
      (ps : List (A → Bool)) (n : ℕ) (xs : List A) → AtLeast n (lowest (lists_of ps n xs))
  unfolding lowest
  lowest-AtLeast [] n xs = tt
  lowest-AtLeast (p ∷ ps) n xs =
      AtLeast-lower n _ _ (head?-positions_where p n xs n (omega arith)) (lowest-AtLeast ps n xs)

  lowest-first :
      (ps : List (A → Bool)) (n : ℕ) (x : A) (xs : List A)
      → passes ps x ≡ true
      → lowest (lists_of ps n (x ∷ xs)) ≡ some n
  unfolding lowest
  lowest-first [] n x xs h = cc
  lowest-first (p ∷ ps) n x xs h = elim (Bool-cases (p x)) [
    | inl here ↦ rw here (lower_first n _ (lowest-AtLeast ps n (x ∷ xs)))
    | inr later ↦
        rw (later, lowest-first ps n x xs (rw later at h))
          (lower_second n _ (head?-positions_where p (suc n) xs n (omega arith)))
  ]

  advance-first :
      (p : A → Bool) (n : ℕ) (x : A) (xs : List A)
      → advance n (positions_where p n (x ∷ xs)) ≡ positions_where p (suc n) xs
  advance-first p n x xs = elim (Bool-cases (p x)) [
    | inl here ↦ rw here (ground arith)
    | inr later ↦
        rw later (advance-AtLeast n _ (head?-positions_where p (suc n) xs (suc n) (omega arith)))
  ]

  map-advance :
      (ps : List (A → Bool)) (n : ℕ) (x : A) (xs : List A)
      → map (advance n) (lists_of ps n (x ∷ xs)) ≡ lists_of ps (suc n) xs
  map-advance [] n x xs = refl
  map-advance (p ∷ ps) n x xs = rw (advance-first p n x xs, map-advance ps n x xs)

  lists_of-skip :
      (ps : List (A → Bool)) (n : ℕ) (x : A) (xs : List A)
      → passes ps x ≡ false
      → lists_of ps n (x ∷ xs) ≡ lists_of ps (suc n) xs
  lists_of-skip [] n x xs h = refl
  lists_of-skip (p ∷ ps) n x xs h = elim (Bool-cases (p x)) [
    | inl here ↦ absurd (cc (rw here at h))
    | inr later ↦
        rw later (ap (◌∷◌ (positions_where p (suc n) xs)) (lists_of-skip ps n x xs (rw later at h)))
  ]

  total_length-le :
      (ps : List (A → Bool)) (n : ℕ) (x : A) (xs : List A)
      → total_length (lists_of ps (suc n) xs) ≤ total_length (lists_of ps n (x ∷ xs))
  total_length-le [] n x xs = omega arith
  total_length-le (p ∷ ps) n x xs = ground (arith, total_length-le ps n x xs)

  total_length-lt :
      (ps : List (A → Bool)) (n : ℕ) (x : A) (xs : List A)
      → passes ps x ≡ true
      → total_length (lists_of ps (suc n) xs) < total_length (lists_of ps n (x ∷ xs))
  total_length-lt [] n x xs h = cc
  total_length-lt (p ∷ ps) n x xs h =
      ground (arith, total_length-le ps n x xs, total_length-lt ps n x xs)

  lowest-none : (ps : List (A → Bool)) (n : ℕ) → lowest (lists_of ps n []) ≡ none
  unfolding lowest
  lowest-none [] n = refl
  lowest-none (p ∷ ps) n = lowest-none ps n

  -- The lists that an index narrows to are merged: each row that one of the tests passes is handed
  -- out once, in file order.
  pub listed-Enumerates :
      (ps : List (A → Bool)) (xs : List A) (n : ℕ)
      → Enumerates (passes ps) n xs (listed (lists_of ps n xs))
  unfolding pop remaining
  listed-Enumerates ps [] n = rw (lowest-none ps n)
  listed-Enumerates ps (x ∷ xs) n = elim (Bool-cases (passes ps x)) [
    | inl here ↦ rw here (
      listed (lists_of ps (suc n) xs),
      rw (lowest-first ps n x xs here, map-advance ps n x xs),
      total_length-lt ps n x xs here,
      listed-Enumerates ps xs (suc n),
    )
    | inr later ↦ rw (later, lists_of-skip ps n x xs later) (listed-Enumerates ps xs (suc n))
  ]

  -- The walk over the whole table hands out every row.
  pub all_rows-Enumerates :
      (xs : List A) (n : ℕ) → Enumerates (λ x. true) n xs (all_rows n (n + length xs))
  unfolding pop remaining
  all_rows-Enumerates [] n = ground arith
  all_rows-Enumerates (x ∷ xs) n = (
    all_rows (suc n) (suc n + length xs),
    ground arith,
    omega arith,
    all_rows-Enumerates xs (suc n),
  )
