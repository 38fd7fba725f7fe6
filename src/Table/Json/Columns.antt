-- ===== src/Table/Json/Columns.antt =====
-- The columns of a JSON table stay sorted, and a key is inserted if and only if it is new.
use mathlib.Core.Option.{some-injective}
use factbook_rs.Prelude.Text.{Text, text_eq, text_eq_iff}
use factbook_rs.Prelude.{
  ℕ, suc, ◌≤◌, ◌≡◌, refl, sym, Bool, true, false, ◌||◌, Option, none, some, List, [], ◌∷◌, All,
  arith, length, any, Bool-cases, inl, inr,
}
use factbook_rs.Table.Index.{shifted}
use factbook_rs.Table.Json.{text_lt, insertion, insert_at}

text_lt_trans : (a b c : Text) → text_lt a b ≡ true → text_lt b c ≡ true → text_lt a c ≡ true
unfolding text_lt
text_lt_trans (x ∷ a) (y ∷ b) (z ∷ c) h k = ground (arith, text_lt_trans a b c)
text_lt_trans _ _ _ h k = ground arith

text_lt_irrefl : (a : Text) → text_lt a a ≡ false
unfolding text_lt
text_lt_irrefl [] = refl
text_lt_irrefl (x ∷ a) = ground (arith, text_lt_irrefl a)

text_lt_total : (a b : Text) → text_lt a b ≡ false → text_eq a b ≡ false → text_lt b a ≡ true
unfolding text_lt text_eq
text_lt_total (x ∷ a) (y ∷ b) h k = ground (arith, text_lt_total a b)
text_lt_total _ _ h k = ground arith

-- each name before all that follow
abbrev pub Ascending : List Text → Type 0
Ascending [] = Unit
Ascending (c ∷ cs) = All (λ d. text_lt c d ≡ true) cs × Ascending cs

-- a name behind `key` is not among those that `key` stands before
absent :
    (key : Text) (cs : List Text)
    → All (λ d. text_lt key d ≡ true) cs
    → any (text_eq key) cs ≡ false
absent key [] h = refl
absent key (c ∷ cs) h = elim (Bool-cases (text_eq key c)) [
  | inr differ ↦ rw differ (absent key cs h.1)
  | inl same ↦ absurd (cc (rw (← (text_eq_iff key c).0 same, text_lt_irrefl) at h.0))
]

All-trans :
    (key c : Text) (cs : List Text)
    → text_lt key c ≡ true
    → All (λ d. text_lt c d ≡ true) cs
    → All (λ d. text_lt key d ≡ true) cs
All-trans key c [] h k = tt
All-trans key c (d ∷ cs) h k = (text_lt_trans key c d h k.0, All-trans key c cs h k.1)

pub text_eq-sym : (a b : Text) → text_eq a b ≡ text_eq b a
text_eq-sym a b = ground (arith, text_eq_iff a b, text_eq_iff b a)

shifted-some : (o : Option ℕ) (n : ℕ) → shifted o ≡ some n → (m : ℕ) × (o ≡ some m) × (n ≡ suc m)
shifted-some none n e = cc
shifted-some (some m) n e = (m, refl, sym (some-injective (suc m) n e))

shifted-none : (o : Option ℕ) → shifted o ≡ none → o ≡ none
shifted-none none e = refl
shifted-none (some m) e = cc

lt_differ : (c key : Text) → text_lt c key ≡ true → text_eq key c ≡ false
lt_differ c key h = elim (Bool-cases (text_eq key c)) [
  | inr differ ↦ differ
  | inl same ↦ absurd (cc (rw ((text_eq_iff key c).0 same, text_lt_irrefl) at h))
]

or_swap : (a b c : Bool) → (a || (b || c)) ≡ (b || (a || c))
or_swap true true c = refl
or_swap true false c = refl
or_swap false b c = refl

-- What an insertion does to the columns.
pub record Inserts (key : Text) (at : ℕ) (cs : List Text) : Type 0 where
  pub new_key : any (text_eq key) cs ≡ false
  pub in_range : at ≤ length cs
  pub sorted : Ascending (insert_at at key cs)
  pub above :
      (c : Text)
      → text_lt c key ≡ true
      → All (λ d. text_lt c d ≡ true) cs
      → All (λ d. text_lt c d ≡ true) (insert_at at key cs)
  pub names :
      (k : Text) → any (text_eq k) (insert_at at key cs) ≡ (text_eq k key || any (text_eq k) cs)

pub insertion-Inserts :
    (key : Text) (cs : List Text) (at : ℕ)
    → Ascending cs
    → insertion key cs ≡ some at
    → Inserts key at cs
unfolding insertion insert_at
insertion-Inserts key [] at s e = rw (← some-injective 0 at e) (record {
  new_key = refl;
  in_range = omega arith;
  sorted = (tt, tt);
  above = λ c h k. (h, tt);
  names = λ k. refl;
})
insertion-Inserts key (c ∷ cs) at s e = elim (Bool-cases (text_lt c key)) [
  | inl before ↦
      let (n, found, shift) = shifted-some (insertion key cs) at (rw before at e) in
      let i = insertion-Inserts key cs n s.1 found in
      rw shift (record {
        new_key = rw (lt_differ c key before) i.new_key;
        in_range = (let le = i.in_range in omega arith);
        sorted = (i.above c before s.0, i.sorted);
        above = λ d h k. (k.0, i.above d h k.1);
        names = λ k. rw (i.names k) (or_swap (text_eq k c) (text_eq k key) (any (text_eq k) cs));
      })
  | inr behind ↦ elim (Bool-cases (text_eq c key)) [
    | inl same ↦ absurd (cc (rw (behind, same) at e))
    | inr differ ↦
        let first = text_lt_total c key behind differ in
        let behind_all : All (λ d. text_lt key d ≡ true) (c ∷ cs) =
          (first, All-trans key c cs first s.0) in
        rw (← some-injective 0 at (rw (behind, differ) at e)) (record {
          new_key = absent key (c ∷ cs) behind_all;
          in_range = omega arith;
          sorted = (behind_all, s);
          above = λ d h k. (h, k);
          names = λ k. refl;
        })
  ]
]

pub insertion-none :
    (key : Text) (cs : List Text) → insertion key cs ≡ none → any (text_eq key) cs ≡ true
unfolding insertion
insertion-none key [] e = cc
insertion-none key (c ∷ cs) e = elim (Bool-cases (text_lt c key)) [
  | inl before ↦
      rw (insertion-none key cs (shifted-none (insertion key cs) (rw before at e)))
        (elim (Bool-cases (text_eq key c)) [ inl same ↦ rw same | inr differ ↦ rw differ ])
  | inr behind ↦ elim (Bool-cases (text_eq c key)) [
    | inl same ↦ rw (text_eq-sym key c, same)
    | inr differ ↦ absurd (cc (rw (behind, differ) at e))
  ]
]
