-- ===== src/Tests/World.antt =====
-- A small instance of each interface: networks as lists of numbers, the shorter lists holding the
-- longer ones that they begin, and a prefix map as an association list.
use mathlib.Core.Option.{some-injective}
use mathlib.Core.Path.{subst}
use factbook_rs.Net.Address.{IpAddr, v4, v6}
use factbook_rs.Net.Networks.{Networks}
use factbook_rs.Prelude.Keyed
use factbook_rs.Prelude.Text.{Text, text_eq, text_eq_iff}
use factbook_rs.Prelude.{
  ℕ, suc, ◌≤◌, ◌≡◌, ◌≢◌, refl, sym, ap, ◌∙◌, Bool, true, false, ◌&&◌, Option, none, some, List, [],
  ◌∷◌, arith, leb, ◌==◌, ==_iff, if◌then◌else◌, length, Option-cases, inl, inr,
}
use factbook_rs.Table.Index.{Text-Eq, Allocation}
use factbook_rs.Table.Query.{Reading}

-- the first list begins the second
abbrev begins : List ℕ → List ℕ → Bool
begins [] ys = true
begins (x ∷ xs) [] = false
begins (x ∷ xs) (y ∷ ys) = x == y && begins xs ys

abbrev under_head :
    ℕ → Option (List ℕ × List ℕ) → Option (List ℕ × List ℕ) → Option (List ℕ × List ℕ)
under_head x none other = other
under_head x (some (n, v)) other = some (x ∷ n, v)

abbrev at_root : Option (List ℕ) → Option (List ℕ × List ℕ)
at_root none = none
at_root (some v) = some ([], v)

-- the longest beginning of a list that is filed
abbrev longest : (List ℕ → Option (List ℕ)) → List ℕ → Option (List ℕ × List ℕ)
longest look [] = at_root (look [])
longest look (x ∷ a) = under_head x (longest (λ k. look (x ∷ k)) a) (at_root (look []))

-- a beginning of `a` that is filed, and its rows
abbrev IsFiled : (List ℕ → Option (List ℕ)) → List ℕ → List ℕ × List ℕ → Type 0
IsFiled look a r = (begins r.0 a ≡ true) × (look r.0 ≡ some r.1)

at_root-IsFiled :
    (look : List ℕ → Option (List ℕ)) (a : List ℕ) (r : List ℕ × List ℕ)
    → at_root (look []) ≡ some r
    → IsFiled look a r
at_root-IsFiled look a r e = elim (Option-cases (look [])) [
  | inl absent ↦ absurd (cc (rw absent at e))
  | inr (v, there) ↦ subst (IsFiled look a) (some-injective ([], v) r (rw there at e)) (refl, there)
]

pub longest-IsFiled :
    (look : List ℕ → Option (List ℕ)) (a : List ℕ) (r : List ℕ × List ℕ)
    → longest look a ≡ some r
    → IsFiled look a r
longest-IsFiled look [] r e = at_root-IsFiled look [] r e
longest-IsFiled look (x ∷ a) r e = elim (Option-cases (longest (λ k. look (x ∷ k)) a)) [
  | inl absent ↦ at_root-IsFiled look (x ∷ a) r (rw absent at e)
  | inr (s, found) ↦
      let (starts, there) = longest-IsFiled (λ k. look (x ∷ k)) a s found in
      subst (IsFiled look (x ∷ a)) (some-injective (x ∷ s.0, s.1) r (rw found at e))
        (rw ((==_iff x x).1 refl) starts, there)
]

begins-cons :
    (y x : ℕ) (k a : List ℕ) → begins (y ∷ k) (x ∷ a) ≡ true → (y ≡ x) × (begins k a ≡ true)
begins-cons y x k a h = ground arith

pub longest-none :
    (look : List ℕ → Option (List ℕ)) (a k w : List ℕ)
    → longest look a ≡ none
    → begins k a ≡ true
    → look k ≢ some w
longest-none look [] [] w e h f = ground arith
longest-none look [] (y ∷ k) w e h f = cc
longest-none look (x ∷ a) [] w e h f = elim (Option-cases (longest (λ j. look (x ∷ j)) a)) [
  | inr (s, found) ↦ cc (rw found at e)
  | inl absent ↦ cc (rw (absent, f) at e)
]
longest-none look (x ∷ a) (y ∷ k) w e h f =
    let (same, starts) = begins-cons y x k a h in
    elim (Option-cases (longest (λ j. look (x ∷ j)) a)) [
      | inr (s, found) ↦ cc (rw found at e)
      | inl absent ↦
          longest-none (λ j. look (x ∷ j)) a k w absent starts
            (ap (λ z. look (z ∷ k)) (sym same) ∙ f)
    ]

pub longest-length :
    (look : List ℕ → Option (List ℕ)) (a n v k w : List ℕ)
    → longest look a ≡ some (n, v)
    → begins k a ≡ true
    → look k ≡ some w
    → length k ≤ length n
longest-length look a n v [] w e h f = omega arith
longest-length look [] n v (y ∷ k) w e h f = cc
longest-length look (x ∷ a) n v (y ∷ k) w e h f =
    let (same, starts) = begins-cons y x k a h in
    elim (Option-cases (longest (λ j. look (x ∷ j)) a)) [
      | inl absent ↦ absurd (
          longest-none (λ j. look (x ∷ j)) a k w absent starts
            (ap (λ z. look (z ∷ k)) (sym same) ∙ f))
      | inr (s, found) ↦
          let first = some-injective (x ∷ s.0, s.1) (n, v) (rw found at e) in
          let le =
            longest-length (λ j. look (x ∷ j)) a s.0 s.1 k w found starts
              (ap (λ z. look (z ∷ k)) (sym same) ∙ f) in
          subst (λ r. suc (length k) ≤ length r.0) first (omega arith)
    ]

abbrev octets : IpAddr → List ℕ
octets (v4 x) = 4 ∷ x.a ∷ x.b ∷ x.c ∷ x.d ∷ []
octets (v6 x) = 6 ∷ x.s0 ∷ x.s1 ∷ x.s2 ∷ x.s3 ∷ x.s4 ∷ x.s5 ∷ x.s6 ∷ x.s7 ∷ []

-- four bytes are an address
abbrev parse_address : Text → Option IpAddr
parse_address (a ∷ b ∷ c ∷ d ∷ []) = some (v4 (record { a = a; b = b; c = c; d = d }))
parse_address _ = none

-- a slash and the bytes that an address begins with are a prefix
abbrev parse_net : Text → Option (List ℕ)
parse_net [] = none
parse_net (b ∷ bytes) = if b == 47 then some (4 ∷ bytes) else none

pub get_nil : (n : List ℕ) → Keyed.get {V = List ℕ} n [] ≡ none
unfolding Keyed.get
get_nil n = refl

abbrev pub networks : Networks
networks = record {
  parse_address = parse_address;
  IpNet = List ℕ;
  parse_net = parse_net;
  host = octets;
  net_eq = text_eq;
  eq_of_net_eq = λ m n. (text_eq_iff m n).0;
  prefix_len = length;
  contains = begins;
  same = text_eq;
  same_refl = λ n. (text_eq_iff n n).1 refl;
  PrefixMap = List (List ℕ × List ℕ);
  none_filed = [];
  get = λ n m. Keyed.get n m;
  insert = λ n v m. Keyed.insert n v m;
  get_lpm = λ n m. longest (λ k. Keyed.get k m) n;
  get-none_filed = get_nil;
  get_same = λ n k m e. ap (λ j. Keyed.get j m) ((text_eq_iff n k).0 e);
  get-insert = λ n k v m. Keyed.get-insert n k v m;
  get_lpm_contains = λ a m. λ n v. longest-IsFiled (λ k. Keyed.get k m) a (n, v);
  get_lpm_longest = λ a m. longest-length (λ k. Keyed.get k m) a;
  get_lpm_none = λ a m. longest-none (λ k. Keyed.get k m) a;
}

abbrev pub allocation : Allocation
allocation = record {
  vec_capacity = λ n. n;
  map_capacity = λ n. n;
  text_entry = 40;
  address_entry = 48;
  prefix_entry_bytes = 96;
}

abbrev pub reading : Reading
reading = record {
  Instant = ℕ;
  le = leb;
  parse_rfc3339 = λ text. none;
  Date = ℕ;
  parse_date = λ text. some (length text);
  midnight = λ day. some day;
  to_lowercase = λ c. c ∷ [];
}
