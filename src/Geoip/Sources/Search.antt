-- ===== src/Geoip/Sources/Search.antt =====
-- What the tests on a source decide, and what a search of a list by them finds.
use mathlib.Core.Option.{some-injective}
use factbook_rs.Geoip.Download.Guard.Probe.{Kind, city, asn}
use factbook_rs.Geoip.Sources.{
  GeoIpProvider, db_ip, max_mind, ip_info, sapics_origin_asn, sapics_ip_to_asn, custom,
  ProviderTier, free, paid, SourceSpec, provider_rank, tier_rank, kind_rank, is_provider, is_tier,
  is_kind, first_source,
}
use factbook_rs.Prelude.{
  ℕ, zero, suc, ◌≡◌, ◌↔◌, refl, sym, ap, ◌∙◌, Bool, true, false, ◌&&◌, some, List, [], ◌∷◌, any,
  get_elem?, ◌==◌, ==_iff, and_true, Bool-cases, inl, inr, if◌then◌else◌,
}

-- some source of a list, and no source of it
abbrev pub Has : (SourceSpec → Type 0) → List SourceSpec → Type 0
Has P xs = (i : ℕ) × (s : SourceSpec) × (get_elem? xs i ≡ some s) × P s

abbrev pub Lacks : (SourceSpec → Type 0) → List SourceSpec → Type 0
Lacks P xs = (i : ℕ) (s : SourceSpec) → get_elem? xs i ≡ some s → ¬ P s

abbrev pub OfTier : GeoIpProvider → ProviderTier → SourceSpec → Type 0
OfTier provider tier s = (s.provider ≡ provider) × (s.tier ≡ tier)

abbrev pub Serves : GeoIpProvider → ProviderTier → Kind → SourceSpec → Type 0
Serves provider tier kind s = (s.provider ≡ provider) × (s.tier ≡ tier) × (s.kind ≡ kind)

-- the constructors by their positions
provider_at : ℕ → GeoIpProvider
provider_at n =
    if n == 0
    then db_ip
    else if n == 1
    then max_mind
    else if n == 2
    then ip_info
    else if n == 3
    then sapics_origin_asn
    else if n == 4
    then sapics_ip_to_asn
    else custom

provider_at-rank : (p : GeoIpProvider) → provider_at (provider_rank p) ≡ p
unfolding provider_at
provider_at-rank db_ip = refl
provider_at-rank max_mind = refl
provider_at-rank ip_info = refl
provider_at-rank sapics_origin_asn = refl
provider_at-rank sapics_ip_to_asn = refl
provider_at-rank custom = refl

tier_at : ℕ → ProviderTier
tier_at n = if n == 0 then free else paid

tier_at-rank : (t : ProviderTier) → tier_at (tier_rank t) ≡ t
unfolding tier_at
tier_at-rank free = refl
tier_at-rank paid = refl

kind_at : ℕ → Kind
kind_at n = if n == 0 then city else asn

kind_at-rank : (k : Kind) → kind_at (kind_rank k) ≡ k
unfolding kind_at
kind_at-rank city = refl
kind_at-rank asn = refl

-- a test of ranks decides equality
by_rank :
    {A : Type 0} (rank : A → ℕ) (back : ℕ → A) (returns : (a : A) → back (rank a) ≡ a) (a b : A)
    → ((rank a == rank b) ≡ true) ↔ (a ≡ b)
by_rank rank back returns a b = (
  λ h. sym (returns a) ∙ ap back ((==_iff (rank a) (rank b)).0 h) ∙ returns b,
  λ e. (==_iff (rank a) (rank b)).1 (ap rank e),
)

pub is_provider_iff :
    (p : GeoIpProvider) (s : SourceSpec) → (is_provider p s ≡ true) ↔ (s.provider ≡ p)
is_provider_iff p s = by_rank provider_rank provider_at provider_at-rank s.provider p

pub OfTier-iff :
    (p : GeoIpProvider) (t : ProviderTier) (s : SourceSpec)
    → ((is_provider p s && is_tier t s) ≡ true) ↔ OfTier p t s
OfTier-iff p t s =
    let provider = is_provider_iff p s in
    let tier = by_rank tier_rank tier_at tier_at-rank s.tier t in
    (
      λ h. let (a, b) = and_true _ _ h in (provider.0 a, tier.0 b),
      λ h. rw (provider.1 h.0, tier.1 h.1) refl,
    )

pub Serves-iff :
    (p : GeoIpProvider) (t : ProviderTier) (k : Kind) (s : SourceSpec)
    → ((is_provider p s && (is_tier t s && is_kind k s)) ≡ true) ↔ Serves p t k s
Serves-iff p t k s =
    let provider = is_provider_iff p s in
    let tier = by_rank tier_rank tier_at tier_at-rank s.tier t in
    let kind = by_rank kind_rank kind_at kind_at-rank s.kind k in
    (
      λ h.
          let (a, rest) = and_true _ _ h in
          let (b, c) = and_true _ _ rest in (provider.0 a, tier.0 b, kind.0 c),
      λ h. rw (provider.1 h.0, tier.1 h.1, kind.1 h.2) refl,
    )

module _ (test : SourceSpec → Bool) (P : SourceSpec → Type 0)
    (decides : (s : SourceSpec) → (test s ≡ true) ↔ P s) where
  pub any-Has : (xs : List SourceSpec) → any test xs ≡ true → Has P xs
  any-Has [] h = cc
  any-Has (x ∷ xs) h = elim (Bool-cases (test x)) [
    | inl here ↦ (0, x, refl, (decides x).0 here)
    | inr there ↦ let (i, s, at, holds) = any-Has xs (rw there at h) in (suc i, s, at, holds)
  ]

  pub any-Lacks : (xs : List SourceSpec) → any test xs ≡ false → Lacks P xs
  any-Lacks [] h i s at holds = cc (at)
  any-Lacks (x ∷ xs) h zero s at holds =
      let passes_ = (decides x).1 (rw (some-injective x s at) holds) in cc (rw passes_ at h)
  any-Lacks (x ∷ xs) h (suc i) s at holds = elim (Bool-cases (test x)) [
    | inl here ↦ cc (rw here at h)
    | inr there ↦ any-Lacks xs (rw there at h) i s at holds
  ]

  pub first_source-Has :
      (xs : List SourceSpec) (s : SourceSpec)
      → first_source test xs ≡ some s
      → Has (λ other. other ≡ s) xs × P s
  first_source-Has [] s h = cc
  first_source-Has (x ∷ xs) s h = elim (Bool-cases (test x)) [
    | inl here ↦
        let same = some-injective x s (rw here at h) in
        ((0, x, refl, same), rw (← same) ((decides x).0 here))
    | inr there ↦
        let ((i, other, at, same), holds) = first_source-Has xs s (rw there at h) in
        ((suc i, other, at, same), holds)
  ]
