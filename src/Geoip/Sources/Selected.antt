-- ===== src/Geoip/Sources/Selected.antt =====
-- What is selected from the table of sources, and what is refused.
use mathlib.Core.Option.{some-injective}
use factbook_rs.Geoip.Download.Error.{Result, ok, err, unsupported_tier}
use factbook_rs.Geoip.Download.Guard.Probe.{Kind}
use factbook_rs.Geoip.Sources.Planned.{All-at}
use factbook_rs.Geoip.Sources.Search.{
  Has, Lacks, OfTier, Serves, is_provider_iff, OfTier-iff, Serves-iff, any-Has, any-Lacks,
  first_source-Has,
}
use factbook_rs.Geoip.Sources.Select.{find_source, select}
use factbook_rs.Geoip.Sources.Table.{published}
use factbook_rs.Geoip.Sources.{
  GeoIpProvider, ProviderTier, SourceSpec, is_provider, is_tier, provider_label, tier_label,
}
use factbook_rs.Prelude.{
  ℕ, ◌≡◌, ◌⊎◌, refl, sym, ◌∙◌, ◌&&◌, Option, none, some, any, get_elem?, Bool-cases, Option-cases,
  inl, inr, All,
}

-- A source is the only one published that serves; there is none, and the tier is no reason; or the
-- tier is, for a provider that publishes something and nothing in it.
abbrev pub IsSelected : GeoIpProvider → ProviderTier → Kind → Result (Option SourceSpec) → Type 0
IsSelected provider tier kind (ok (some s)) =
    Has (λ other. other ≡ s) published
    × Serves provider tier kind s
    × Lacks (λ other. Serves provider tier kind other × (¬ (other ≡ s))) published
IsSelected provider tier kind (ok none) =
    Lacks (Serves provider tier kind) published
    × (Lacks (λ s. s.provider ≡ provider) published ⊎ Has (OfTier provider tier) published)
IsSelected provider tier kind (err e) =
    (e ≡ unsupported_tier (provider_label provider) (tier_label tier))
    × Has (λ s. s.provider ≡ provider) published
    × Lacks (OfTier provider tier) published

abbrev IsFound : SourceSpec → Type 0
IsFound s = find_source s.provider s.tier s.kind ≡ some s

published-IsFound : All IsFound published
unfolding find_source
published-IsFound = (refl, (refl, (refl, (refl, (refl, (refl, (refl, (refl, (refl, tt)))))))))

-- A source that serves is the one that is found.
find_source-published :
    (p : GeoIpProvider) (t : ProviderTier) (k : Kind) (i : ℕ) (s : SourceSpec)
    → get_elem? published i ≡ some s
    → Serves p t k s
    → find_source p t k ≡ some s
find_source-published p t k i s at (provider, tier, kind) =
    rw (← provider, ← tier, ← kind) (All-at IsFound published i s published-IsFound at)

find_source-some :
    (p : GeoIpProvider) (t : ProviderTier) (k : Kind) (s : SourceSpec)
    → find_source p t k ≡ some s
    → IsSelected p t k (ok (some s))
find_source-some p t k s found =
    let (there, serves) =
      first_source-Has _ (Serves p t k) (Serves-iff p t k) published s
        (unfold find_source in found) in
    (
      there,
      serves,
      λ i other at h.
          h.1 (some-injective other s (sym (find_source-published p t k i other at h.0) ∙ found)),
    )

find_source-none :
    (p : GeoIpProvider) (t : ProviderTier) (k : Kind)
    → find_source p t k ≡ none
    → Lacks (Serves p t k) published
find_source-none p t k none_found i s at serves =
    cc (sym none_found ∙ find_source-published p t k i s at serves)

-- Of every provider, tier and kind, the one source that is published for them is selected. If there
-- is none, that is an error exactly when the provider publishes something, but nothing in the tier.
pub select-IsSelected :
    (provider : GeoIpProvider) (tier : ProviderTier) (kind : Kind)
    → IsSelected provider tier kind (select provider tier kind)
unfolding select
select-IsSelected p t k = elim (Option-cases (find_source p t k)) [
  | inr (s, found) ↦ rw (found, select) (find_source-some p t k s found)
  | inl absent ↦ elim (Bool-cases (any (is_provider p) published)) [
    | inr nothing ↦
        rw (absent, nothing, select)
          (
            find_source-none p t k absent,
            inl (any-Lacks (is_provider p) _ (is_provider_iff p) published nothing),
          )
    | inl something ↦ elim (Bool-cases (any (λ s. is_provider p s && is_tier t s) published)) [
      | inl tiered ↦
          rw (absent, something, tiered, select)
            (
              find_source-none p t k absent,
              inr (any-Has _ (OfTier p t) (OfTier-iff p t) published tiered),
            )
      | inr untiered ↦
          rw (absent, something, untiered, select)
            (
              refl,
              any-Has (is_provider p) _ (is_provider_iff p) published something,
              any-Lacks _ (OfTier p t) (OfTier-iff p t) published untiered,
            )
    ]
  ]
]
