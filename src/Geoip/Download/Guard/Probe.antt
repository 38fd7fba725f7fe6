-- ===== src/Geoip/Download/Guard/Probe.antt =====
-- src/geoip/download/verify.rs, `probe`: a staged database has to answer for an address that every
-- provider's data holds. What its reader opens a file as, and decodes of it at a path, are
-- parameters.
use factbook_rs.Geoip.Download.Error.{not_a_database, unpopulated}
use factbook_rs.Geoip.Download.Guard.{Checked, passes, refused}
use factbook_rs.Net.Address.{IpAddr, v4, v6}
use factbook_rs.Prelude.Text.{Text, codes, chars, is_whitespace}
use factbook_rs.Prelude.{Bool, not, Option, none, some, List, [], ◌∷◌, any, all, if◌then◌else◌}
use factbook_rs.Table.Query.{is_some_and}

pub data Kind : Type 0 where
  city asn : Kind

pub data DatabaseFormat : Type 0 where
  mmdb csv json : DatabaseFormat

-- An open database: for an address, none if the lookup is refused, and else the text at a path,
-- none if there is none that decodes.
abbrev pub Reader : Type 0
Reader = IpAddr → Option (List Text → Option Text)

abbrev pub probe_addresses : List IpAddr
probe_addresses =
    v4 (record { a = 8; b = 8; c = 8; d = 8 })
    ∷ v4 (record { a = 1; b = 1; c = 1; d = 1 })
    ∷ v4 (record { a = 9; b = 9; c = 9; d = 9 })
    ∷ v6 (record {
      s0 = 0x2001;
      s1 = 0x4860;
      s2 = 0x4860;
      s3 = 0;
      s4 = 0;
      s5 = 0;
      s6 = 0;
      s7 = 0x8888;
    })
    ∷ v6 (record {
      s0 = 0x2606;
      s1 = 0x4700;
      s2 = 0x4700;
      s3 = 0;
      s4 = 0;
      s5 = 0;
      s6 = 0;
      s7 = 0x1111;
    })
    ∷ v6 (record { s0 = 0x2620; s1 = 0x00fe; s2 = 0; s3 = 0; s4 = 0; s5 = 0; s6 = 0; s7 = 0x00fe })
    ∷ []

abbrev pub country_paths : List (List Text)
country_paths =
    (codes "country" ∷ codes "iso_code" ∷ [])
    ∷ (codes "registered_country" ∷ codes "iso_code" ∷ [])
    ∷ (codes "country_code" ∷ [])
    ∷ []

abbrev pub organisation_paths : List (List Text)
organisation_paths =
    (codes "autonomous_system_organization" ∷ []) ∷ (codes "isp" ∷ []) ∷ (codes "as_name" ∷ []) ∷ []

unfoldable pub paths_of : Kind → List (List Text)
paths_of city = country_paths
paths_of asn = organisation_paths

unfoldable pub field_of : Kind → Text
field_of city = codes "country"
field_of asn = codes "organisation name"

-- whether a text is more than white space
abbrev pub is_blank : Text → Bool
is_blank text = all is_whitespace (chars text)

unfoldable pub answers : Reader → IpAddr → Kind → Bool
unfolding paths_of
answers reader address kind = is_some_and (reader address) (λ decode.
    any (λ path. is_some_and (decode path) (λ value. not (is_blank value))) (paths_of kind))

unfoldable pub probe : (Text → Option Reader) → Text → Text → Kind → DatabaseFormat → Checked
unfolding answers field_of
probe open_reader staged dest kind csv = passes
probe open_reader staged dest kind json = passes
probe open_reader staged dest kind mmdb = elim (open_reader staged) [
  | none ↦ refused (not_a_database dest)
  | some reader ↦
      if any (λ address. answers reader address kind) probe_addresses
      then passes
      else refused (unpopulated dest (field_of kind))
]
