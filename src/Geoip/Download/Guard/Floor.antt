-- ===== src/Geoip/Download/Guard/Floor.antt =====
-- The size floor is a comparison of fractions, without rounding.
use factbook_rs.Geoip.Download.Guard.{passes, check_size}
use factbook_rs.Prelude.Text.{Text}
use factbook_rs.Prelude.{
  ℕ, ◌*◌, ◌≤◌, ◌≡◌, ◌↔◌, some, arith, ◌==◌, ==_iff, u64_max, Bool-cases, inl, inr,
}

-- For sizes that a file system holds, a replacement passes exactly when it has at least the stated
-- percentage of the size of the copy it would replace, be that size or the percentage zero or not.
pub check_size_iff :
    (floor : ℕ) (path : Text) (existing actual : ℕ)
    → existing * floor ≤ u64_max
    → actual * 100 ≤ u64_max
    → (check_size floor path (some existing) (some actual) ≡ passes)
      ↔ (existing * floor ≤ actual * 100)
unfolding check_size
check_size_iff floor path existing actual e a = elim (Bool-cases (floor == 0)) [
  | inl none_stated ↦ rw ((==_iff floor 0).0 none_stated) (ground arith)
  | inr stated ↦ elim (Bool-cases (existing == 0)) [
    | inl nothing_there ↦ rw (stated, (==_iff existing 0).0 nothing_there) (ground arith)
    | inr there ↦ rw (stated, there) (ground arith)
  ]
]
