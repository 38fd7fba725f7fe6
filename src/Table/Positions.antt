-- ===== src/Table/Positions.antt =====
-- The specification of an index: the positions, in file order, of the rows that pass a test.
use factbook_rs.Prelude.{
  ℕ, suc, Bool, true, false, Option, none, some, List, [], ◌∷◌, if◌then◌else◌,
}
use factbook_rs.Prelude.Text.{Text}
use factbook_rs.Table.Cell.{Cell}

abbrev pub positions_where {ℓ} : {A : Type ℓ} → (A → Bool) → ℕ → List A → List ℕ
positions_where p at [] = []
positions_where p at (x ∷ xs) =
    if p x then at ∷ positions_where p (suc at) xs else positions_where p (suc at) xs

-- Whether a key cell parses, and to a key that `same` takes for `k`.
module _ {ℓ} {K : Type ℓ} (parse : Text → Option K) where
  abbrev pub parses_as : (K → K → Bool) → K → Option K → Bool
  parses_as same k none = false
  parses_as same k (some j) = same j k

  abbrev pub files_under : (K → K → Bool) → K → Cell → Bool
  files_under same k none = false
  files_under same k (some t) = parses_as same k (parse t)

  abbrev pub refuses : Option K → Bool
  refuses none = true
  refuses (some j) = false

  -- whether a key cell is there and does not parse
  abbrev pub unparsed : Cell → Bool
  unparsed none = false
  unparsed (some t) = refuses (parse t)
