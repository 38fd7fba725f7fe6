-- ===== src/Prelude/Int.antt =====
-- The integers over the native numbers, and decimal text.
use factbook_rs.Prelude.Decide.{ltb, if◌then◌else◌}
use Prim.Native.Nat.{ℕ, zero, suc, ◌+◌, ◌/◌, ◌%◌}
use mathlib.Core.List.{List, [], ◌∷◌}

-- `negsuc n` is `-(n + 1)`.
pub data ℤ : Type 0 where
  pos : ℕ → ℤ
  negsuc : ℕ → ℤ

-- the digits of a number in front of some text; a number has fewer digits than the fuel
abbrev pub digits : ℕ → ℕ → List ℕ → List ℕ
digits zero n text = text
digits (suc fuel) n text =
    if ltb n 10 then (n + 48) ∷ text else digits fuel (n / 10) ((n % 10 + 48) ∷ text)

-- `write!(text, "{n}")`
unfoldable pub decimal : ℕ → List ℕ
decimal n = digits (suc n) n []
