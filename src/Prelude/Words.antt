-- ===== src/Prelude/Words.antt =====
-- `u64` as the source uses it: saturating addition, over native numbers.
use Prim.Native.Nat.{ℕ, ◌+◌, ◌-◌, ◌≤◌, ◌^◌, min}
use mathlib.Core.Path.{◌≡◌}
use native.Mathlib.Omega.{arith}

abbrev pub u64_max : ℕ
u64_max = 2 ^ 64 - 1

-- `u64::saturating_add`
abbrev pub saturating_add : ℕ → ℕ → ℕ
saturating_add a b = min u64_max (a + b)

pub saturating_add-fits : (a b c : ℕ) → a + b ≤ c → c ≤ u64_max → saturating_add a b ≡ a + b
saturating_add-fits a b c h k = omega arith
