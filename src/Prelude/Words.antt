-- ===== src/Prelude/Words.antt =====
-- Machine words as native numbers: the ranges, saturating sums and little-endian bytes.
use Prim.Native.Nat.{ℕ, ◌+◌, ◌*◌, ◌/◌, ◌%◌, ◌≤◌, min}
use mathlib.Core.Path.{◌≡◌}
use mathlib.Core.List.{List, [], ◌∷◌}
use native.Mathlib.Omega.{arith}

-- `u32::MAX`
abbrev pub u32_max : ℕ
u32_max = 4294967295

-- `u32::saturating_add`
abbrev pub sat_add : ℕ → ℕ → ℕ
sat_add a b = min (a + b) u32_max

-- `u32::to_le_bytes`
abbrev pub le_bytes : ℕ → List ℕ
le_bytes n = (n % 256) ∷ (n / 256 % 256) ∷ (n / 65536 % 256) ∷ (n / 16777216 % 256) ∷ []

-- `u32::from_le_bytes`
abbrev pub from_le : ℕ → ℕ → ℕ → ℕ → ℕ
from_le a b c d = a + 256 * b + 65536 * c + 16777216 * d

pub from_le-le_bytes :
    (n : ℕ)
    → n ≤ u32_max
    → from_le (n % 256) (n / 256 % 256) (n / 65536 % 256) (n / 16777216 % 256) ≡ n
from_le-le_bytes n h = omega arith
