-- ===== src/Protocol/Crc.antt =====
-- crates/protocol/src/crc.rs: CRC-32 of a list of bytes.
use Prim.Native.Nat.{bit_xor}
use tower.Prelude.{
  ℕ, zero, suc, ◌-◌, ◌/◌, ◌%◌, ◌≤◌, ◌≡◌, refl, List, [], ◌∷◌, ◌==◌, if◌then◌else◌, u32_max, arith,
}

-- `n` rounds of the inner loop
unfoldable pub crc_rounds : ℕ → ℕ → ℕ
crc_rounds zero crc = crc
crc_rounds (suc n) crc = crc_rounds n (bit_xor (crc / 2) (if crc % 2 == 1 then 0xEDB88320 else 0))

unfoldable pub crc32_update : ℕ → List ℕ → ℕ
crc32_update crc [] = crc
crc32_update crc (byte ∷ data_) = crc32_update (crc_rounds 8 (bit_xor crc byte)) data_

-- `!x` of a `u32`
unfoldable pub crc32_ieee : List ℕ → ℕ
crc32_ieee data_ = u32_max - crc32_update u32_max data_

pub crc32_ieee-le : (l : List ℕ) → crc32_ieee l ≤ u32_max
unfolding crc32_ieee
crc32_ieee-le l = omega arith

-- The check value of the standard, of "123456789".
crc32_check : crc32_ieee (49 ∷ 50 ∷ 51 ∷ 52 ∷ 53 ∷ 54 ∷ 55 ∷ 56 ∷ 57 ∷ []) ≡ 0xCBF43926
unfolding crc32_ieee crc32_update crc_rounds
crc32_check = refl
