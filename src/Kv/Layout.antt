-- ===== src/Kv/Layout.antt =====
-- crates/kv/src/lib.rs: the constants, the layout of the region, and the superblocks.
use tower.Prelude.{
  ℕ, ◌+◌, ◌-◌, ◌*◌, ◌/◌, ◌%◌, ◌^◌, Bool, ◌&&◌, Option, none, some, List, [], ◌∷◌, ◌++◌, ◌==◌, leb,
  if◌then◌else◌, le_bytes, from_le, u32_max,
}
use tower.Protocol.Crc.{crc32_update}
use tower.Kv.Memory.{Mem, read}

abbrev pub max_value : ℕ
max_value = 256

abbrev pub max_keys : ℕ
max_keys = 64

abbrev pub kv_header : ℕ
kv_header = 8

abbrev pub word : ℕ
word = 4

abbrev pub super_len : ℕ
super_len = 12

-- `KV_HEADER + len.next_multiple_of(WORD)`
abbrev pub record_size : ℕ → ℕ
record_size len = kv_header + (len + 3) / 4 * 4

unfoldable pub entry_crc : List ℕ → List ℕ → ℕ
entry_crc hdr4 value = u32_max - crc32_update (crc32_update u32_max hdr4) value

unfoldable pub super_crc : List ℕ → ℕ
super_crc b = u32_max - crc32_update u32_max b

abbrev pub region : ℕ → ℕ
region capacity = capacity / word * word

abbrev pub half_len : ℕ → ℕ
half_len capacity = (region capacity - 2 * super_len) / 2 / word * word

abbrev pub half_base : ℕ → ℕ → ℕ
half_base capacity h = h * half_len capacity

abbrev pub super_off : ℕ → ℕ → ℕ
super_off capacity h = region capacity - 2 * super_len + h * super_len

abbrev pub u16_at : Mem → ℕ → ℕ
u16_at m off = m off + 256 * m (off + 1)

abbrev pub u32_at : Mem → ℕ → ℕ
u32_at m off = from_le (m off) (m (off + 1)) (m (off + 2)) (m (off + 3))

-- `TKV2`
abbrev pub is_magic : Mem → ℕ → Bool
is_magic m off = m off == 84 && m (off + 1) == 75 && m (off + 2) == 86 && m (off + 3) == 50

-- The generation, if the CRC is that of the magic and of it.
abbrev pub checked_gen : Mem → ℕ → Option ℕ
checked_gen m off =
    if super_crc (84 ∷ 75 ∷ 86 ∷ 50 ∷ read m (off + 4) 4) == u32_at m (off + 8)
    then some (u32_at m (off + 4))
    else none

unfoldable pub gen_at : Mem → ℕ → Option ℕ
gen_at m off =
    if is_magic m off
    then if super_crc (read m off 8) == u32_at m (off + 8) then some (u32_at m (off + 4)) else none
    else none

unfoldable pub read_gen : Mem → ℕ → ℕ → Option ℕ
read_gen m capacity h = gen_at m (super_off capacity h)

unfoldable pub superblock : ℕ → List ℕ
superblock generation =
    let head = (84 ∷ 75 ∷ 86 ∷ 50 ∷ []) ++ le_bytes generation in head ++ le_bytes (super_crc head)

abbrev pub newest : Option ℕ → Option ℕ → Option (ℕ × ℕ)
newest (some a) (some b) = if leb b a then some (0, a) else some (1, b)
newest (some a) none = some (0, a)
newest none (some b) = some (1, b)
newest none none = none

unfoldable pub active : Mem → ℕ → Option (ℕ × ℕ)
active m capacity = newest (read_gen m capacity 0) (read_gen m capacity 1)

-- `g.wrapping_add(1)`
abbrev pub next_gen : ℕ → ℕ
next_gen g = (g + 1) % 2 ^ 32
