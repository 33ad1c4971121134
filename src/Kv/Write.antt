-- ===== src/Kv/Write.antt =====
-- crates/kv/src/lib.rs: what is written: records, terminators, blank words, the format.
use tower.Prelude.{
  ℕ, zero, suc, ◌+◌, ◌-◌, ◌*◌, ◌/◌, ◌%◌, Bool, ◌&&◌, Option, none, some, List, [], ◌∷◌, ◌++◌,
  length, replicate, ◌==◌, leb, if◌then◌else◌, le_bytes, u32_max,
}
use tower.Kv.Eeprom.{Mem, Eeprom, M, return, reading, put, ◌>>◌}
use tower.Kv.Layout.{
  kv_header, word, record_size, entry_crc, half_len, half_base, active, super_off, superblock,
}

unfoldable pub write_gen : {S : Type 0} → Eeprom S → ℕ → ℕ → ℕ → M S (Unit {0})
write_gen ee capacity h generation = put ee (super_off capacity h) (superblock generation)

-- `to_le_bytes` of a `u16`
abbrev pub le16 : ℕ → List ℕ
le16 n = (n % 256) ∷ (n / 256 % 256) ∷ []

-- the header word of a record, and what follows it
abbrev pub head_word : ℕ → List ℕ → List ℕ
head_word key value = le16 key ++ le16 (length value)

abbrev pub pad_len : ℕ → ℕ
pad_len len = (len + 3) / 4 * 4 - len

abbrev pub record_body : ℕ → List ℕ → List ℕ
record_body key value =
    le_bytes (entry_crc (head_word key value) value)
    ++ (value ++ replicate (pad_len (length value)) 0)

abbrev pub is_zero_word : Mem → ℕ → Bool
is_zero_word m off = m off == 0 && m (off + 1) == 0 && m (off + 2) == 0 && m (off + 3) == 0

abbrev pub zero_word : List ℕ
zero_word = 0 ∷ 0 ∷ 0 ∷ 0 ∷ []

module _ {S : Type 0} (ee : Eeprom S) where
  unfoldable pub append : ℕ → ℕ → List ℕ → M S (Unit {0})
  append at key value = do
    put ee (at + word) (record_body key value)
    put ee at (head_word key value)

  unfoldable pub clear_word : ℕ → M S (Unit {0})
  clear_word at = reading ee λ m. if is_zero_word m at then return tt else put ee at zero_word

  unfoldable pub append_end : ℕ → ℕ → ℕ → ℕ → List ℕ → M S (Unit {0})
  append_end base area free key value = do
    let next = free + record_size (length value)
    clear_word (base + free)
    if leb (next + kv_header) area then clear_word (base + next) else return tt
    append (base + free) key value

  -- The progress and the budget left. The code reads sixteen words ahead of its writes; here a word is
  -- read when its turn comes. The spans are whole words; `len` rounds are enough.
  unfoldable pub blank_step_span : ℕ → ℕ → ℕ → ℕ → ℕ → M S (ℕ × ℕ)
  blank_step_span zero base len o budget = return (o, budget)
  blank_step_span (suc fuel) base len o budget =
      let skip_on = blank_step_span fuel base len (o + word) budget in
      let go_on = blank_step_span fuel base len (o + word) (budget - 1) in
      if leb len o
      then return (len, budget)
      else reading ee λ m.
        if is_zero_word m (base + o)
        then skip_on
        else if budget == 0
        then return (o, 0)
        else put ee (base + o) zero_word >> go_on

  unfoldable pub blank : ℕ → ℕ → M S (Unit {0})
  blank at len = blank_step_span (suc len) at len 0 u32_max >> return tt

  abbrev pub init_in : ℕ → Option (ℕ × ℕ) → M S (Unit {0})
  init_in capacity (some hg) = return tt
  init_in capacity none =
      (if leb kv_header (half_len capacity) then clear_word (half_base capacity 0) else return tt)
      >> write_gen ee capacity 0 1

  unfoldable pub init : ℕ → M S (Unit {0})
  init capacity = reading ee λ m. init_in capacity (active m capacity)
