-- ===== src/Kv/Scan.antt =====
-- crates/kv/src/lib.rs: the walks over the records of a half, and what is read by them. The three walks
-- of the code take the same steps: `entry` is one step.
use tower.Prelude.{
  ℕ, zero, suc, ◌+◌, ◌-◌, Bool, true, false, ◌&&◌, ◌||◌, Option, none, some, List, [], ◌∷◌, length,
  ◌==◌, ltb, if◌then◌else◌,
}
use tower.Kv.Memory.{Mem, read, Result, ok, err, too_many_keys}
use tower.Kv.Layout.{
  max_value, max_keys, kv_header, record_size, entry_crc, half_len, half_base, u16_at, u32_at,
  active,
}

-- The tag and the length of the record at `o`; nothing where a walk ends.
unfoldable pub entry : Mem → ℕ → ℕ → ℕ → Option (ℕ × ℕ)
entry m base area o =
    let len = u16_at m (base + o + 2) in
    if ltb area (o + kv_header)
    then none
    else if u16_at m (base + o) == 0
    then none
    else if ltb max_value len || ltb area (o + record_size len)
    then none
    else if entry_crc (read m (base + o) 4) (read m (base + o + kv_header) len)
        == u32_at m (base + o + 4)
    then some (u16_at m (base + o), len)
    else none

-- A record takes eight bytes at least: `area` rounds are enough.
unfoldable pub scan_from : ℕ → Mem → ℕ → ℕ → ℕ → ℕ → Option (ℕ × ℕ) → ℕ × Option (ℕ × ℕ)
scan_from zero m base area target o found = (o, found)
scan_from (suc fuel) m base area target o found = elim (entry m base area o) [
  | none ↦ (o, found)
  | some (tag, len) ↦
      scan_from fuel m base area target (o + record_size len)
        (if tag == target then some (o, len) else found)
]

unfoldable pub scan_half : Mem → ℕ → ℕ → ℕ → ℕ × Option (ℕ × ℕ)
scan_half m base area target = scan_from area m base area target 0 none

abbrev pub value_of : Mem → ℕ → Option (ℕ × ℕ) → Option (List ℕ)
value_of m base none = none
value_of m base (some (off, zero)) = none
value_of m base (some (off, suc k)) = some (read m (base + off + kv_header) (suc k))

-- `get_bytes` into a buffer that holds the value; `none` is an absent key.
unfoldable pub get_bytes : Mem → ℕ → ℕ → Option (List ℕ)
get_bytes m capacity key = if key == 0 then none else elim (active m capacity) [
  | none ↦ none
  | some (h, g) ↦
      value_of m (half_base capacity h)
        (scan_half m (half_base capacity h) (half_len capacity) key).1
]

unfoldable pub generation : Mem → ℕ → ℕ
generation m capacity = elim (active m capacity) [ none ↦ 0 | some (h, g) ↦ g ]

-- `latest[..nkeys]`, and the update by a record: nothing if the table is full.
abbrev pub Latest : Type 0
Latest = List (ℕ × ℕ)

abbrev pub has_tag : ℕ → Latest → Bool
has_tag tag [] = false
has_tag tag ((t, off) ∷ l) = t == tag || has_tag tag l

abbrev pub with_off : ℕ → ℕ → Latest → Latest
with_off tag o [] = (tag, o) ∷ []
with_off tag o ((t, off) ∷ l) = if t == tag then (t, o) ∷ l else (t, off) ∷ with_off tag o l

unfoldable pub note : ℕ → ℕ → Latest → Option Latest
note tag o l = if has_tag tag l || ltb (length l) max_keys then some (with_off tag o l) else none

unfoldable pub walk_from : ℕ → Mem → ℕ → ℕ → Latest → ℕ → Result (ℕ × Latest)
walk_from zero m base area latest o = ok (o, latest)
walk_from (suc fuel) m base area latest o = elim (entry m base area o) [
  | none ↦ ok (o, latest)
  | some (tag, len) ↦ elim (note tag o latest) [
    | none ↦ err too_many_keys
    | some latest' ↦ walk_from fuel m base area latest' (o + record_size len)
  ]
]

unfoldable pub walk_latest : Mem → ℕ → ℕ → Result (ℕ × Latest)
walk_latest m base area = walk_from area m base area [] 0

unfoldable pub is_latest : ℕ → ℕ → Latest → Bool
is_latest tag o [] = false
is_latest tag o ((t, off) ∷ l) = t == tag && off == o || is_latest tag o l

unfoldable pub free_bytes : Mem → ℕ → ℕ
free_bytes m capacity = elim (active m capacity) [
  | none ↦ half_len capacity
  | some (h, g) ↦ half_len capacity - (scan_half m (half_base capacity h) (half_len capacity) 0).0
]

-- A key whose latest record is a tombstone leaves nothing.
unfoldable pub packed : Mem → ℕ → Latest → ℕ
packed m base [] = 0
packed m base ((t, off) ∷ l) =
    let len = u16_at m (base + off + 2) in
    (if len == 0 then 0 else record_size len) + packed m base l

unfoldable pub live_bytes : Mem → ℕ → Result ℕ
live_bytes m capacity = elim (active m capacity) [
  | none ↦ ok 0
  | some (h, g) ↦ elim (walk_latest m (half_base capacity h) (half_len capacity)) [
    | err e ↦ err e
    | ok (end, latest) ↦ ok (packed m (half_base capacity h) latest)
  ]
]

unfoldable pub is_blank : Mem → ℕ → ℕ → Bool
is_blank m off zero = true
is_blank m off (suc n) = m off == 0 && is_blank m (off + 1) n

unfoldable pub dead_half_blank : Mem → ℕ → Bool
dead_half_blank m capacity = elim (active m capacity) [
  | none ↦ true
  | some (h, g) ↦ is_blank m (half_base capacity (1 - h)) (half_len capacity)
]
