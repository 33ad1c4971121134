-- ===== src/Kv/Words.antt =====
-- What stands in a word of the region: numbers in little-endian order, a zero word, a torn word, and
-- the record that the bytes of an append are.
use tower.Prelude.{
  ℕ, zero, suc, ◌+◌, ◌*◌, ◌/◌, ◌%◌, ◌≤◌, ◌<◌, ◌≡◌, refl, subst, ◌∙◌, ◌⊎◌, inl, inr, true,
  Bool-cases, none, some, List, ◌++◌, length, length-append, length-replicate, replicate, le_bytes,
  leb, u32_max, arith,
}
use tower.Kv.Eeprom.{Mem, Torn, Cell, untouched, erased, garbled, LeftAs, Caught, read}
use tower.Kv.Layout.{kv_header, record_size, max_value, entry_crc, u16_at, u32_at}
use tower.Kv.Scan.{entry}
use tower.Kv.Write.{le16, head_word, record_body, pad_len, is_zero_word, zero_word}
use tower.Kv.Steps.{At, Kept, At-append, read-At}

pub At-Kept :
    (m m' : Mem) (off : ℕ) (d : List ℕ) (lo hi : ℕ)
    → At m off d
    → Kept m m' lo hi
    → (off + length d ≤ lo) ⊎ (hi ≤ off)
    → At m' off d
At-Kept m m' off d lo hi h k sep i b = k (off + i) (ground arith) ∙ h i b

pub u16_at-At : (m : Mem) (off n : ℕ) → At m off (le16 n) → n < 65536 → u16_at m off ≡ n
u16_at-At m off n h b =
    let e0 : m off ≡ n % 256 = subst (λ z. m z ≡ n % 256) (omega arith) (h 0 (omega arith)) in
    let e1 : m (off + 1) ≡ n / 256 % 256 = h 1 (omega arith) in omega (arith, e0, e1)

pub u32_at-At : (m : Mem) (off n : ℕ) → At m off (le_bytes n) → n ≤ u32_max → u32_at m off ≡ n
u32_at-At m off n h b =
    let e0 : m off ≡ n % 256 = subst (λ z. m z ≡ n % 256) (omega arith) (h 0 (omega arith)) in
    let e1 : m (off + 1) ≡ n / 256 % 256 = h 1 (omega arith) in
    let e2 : m (off + 2) ≡ n / 65536 % 256 = h 2 (omega arith) in
    let e3 : m (off + 3) ≡ n / 16777216 % 256 = h 3 (omega arith) in omega (arith, e0, e1, e2, e3)

At-zero : (m : Mem) (off : ℕ) → ((i : ℕ) → i < 4 → m (off + i) ≡ 0) → At m off zero_word
At-zero m off h zero b = h 0 b
At-zero m off h (suc zero) b = h 1 b
At-zero m off h (suc (suc zero)) b = h 2 b
At-zero m off h (suc (suc (suc zero))) b = h 3 b
At-zero m off h (suc (suc (suc (suc i)))) b = absurd (omega arith)

zero-word : (m : Mem) (off : ℕ) → At m off zero_word → (m off ≡ 0) × (m (off + 1) ≡ 0)
zero-word m off h = (subst (λ z. m z ≡ 0) (omega arith) (h 0 (omega arith)), h 1 (omega arith))

pub is_zero_word-At : (m : Mem) (off : ℕ) → is_zero_word m off ≡ true → At m off zero_word
is_zero_word-At m off e zero b =
    let e0 : m off ≡ 0 = ground arith in subst (λ z. m z ≡ 0) (omega arith) e0
is_zero_word-At m off e (suc zero) b = ground arith
is_zero_word-At m off e (suc (suc zero)) b = ground arith
is_zero_word-At m off e (suc (suc (suc zero))) b = ground arith
is_zero_word-At m off e (suc (suc (suc (suc i)))) b = absurd (omega arith)

-- A walk ends at a zero word.
pub entry-At_zero :
    (m : Mem) (base area o : ℕ) → At m (base + o) zero_word → entry m base area o ≡ none
unfolding entry
entry-At_zero m base area o h = let (e0, e1) = zero-word m (base + o) h in ground arith

Torn-word-left :
    (m m' : Mem) (off : ℕ) (c : Cell)
    → ((i : ℕ) → i < 4 → LeftAs c (m (off + i)) (m' (off + i)))
    → (c ≡ garbled → Caught m' off)
    → At m' off zero_word ⊎ (((i : ℕ) → i < 4 → m' (off + i) ≡ m (off + i)) ⊎ Caught m' off)
Torn-word-left m m' off untouched h caught = inr (inl h)
Torn-word-left m m' off erased h caught = inl (At-zero m' off h)
Torn-word-left m m' off garbled h caught = inr (inr (caught refl))

-- A write of one word that fails leaves the new word, zero, the old one, or one that is caught.
pub Torn-word :
    (m m' : Mem) (off : ℕ) (d : List ℕ)
    → length d ≡ 4
    → Torn m m' off d
    → At m' off d
      ⊎ (At m' off zero_word ⊎ (((i : ℕ) → i < 4 → m' (off + i) ≡ m (off + i)) ⊎ Caught m' off))
Torn-word m m' off d e t = elim (Bool-cases (leb 1 t.words)) [
  | inl some_word ↦ inl (λ i b. t.before i (ground arith) b)
  | inr no_word ↦
      let none_yet : t.words ≡ 0 = ground arith in
      let here : off + 4 * t.words ≡ off = omega (arith, none_yet) in
      inr (
        Torn-word-left m m' off t.cell (λ i b. t.during i (omega arith) (omega arith) (omega arith))
          (λ g. subst (λ z. Caught m' z) here (t.caught g (omega arith))))
]

pub length-record_body :
    (key : ℕ) (value : List ℕ) → 4 + length (record_body key value) ≡ record_size (length value)
length-record_body key value = omega (
  arith,
  length-append value (replicate (pad_len (length value)) 0),
  length-replicate {A = ℕ} (pad_len (length value)) 0,
)

entry_crc-le : (hdr value : List ℕ) → entry_crc hdr value ≤ u32_max
unfolding entry_crc
entry_crc-le hdr value = omega arith

-- The bytes of an append are a record, and its value is read back.
pub entry-append :
    (m : Mem) (base area o key : ℕ) (value : List ℕ)
    → 1 ≤ key
    → key < 65536
    → length value ≤ max_value
    → o + record_size (length value) ≤ area
    → At m (base + o) (head_word key value)
    → At m (base + o + 4) (record_body key value)
    → (entry m base area o ≡ some (key, length value))
      × (read m (base + o + kv_header) (length value) ≡ value)
unfolding entry
entry-append m base area o key value k1 k2 v fits head body =
    let (at_key, at_len) = At-append m (base + o) (le16 key) (le16 (length value)) head in
    let (at_crc, at_rest) =
      At-append m (base + o + 4) (le_bytes (entry_crc (head_word key value) value))
        (value ++ replicate (pad_len (length value)) 0) body in
    let (at_val, at_pad) =
      At-append m (base + o + 4 + 4) value (replicate (pad_len (length value)) 0) at_rest in
    let tag = u16_at-At m (base + o) key at_key k2 in
    let len = u16_at-At m (base + o + 2) (length value) at_len (omega arith) in
    let crc =
      u32_at-At m (base + o + 4) (entry_crc (head_word key value) value) at_crc
        (entry_crc-le (head_word key value) value) in
    let hdr = read-At m (base + o) (head_word key value) head in
    let val : read m (base + o + kv_header) (length value) ≡ value =
      subst (λ z. read m z (length value) ≡ value) (omega arith)
        (read-At m (base + o + 4 + 4) value at_val) in
    ((rw (tag, len, hdr, val, crc) (ground arith)), val)
