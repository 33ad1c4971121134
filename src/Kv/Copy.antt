-- ===== src/Kv/Copy.antt =====
-- Pass 2 of `flip`: the log that the copies make of a blank half.
use tower.Prelude.{
  ℕ, zero, suc, ◌+◌, ◌*◌, ◌≤◌, ◌<◌, ◌≡◌, refl, sym, ap, ap₂, ◌∙◌, inl, inr, Bool-cases, none, some,
  ◌∷◌, length, ltb, arith,
}
use tower.Kv.Eeprom.{Mem, nth, read}
use tower.Kv.Layout.{kv_header, record_size, u16_at, u32_at}
use tower.Kv.Scan.{entry, value_of}
use tower.Kv.Log.{entry-fits, entry-tag}
use tower.Kv.Steps.{At}
use tower.Kv.Blank.{Zeros}

pub length-read : (m : Mem) (off n : ℕ) → length (read m off n) ≡ n
unfolding read
length-read m off zero = refl
length-read m off (suc n) = ap suc (length-read m (off + 1) n)

nth-read : (m : Mem) (off n i : ℕ) → i < n → nth (read m off n) i ≡ m (off + i)
unfolding read
nth-read m off zero i b = absurd (omega arith)
nth-read m off (suc n) zero b = ap m (omega arith)
nth-read m off (suc n) (suc i) b = nth-read m (off + 1) n i (omega arith) ∙ ap m (omega arith)

-- The `n` bytes at `b` are those that stood at `a`.
abbrev pub Copied : Mem → Mem → ℕ → ℕ → ℕ → Type 0
Copied m m' a b n = (i : ℕ) → i < n → m' (b + i) ≡ m (a + i)

pub At-Copied : (m m' : Mem) (a b n : ℕ) → At m' b (read m a n) → Copied m m' a b n
At-Copied m m' a b n h i lt = h i (omega (arith, length-read m a n)) ∙ nth-read m a n i lt

pub byte-Copied :
    (m m' : Mem) (a b n : ℕ)
    → Copied m m' a b n
    → (i x y : ℕ) → i < n
    → x ≡ b + i
    → y ≡ a + i
    → m' x ≡ m y
byte-Copied m m' a b n h i x y lt p q = ap m' p ∙ (h i lt ∙ ap m (sym q))

Copied-part :
    (m m' : Mem) (a b n : ℕ)
    → Copied m m' a b n
    → (o k : ℕ) → o + k ≤ n
    → Copied m m' (a + o) (b + o) k
Copied-part m m' a b n h o k le i lt =
    byte-Copied m m' a b n h (o + i) (b + o + i) (a + o + i) (omega arith) (omega arith)
      (omega arith)

read-Copied : (m m' : Mem) (a b n : ℕ) → Copied m m' a b n → read m' b n ≡ read m a n
unfolding read
read-Copied m m' a b zero h = refl
read-Copied m m' a b (suc n) h =
    ap₂ (λ x y. x ∷ y)
      (byte-Copied m m' a b (suc n) h 0 b a (omega arith) (omega arith) (omega arith))
      (read-Copied m m' (a + 1) (b + 1) n (Copied-part m m' a b (suc n) h 1 n (omega arith)))

u16_at-Copied : (m m' : Mem) (a b : ℕ) → Copied m m' a b 2 → u16_at m' b ≡ u16_at m a
u16_at-Copied m m' a b h =
    ap₂ (λ x y. x + 256 * y)
      (byte-Copied m m' a b 2 h 0 b a (omega arith) (omega arith) (omega arith)) (h 1 (omega arith))

u32_at-Copied : (m m' : Mem) (a b : ℕ) → Copied m m' a b 4 → u32_at m' b ≡ u32_at m a
u32_at-Copied m m' a b h =
    let e0 = byte-Copied m m' a b 4 h 0 b a (omega arith) (omega arith) (omega arith) in
    let e1 = h 1 (omega arith) in
    let e2 = h 2 (omega arith) in let e3 = h 3 (omega arith) in omega (arith, e0, e1, e2, e3)

-- A record is copied with its bytes.
pub entry-Copied :
    (m m' : Mem) (src dst area o wr tag len : ℕ)
    → entry m src area o ≡ some (tag, len)
    → Copied m m' (src + o) (dst + wr) (record_size len)
    → wr + record_size len ≤ area
    → entry m' dst area wr ≡ some (tag, len)
unfolding entry
entry-Copied m m' src dst area o wr tag len e h fits =
    let (fit, t1, v, le) = entry-fits m src area o tag len e in
    let te = entry-tag m src area o tag len e in
    let part = Copied-part m m' (src + o) (dst + wr) (record_size len) h in
    let tag' : u16_at m' (dst + wr) ≡ tag =
      u16_at-Copied m m' (src + o) (dst + wr) (λ i b. h i (omega arith)) ∙ te in
    let len' : u16_at m' (dst + wr + 2) ≡ len =
      u16_at-Copied m m' (src + o + 2) (dst + wr + 2) (part 2 2 (omega arith)) ∙ le in
    let crc : u32_at m' (dst + wr + 4) ≡ u32_at m (src + o + 4) =
      u32_at-Copied m m' (src + o + 4) (dst + wr + 4) (part 4 4 (omega arith)) in
    let hdr : read m' (dst + wr) 4 ≡ read m (src + o) 4 =
      read-Copied m m' (src + o) (dst + wr) 4 (λ i b. h i (omega arith)) in
    let val : read m' (dst + wr + kv_header) len ≡ read m (src + o + kv_header) len =
      read-Copied m m' (src + o + kv_header) (dst + wr + kv_header) len
        (part kv_header len (omega arith)) in
    rw (tag', len', crc, hdr, val) (ground (arith, rw (te, le) at e))

pub value_of-Copied :
    (m m' : Mem) (src dst o wr len : ℕ)
    → Copied m m' (src + o) (dst + wr) (record_size len)
    → value_of m' dst (some (wr, len)) ≡ value_of m src (some (o, len))
value_of-Copied m m' src dst o wr zero h = refl
value_of-Copied m m' src dst o wr (suc k) h = ap some (
    read-Copied m m' (src + o + kv_header) (dst + wr + kv_header) (suc k) (
      Copied-part m m' (src + o) (dst + wr) (record_size (suc k)) h kv_header (suc k)
        (omega arith)))

-- A walk ends where the rest of the half is zero.
pub entry-Zeros :
    (m : Mem) (base area o : ℕ) → Zeros m (base + o) (base + area) → entry m base area o ≡ none
unfolding entry
entry-Zeros m base area o z = elim (Bool-cases (ltb area (o + kv_header))) [
  | inl past ↦ rw (past) refl
  | inr inside ↦
      let e0 = z (base + o) (omega arith) (ground arith) in
      let e1 = z (base + o + 1) (omega arith) (ground arith) in ground arith
]
