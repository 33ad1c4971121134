-- ===== src/Kv/View.antt =====
-- What a reader sees: the map from a key to its value, by the log of the active half.
use tower.Prelude.{
  ℕ, zero, suc, ◌+◌, ◌-◌, ◌*◌, ◌≤◌, ◌<◌, ◌≡◌, refl, sym, ap, ap₂, subst, ◌∙◌, ◌⊎◌, inl, inr, false,
  Bool-cases, Option, none, some, List, [], ◌∷◌, ◌++◌, length, ◌==◌, if◌then◌else◌, arith,
}
use tower.Kv.Eeprom.{Mem, read}
use tower.Kv.Layout.{
  kv_header, record_size, region, half_len, half_base, super_len, super_off, gen_at, read_gen,
  u32_at, newest, active,
}
use tower.Kv.Scan.{entry, value_of, get_bytes}
use tower.Kv.Log.{
  Rec, Log, stop, more, last_of, Log-extend, scan_half-Log, Same, read-Same, value-Same,
}
use tower.Kv.Append.{Old, New}
use mathlib.Core.List.{append-nil}

-- The map after a write of `value` under `key`; an empty value is none.
abbrev pub stored : List ℕ → Option (List ℕ)
stored [] = none
stored (b ∷ bs) = some (b ∷ bs)

abbrev pub with_value : ℕ → List ℕ → (ℕ → Option (List ℕ)) → ℕ → Option (List ℕ)
with_value key value f k = if key == k then stored value else f k

pub u32_at-Same : (m m' : Mem) (off : ℕ) → Same m m' off (off + 4) → u32_at m' off ≡ u32_at m off
u32_at-Same m m' off h =
    let e0 : m' off ≡ m off = h off (omega arith) (omega arith) in
    let e1 : m' (off + 1) ≡ m (off + 1) = h (off + 1) (omega arith) (omega arith) in
    let e2 : m' (off + 2) ≡ m (off + 2) = h (off + 2) (omega arith) (omega arith) in
    let e3 : m' (off + 3) ≡ m (off + 3) = h (off + 3) (omega arith) (omega arith) in
    rw (e0, e1, e2, e3) refl

pub gen_at-Same :
    (m m' : Mem) (off : ℕ) → Same m m' off (off + super_len) → gen_at m' off ≡ gen_at m off
unfolding gen_at
gen_at-Same m m' off h =
    let e0 : m' off ≡ m off = h off (omega arith) (omega arith) in
    let e1 : m' (off + 1) ≡ m (off + 1) = h (off + 1) (omega arith) (omega arith) in
    let e2 : m' (off + 2) ≡ m (off + 2) = h (off + 2) (omega arith) (omega arith) in
    let e3 : m' (off + 3) ≡ m (off + 3) = h (off + 3) (omega arith) (omega arith) in
    let w1 : u32_at m' (off + 4) ≡ u32_at m (off + 4) =
      u32_at-Same m m' (off + 4) (λ i lo hi. h i (omega arith) (omega arith)) in
    let w2 : u32_at m' (off + 8) ≡ u32_at m (off + 8) =
      u32_at-Same m m' (off + 8) (λ i lo hi. h i (omega arith) (omega arith)) in
    let all : read m' off 8 ≡ read m off 8 =
      read-Same m m' off 8 (λ i lo hi. h i lo (omega arith)) in
    rw (e0, e1, e2, e3, all, w1, w2) refl

-- The superblocks lie behind both halves.
pub active-Same :
    (m m' : Mem) (capacity : ℕ)
    → ((i : ℕ) → region capacity - 2 * super_len ≤ i → m' i ≡ m i)
    → active m' capacity ≡ active m capacity
unfolding active read_gen
active-Same m m' capacity h =
    ap₂ newest (gen_at-Same m m' (super_off capacity 0) (λ i lo hi. h i (omega arith)))
      (gen_at-Same m m' (super_off capacity 1) (λ i lo hi. h i (omega arith)))

newest-le : (a b : Option ℕ) (h g : ℕ) → newest a b ≡ some (h, g) → h ≤ 1
newest-le (some a) (some b) h g e = ground arith
newest-le (some a) none h g e = ground arith
newest-le none (some b) h g e = ground arith
newest-le none none h g e = ground arith

pub active-le : (m : Mem) (capacity h g : ℕ) → active m capacity ≡ some (h, g) → h ≤ 1
unfolding active
active-le m capacity h g e = newest-le (read_gen m capacity 0) (read_gen m capacity 1) h g e

pub last_of-snoc :
    (k : ℕ) (found : Option (ℕ × ℕ)) (rs : List Rec) (r : Rec)
    → last_of k found (rs ++ (r ∷ []))
      ≡ (if r.tag == k then some (r.off, r.len) else last_of k found rs)
unfolding last_of
last_of-snoc k found [] r = refl
last_of-snoc k found (r' ∷ rs) r =
    last_of-snoc k (if r'.tag == k then some (r'.off, r'.len) else found) rs r

module _ (m m' : Mem) (base area : ℕ) where
  -- A log that has got one record more.
  pub Log-snoc :
      {end : ℕ} {rs : List Rec} (tag len : ℕ)
      → Log m base area 0 rs end
      → Same m m' base (base + end)
      → entry m' base area end ≡ some (tag, len)
      → entry m' base area (end + record_size len) ≡ none
      → Log m' base area 0
          (rs ++ (record { off = end; tag = tag; len = len } ∷ []))
          (end + record_size len)
  Log-snoc {end} {rs} tag len l same e n =
      Log-extend m m' base area l (λ i lo hi. same i (omega arith) hi)
        (record { off = end; tag = tag; len = len } ∷ []) (more tag len e (stop n))

  -- A log that has not.
  pub Log-keep :
      {end : ℕ} {rs : List Rec}
      → Log m base area 0 rs end
      → Same m m' base (base + end)
      → entry m' base area end ≡ none
      → Log m' base area 0 rs end
  Log-keep {end} {rs} l same n =
      subst (λ z. Log m' base area 0 z end) (append-nil rs)
        (Log-extend m m' base area l (λ i lo hi. same i (omega arith) hi) [] (stop n))

  -- The values that are read by it: the new one under its key, the others as before.
  pub value_of-snoc :
      {end : ℕ} {rs : List Rec} (tag len k : ℕ)
      → Log m base area 0 rs end
      → Same m m' base (base + end)
      → value_of m' base (last_of k none (rs ++ (record { off = end; tag = tag; len = len } ∷ [])))
        ≡ (if tag == k
            then value_of m' base (some (end, len))
            else value_of m base (last_of k none rs))
  value_of-snoc {end} {rs} tag len k l same =
      ap (value_of m' base) (last_of-snoc k none rs (record { off = end; tag = tag; len = len }))
      ∙ (elim (Bool-cases (tag == k)) [
        | inl t ↦ rw (t) refl
        | inr f ↦
            rw (f) (value-Same m m' base area k none l (λ i lo hi. same i (omega arith) hi) refl)
      ])

pub get_bytes-Log :
    (m : Mem) (capacity h g : ℕ)
    → active m capacity ≡ some (h, g)
    → {rs : List Rec} {end : ℕ} → Log m (half_base capacity h) (half_len capacity) 0 rs end
    → (k : ℕ)
    → get_bytes m capacity k
      ≡ (if k == 0 then none else value_of m (half_base capacity h) (last_of k none rs))
unfolding get_bytes
get_bytes-Log m capacity h g a l k =
    rw (a, scan_half-Log m (half_base capacity h) (half_len capacity) k l) refl

pub halves_below :
    (capacity h : ℕ)
    → h ≤ 1
    → half_base capacity h + half_len capacity ≤ region capacity - 2 * super_len
halves_below capacity zero b = omega arith
halves_below capacity (suc zero) b = omega arith
halves_below capacity (suc (suc h)) b = absurd (omega arith)

value_of-read :
    (m : Mem) (base end : ℕ) (value : List ℕ)
    → read m (base + end + kv_header) (length value) ≡ value
    → value_of m base (some (end, length value)) ≡ stored value
value_of-read m base end [] e = refl
value_of-read m base end (b ∷ bs) e = ap some e

module _ (m m' : Mem) (capacity h g : ℕ) (key : ℕ) (value : List ℕ) {rs : List Rec} {free : ℕ}
    (a : active m capacity ≡ some (h, g))
    (l : Log m (half_base capacity h) (half_len capacity) 0 rs free) where
  active-Kept :
      ((i : ℕ)
        → (i < half_base capacity h + free) ⊎ (half_base capacity h + half_len capacity ≤ i)
        → m' i ≡ m i)
      → active m' capacity ≡ some (h, g)
  active-Kept kept =
      let below = halves_below capacity h (active-le m capacity h g a) in
      active-Same m m' capacity (λ i lo. kept i (inr (omega (arith, below)))) ∙ a

  pub get_bytes-Old :
      Old m (half_base capacity h) (half_len capacity) free key value m'
      → (k : ℕ) → get_bytes m' capacity k ≡ get_bytes m capacity k
  get_bytes-Old (kept, n) k =
      let same = λ (i : ℕ) (lo : half_base capacity h ≤ i) (hi : i < half_base capacity h + free).
        kept i (inl hi) in
      let l' = Log-keep m m' (half_base capacity h) (half_len capacity) l same n in
      let stays =
        value-Same m m' (half_base capacity h) (half_len capacity) k none l
          (λ i lo hi. same i (omega arith) hi) refl in
      get_bytes-Log m' capacity h g (active-Kept kept) l' k
      ∙ (ap (λ v. if k == 0 then none else v) stays ∙ sym (get_bytes-Log m capacity h g a l k))

  pub get_bytes-New :
      1 ≤ key
      → New m (half_base capacity h) (half_len capacity) free key value m'
      → (k : ℕ) → get_bytes m' capacity k ≡ with_value key value (get_bytes m capacity) k
  get_bytes-New k1 (kept, e, r, n) k =
      let same = λ (i : ℕ) (lo : half_base capacity h ≤ i) (hi : i < half_base capacity h + free).
        kept i (inl hi) in
      let l' =
        Log-snoc m m' (half_base capacity h) (half_len capacity) key (length value) l same e n in
      let value_k =
        value_of-snoc m m' (half_base capacity h) (half_len capacity) key (length value) k l same in
      let new = value_of-read m' (half_base capacity h) free value r in
      let before = get_bytes-Log m capacity h g a l k in
      get_bytes-Log m' capacity h g (active-Kept kept) l' k ∙ (elim (Bool-cases (key == k)) [
        | inl t ↦
            let other : (k == 0) ≡ false = ground arith in rw (t, other) (value_k ∙ (rw (t) new))
        | inr f ↦
            rw (f) (ap (λ v. if k == 0 then none else v) (value_k ∙ (rw (f) refl)) ∙ sym before)
      ])
