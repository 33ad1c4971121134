-- ===== src/Kv/Log.antt =====
-- The log of a half: the records that every walk over it meets, in order, and where it ends.
use tower.Prelude.{
  ℕ, zero, suc, ◌+◌, ◌*◌, ◌≤◌, ◌<◌, ◌≡◌, refl, ap, ap₂, ◌∙◌, Option, none, some, List, [], ◌∷◌,
  ◌++◌, length, ◌==◌, if◌then◌else◌, Bool-cases, Option-cases, inl, inr, arith,
}
use tower.Kv.Eeprom.{Mem, read}
use tower.Kv.Layout.{kv_header, record_size, max_value, u16_at}
use tower.Kv.Scan.{entry, scan_from, scan_half, value_of}

pub record Rec : Type 0 where
  pub off : ℕ
  pub tag : ℕ
  pub len : ℕ

-- From offset `o` the walks meet these records and end at `end`.
pub data Log (m : Mem) (base area : ℕ) : ℕ → List Rec → ℕ → Type 0 where
  stop : {o : ℕ} → entry m base area o ≡ none → Log m base area o [] o
  more :
      {o end : ℕ} {rs : List Rec} (tag len : ℕ)
      → entry m base area o ≡ some (tag, len)
      → Log m base area (o + record_size len) rs end
      → Log m base area o (record { off = o; tag = tag; len = len } ∷ rs) end

-- The last record of a tag, as the scan keeps it.
unfoldable pub last_of : ℕ → Option (ℕ × ℕ) → List Rec → Option (ℕ × ℕ)
last_of target found [] = found
last_of target found (r ∷ rs) =
    last_of target (if r.tag == target then some (r.off, r.len) else found) rs

module _ (m : Mem) (base area : ℕ) where
  pub entry-fits :
      (o tag len : ℕ)
      → entry m base area o ≡ some (tag, len)
      → (o + record_size len ≤ area)
        × (1 ≤ tag)
        × (len ≤ max_value)
        × (u16_at m (base + o + 2) ≡ len)
  unfolding entry
  entry-fits o tag len e = ground arith

  pub entry-tag :
      (o tag len : ℕ) → entry m base area o ≡ some (tag, len) → u16_at m (base + o) ≡ tag
  unfolding entry
  entry-tag o tag len e = ground arith

  pub entry-none : (o : ℕ) → area < o + kv_header → entry m base area o ≡ none
  unfolding entry
  entry-none o h = ground arith

  -- Every half has a log.
  pub Log-from :
      (fuel o : ℕ)
      → area < o + 8 * fuel + 8
      → (rs : List Rec) × (end : ℕ) × Log m base area o rs end
  Log-from zero o h = ([], o, stop (entry-none o (omega arith)))
  Log-from (suc fuel) o h = elim (Option-cases (entry m base area o)) [
    | inl e ↦ ([], o, stop e)
    | inr ((tag, len), e) ↦
        let (rs, end, l) = Log-from fuel (o + record_size len) (omega arith) in
        (record { off = o; tag = tag; len = len } ∷ rs, end, more tag len e l)
  ]

  pub Log-total : (rs : List Rec) × (end : ℕ) × Log m base area 0 rs end
  Log-total = Log-from area 0 (omega arith)

  pub Log-bounds :
      {o end : ℕ} {rs : List Rec}
      → Log m base area o rs end
      → (o + 8 * length rs ≤ end) × ((o ≤ area) → end ≤ area)
  Log-bounds (stop e) = (omega arith, λ h. h)
  Log-bounds (more {o} {end} {rs} tag len e l) =
      let (long, short) = Log-bounds l in
      let (fits, t, v, l2) = entry-fits o tag len e in (omega arith, λ h. short fits)

  pub Log-end :
      {o end : ℕ} {rs : List Rec} → Log m base area o rs end → entry m base area end ≡ none
  Log-end (stop e) = e
  Log-end (more tag len e l) = Log-end l

  scan_from-Log :
      (fuel target : ℕ) (found : Option (ℕ × ℕ)) {o end : ℕ} {rs : List Rec}
      → Log m base area o rs end
      → length rs ≤ fuel
      → scan_from fuel m base area target o found ≡ (end, last_of target found rs)
  unfolding scan_from last_of
  scan_from-Log zero target found (stop e) h = refl
  scan_from-Log (suc fuel) target found (stop e) h = rw (e, scan_from) refl
  scan_from-Log zero target found (more tag len e l) h = absurd (omega arith)
  scan_from-Log (suc fuel) target found (more {o} tag len e l) h =
      rw (e, scan_from)
        (scan_from-Log fuel target (if tag == target then some (o, len) else found) l (omega arith))

  pub scan_half-Log :
      {end : ℕ} {rs : List Rec} (target : ℕ)
      → Log m base area 0 rs end
      → scan_half m base area target ≡ (end, last_of target none rs)
  unfolding scan_half
  scan_half-Log target l =
      let (long, short) = Log-bounds l in
      scan_from-Log area target none l (omega (arith, short (omega arith)))

-- Two memories hold the same bytes from `lo` up to `hi`.
abbrev pub Same : Mem → Mem → ℕ → ℕ → Type 0
Same m m' lo hi = (i : ℕ) → lo ≤ i → i < hi → m' i ≡ m i

pub read-Same : (m m' : Mem) (off n : ℕ) → Same m m' off (off + n) → read m' off n ≡ read m off n
unfolding read
read-Same m m' off zero h = refl
read-Same m m' off (suc n) h =
    ap₂ (λ x y. x ∷ y) (h off (omega arith) (omega arith))
      (read-Same m m' (off + 1) n (λ i lo hi. h i (omega arith) (omega arith)))

-- A step reads eight bytes and the value.
pub entry-Same :
    (m m' : Mem) (base area o : ℕ)
    → Same m m' (base + o) (base + o + kv_header)
    → Same m m' (base + o + kv_header) (base + o + kv_header + u16_at m (base + o + 2))
    → entry m' base area o ≡ entry m base area o
unfolding entry
entry-Same m m' base area o h v =
    let e0 : m' (base + o) ≡ m (base + o) = h (base + o) (omega arith) (omega arith) in
    let e1 : m' (base + o + 1) ≡ m (base + o + 1) = h (base + o + 1) (omega arith) (omega arith) in
    let e2 : m' (base + o + 2) ≡ m (base + o + 2) = h (base + o + 2) (omega arith) (omega arith) in
    let e3 : m' (base + o + 2 + 1) ≡ m (base + o + 2 + 1) =
      h (base + o + 2 + 1) (omega arith) (omega arith) in
    let e4 : m' (base + o + 4) ≡ m (base + o + 4) = h (base + o + 4) (omega arith) (omega arith) in
    let e5 : m' (base + o + 4 + 1) ≡ m (base + o + 4 + 1) =
      h (base + o + 4 + 1) (omega arith) (omega arith) in
    let e6 : m' (base + o + 4 + 2) ≡ m (base + o + 4 + 2) =
      h (base + o + 4 + 2) (omega arith) (omega arith) in
    let e7 : m' (base + o + 4 + 3) ≡ m (base + o + 4 + 3) =
      h (base + o + 4 + 3) (omega arith) (omega arith) in
    let hdr = read-Same m m' (base + o) 4 (λ i lo hi. h i lo (omega arith)) in
    let val = read-Same m m' (base + o + kv_header) (u16_at m (base + o + 2)) v in
    rw (e0, e1, e2, e3, e4, e5, e6, e7, hdr, val) refl

module _ (m m' : Mem) (base area : ℕ) where
  value_of-Same :
      (o len : ℕ)
      → Same m m' (base + o + kv_header) (base + o + kv_header + len)
      → value_of m' base (some (o, len)) ≡ value_of m base (some (o, len))
  value_of-Same o zero same = refl
  value_of-Same o (suc k) same = ap some (read-Same m m' (base + o + kv_header) (suc k) same)

  -- The records of a log stay where their bytes stay; what follows them may be another log.
  pub Log-extend :
      {o mid : ℕ} {rs : List Rec}
      → Log m base area o rs mid
      → Same m m' (base + o) (base + mid)
      → {end : ℕ} (rs' : List Rec) → Log m' base area mid rs' end
      → Log m' base area o (rs ++ rs') end
  Log-extend (stop e) same rs' l' = l'
  Log-extend (more {o} {end} {rs} tag len e l) same rs' l' =
      let (long, short) = Log-bounds m base area l in
      let le : u16_at m (base + o + 2) ≡ len = (entry-fits m base area o tag len e).3 in
      more tag len
        (entry-Same m m' base area o (λ i lo hi. same i (omega arith) (omega arith))
            (λ i lo hi. same i (omega arith) (omega arith))
          ∙ e)
        (Log-extend l (λ i lo hi. same i (omega arith) (omega arith)) rs' l')

  -- A value is read alike where the bytes of its record stay.
  pub value-Same :
      (key : ℕ) (found : Option (ℕ × ℕ)) {o mid : ℕ} {rs : List Rec}
      → Log m base area o rs mid
      → Same m m' (base + o) (base + mid)
      → value_of m' base found ≡ value_of m base found
      → value_of m' base (last_of key found rs) ≡ value_of m base (last_of key found rs)
  unfolding last_of
  value-Same key found (stop e) same h = h
  value-Same key found (more {o} {end} {rs} tag len e l) same h =
      let (long, short) = Log-bounds m base area l in
      value-Same key (if tag == key then some (o, len) else found) l
        (λ i lo hi. same i (omega arith) (omega arith))
        (elim (Bool-cases (tag == key)) [
          | inl t ↦ rw (t) (value_of-Same o len (λ i lo hi. same i (omega arith) (omega arith)))
          | inr f ↦ rw (f) h
        ])
