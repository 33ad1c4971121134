-- ===== src/Kv/Chain.antt =====
-- Records that follow each other in a half, without what stands behind them.
use tower.Prelude.{
  ℕ, zero, suc, ◌+◌, ◌≤◌, ◌≡◌, refl, ap, ap₂, ◌∙◌, inl, inr, Bool-cases, Option, some, List, [],
  ◌∷◌, ◌++◌, ◌==◌, ◌&&◌, not, if◌then◌else◌, arith,
}
use tower.Kv.Eeprom.{Mem}
use tower.Kv.Layout.{kv_header, record_size, u16_at}
use tower.Kv.Scan.{entry, Latest, is_latest, value_of}
use tower.Kv.Log.{Rec, Log, stop, more, last_of, Same, entry-fits, entry-Same, read-Same}
use tower.Kv.Live.{copied_of}

-- From offset `o` up to `end` stand these records.
pub data Chain (m : Mem) (base area : ℕ) : ℕ → List Rec → ℕ → Type 0 where
  done : {o : ℕ} → Chain m base area o [] o
  next :
      {o end : ℕ} {rs : List Rec} (tag len : ℕ)
      → entry m base area o ≡ some (tag, len)
      → Chain m base area (o + record_size len) rs end
      → Chain m base area o (record { off = o; tag = tag; len = len } ∷ rs) end

module _ (m : Mem) (base area : ℕ) where
  pub Chain-Log :
      {o end : ℕ} {rs : List Rec} → Log m base area o rs end → Chain m base area o rs end
  Chain-Log (stop e) = done
  Chain-Log (more tag len e l) = next tag len e (Chain-Log l)

  pub Chain-bounds :
      {o end : ℕ} {rs : List Rec}
      → Chain m base area o rs end
      → (o ≤ end) × ((o ≤ area) → end ≤ area)
  Chain-bounds done = (omega arith, λ h. h)
  Chain-bounds (next {o} {end} {rs} tag len e c) =
      let (long, short) = Chain-bounds c in
      let (fits, t, v, l2) = entry-fits m base area o tag len e in (omega arith, λ h. short fits)

  -- A chain and the log behind it.
  pub Log-Chain :
      {o mid end : ℕ} {rs rs' : List Rec}
      → Chain m base area o rs mid
      → Log m base area mid rs' end
      → Log m base area o (rs ++ rs') end
  Log-Chain done l = l
  Log-Chain (next tag len e c) l = more tag len e (Log-Chain c l)

  pub Chain-nil : {o end : ℕ} → Chain m base area o [] end → o ≡ end
  Chain-nil done = refl

  pub Chain-uncons :
      {o end : ℕ} {r : Rec} {rs : List Rec}
      → Chain m base area o (r ∷ rs) end
      → (r.off ≡ o)
        × (entry m base area o ≡ some (r.tag, r.len))
        × Chain m base area (o + record_size r.len) rs end
  Chain-uncons (next tag len e c) = (refl, e, c)

  pub Chain-snoc :
      {o w : ℕ} {rs : List Rec} (tag len : ℕ)
      → Chain m base area o rs w
      → entry m base area w ≡ some (tag, len)
      → Chain m base area o
          (rs ++ (record { off = w; tag = tag; len = len } ∷ []))
          (w + record_size len)
  Chain-snoc tag len done e = next tag len e done
  Chain-snoc tag len (next t l e c) e' = next t l e (Chain-snoc tag len c e')

module _ (m m' : Mem) (base area : ℕ) where
  entry-kept :
      (o tag len : ℕ)
      → Same m m' (base + o) (base + (o + record_size len))
      → entry m base area o ≡ some (tag, len)
      → entry m' base area o ≡ some (tag, len)
  entry-kept o tag len same e =
      let le : u16_at m (base + o + 2) ≡ len = (entry-fits m base area o tag len e).3 in
      entry-Same m m' base area o (λ i lo hi. same i (omega arith) (omega arith))
        (λ i lo hi. same i (omega arith) (omega arith))
      ∙ e

  pub Chain-Same :
      {o end : ℕ} {rs : List Rec}
      → Chain m base area o rs end
      → Same m m' (base + o) (base + end)
      → Chain m' base area o rs end
  Chain-Same done same = done
  Chain-Same (next {o} {end} {rs} tag len e c) same =
      let (long, short) = Chain-bounds m base area c in
      next tag len (entry-kept o tag len (λ i lo hi. same i lo (omega arith)) e)
        (Chain-Same c (λ i lo hi. same i (omega arith) hi))

  value_of-kept :
      (o len : ℕ)
      → Same m m' (base + o) (base + (o + record_size len))
      → value_of m' base (some (o, len)) ≡ value_of m base (some (o, len))
  value_of-kept o zero same = refl
  value_of-kept o (suc k) same = ap some (
      read-Same m m' (base + o + kv_header) (suc k) (λ i lo hi. same i (omega arith) (omega arith)))

  pub last_of-Same :
      (key : ℕ) (found : Option (ℕ × ℕ)) {o end : ℕ} {rs : List Rec}
      → Chain m base area o rs end
      → Same m m' (base + o) (base + end)
      → value_of m' base found ≡ value_of m base found
      → value_of m' base (last_of key found rs) ≡ value_of m base (last_of key found rs)
  unfolding last_of
  last_of-Same key found done same h = h
  last_of-Same key found (next {o} {end} {rs} tag len e c) same h =
      let (long, short) = Chain-bounds m base area c in
      last_of-Same key (if tag == key then some (o, len) else found) c
        (λ i lo hi. same i (omega arith) hi)
        (elim (Bool-cases (tag == key)) [
          | inl t ↦ rw (t) (value_of-kept o len (λ i lo hi. same i lo (omega arith)))
          | inr f ↦ rw (f) h
        ])

  pub copied_of-Same :
      (latest : Latest) (key : ℕ) (acc acc' : Option (List ℕ)) {o end : ℕ} {rs : List Rec}
      → Chain m base area o rs end
      → Same m m' (base + o) (base + end)
      → acc' ≡ acc
      → copied_of m' base area latest key acc' rs ≡ copied_of m base area latest key acc rs
  unfolding copied_of
  copied_of-Same latest key acc acc' done same h = h
  copied_of-Same latest key acc acc' (next {o} {end} {rs} tag len e c) same h =
      let (long, short) = Chain-bounds m base area c in
      let v = value_of-kept o len (λ i lo hi. same i lo (omega arith)) in
      let read_on = λ (x y : Option (List ℕ)).
        if not (len == 0) && is_latest tag o latest then if tag == key then x else y else y in
      copied_of-Same latest key (read_on (value_of m base (some (o, len))) acc)
        (read_on (value_of m' base (some (o, len))) acc') c (λ i lo hi. same i (omega arith) hi)
        (ap₂ read_on v h)
