-- ===== src/Kv/Pack.antt =====
-- Pass 2 of `flip` over a whole log: the half it packs, and what is read there.
use tower.Prelude.{
  ℕ, zero, suc, ◌+◌, ◌≤◌, ◌<◌, ◌≡◌, refl, ap₂, ◌∙◌, ◌⊎◌, inl, inr, true, false, Bool-cases, Option,
  none, some, List, [], ◌∷◌, ◌++◌, length, leb, ltb, ◌==◌, ◌&&◌, not, if◌then◌else◌, arith,
}
use tower.Kv.Eeprom.{Mem, Eeprom, read, put}
use tower.Kv.Layout.{record_size}
use tower.Kv.Scan.{entry, Latest, is_latest, value_of}
use tower.Kv.Flip.{copy_live}
use tower.Kv.Log.{
  Rec, Log, stop, more, last_of, Log-bounds, entry-fits, entry-tag, entry-Same, Same,
}
use tower.Kv.Steps.{Kept, Leaves, Leaves-then_do, Leaves-weaken, Kept-Kept, put-Leaves, Wrote, Tore}
use tower.Kv.View.{Log-snoc, value_of-snoc}
use tower.Kv.Blank.{Zeros}
use tower.Kv.Live.{copied_of, copied_of-last}
use tower.Kv.Table.{TableOf}
use tower.Kv.Copy.{length-read, Copied, At-Copied, entry-Copied, value_of-Copied, entry-Zeros}

-- The half at `dst` holds these copies and zeros behind them; `acc` is what is read there.
abbrev pub Packed : Mem → Mem → ℕ → ℕ → List Rec → ℕ → (ℕ → Option (List ℕ)) → Type 0
Packed m m' dst half ds wr acc =
    Kept m m' dst (dst + half)
    × Log m' dst half 0 ds wr
    × Zeros m' (dst + wr) (dst + half)
    × (wr ≤ half)
    × ((k : ℕ) → value_of m' dst (last_of k none ds) ≡ acc k)

-- Some copies have been made, which read as `acc`.
abbrev pub Done :
    {S : Type 0} → Eeprom S → Mem → ℕ → ℕ → (ℕ → Option (List ℕ)) → Unit {0} → S → Type 0
Done ee m dst half acc u s = (ds : List Rec) × (wr : ℕ) × Packed m (ee.bytes s) dst half ds wr acc

abbrev pub Cut : {S : Type 0} → Eeprom S → Mem → ℕ → ℕ → S → Type 0
Cut ee m dst half s = Kept m (ee.bytes s) dst (dst + half)

module _ {S : Type 0} (ee : Eeprom S) (m : Mem) (src dst half src_free : ℕ) (latest : Latest)
    (apart : (src + half ≤ dst) ⊎ (dst + half ≤ src)) where
  -- One record more.
  pub Packed-more :
      (m1 m2 : Mem) (ds : List Rec) (wr : ℕ) (acc : ℕ → Option (List ℕ)) (o tag len : ℕ)
      → Packed m m1 dst half ds wr acc
      → entry m src half o ≡ some (tag, len)
      → wr + record_size len ≤ half
      → Kept m1 m2 (dst + wr) (dst + wr + record_size len)
      → Copied m m2 (src + o) (dst + wr) (record_size len)
      → Packed m m2 dst half
          (ds ++ (record { off = wr; tag = tag; len = len } ∷ []))
          (wr + record_size len)
          (λ k. if tag == k then value_of m src (some (o, len)) else acc k)
  Packed-more m1 m2 ds wr acc o tag len (kept, lg, zs, le, vals) e fits k c =
      let same = λ (i : ℕ) (lo : dst ≤ i) (hi : i < dst + wr). k i (inl hi) in
      let zs' : Zeros m2 (dst + (wr + record_size len)) (dst + half) =
        λ i lo hi. k i (inr (omega arith)) ∙ zs i (omega arith) hi in
      let lg' =
        Log-snoc m1 m2 dst half tag len lg same
          (entry-Copied m m2 src dst half o wr tag len e c fits)
          (entry-Zeros m2 dst half (wr + record_size len) zs') in
      (
        Kept-Kept kept (λ i h. k i (ground arith)),
        lg',
        zs',
        fits,
        λ key.
            value_of-snoc m1 m2 dst half tag len key lg same
            ∙ ap₂ (λ x y. if tag == key then x else y) (value_of-Copied m m2 src dst o wr len c)
                (vals key),
      )

  pub src_Same : (m1 : Mem) → Kept m m1 dst (dst + half) → Same m m1 src (src + half)
  src_Same m1 k i lo hi = k i (ground (arith, apart))

  pub entry-src :
      (m1 : Mem) (o tag len : ℕ)
      → Kept m m1 dst (dst + half)
      → entry m src half o ≡ some (tag, len)
      → entry m1 src half o ≡ some (tag, len)
  entry-src m1 o tag len k e =
      let (fit, t1, v, le) = entry-fits m src half o tag len e in
      entry-Same m m1 src half o (λ i lo hi. src_Same m1 k i (omega arith) (omega arith))
        (λ i lo hi. src_Same m1 k i (omega arith) (omega (arith, le)))
      ∙ e

  copy_live-Leaves :
      (fuel : ℕ) (ds : List Rec) (wr : ℕ) (acc : ℕ → Option (List ℕ)) (s : S) {o : ℕ}
      {rs : List Rec}
      → Log m src half o rs src_free
      → src_free ≤ half
      → length rs ≤ fuel
      → Packed m (ee.bytes s) dst half ds wr acc
      → Leaves
          (Done ee m dst half (λ k. copied_of m src half latest k (acc k) rs))
          (Cut ee m dst half)
          (copy_live ee fuel src dst half src_free latest wr o s)
  unfolding copy_live copied_of
  copy_live-Leaves zero ds wr acc s (stop e) fr n p = (ds, wr, p)
  copy_live-Leaves zero ds wr acc s (more tag len e lg) fr n p = absurd (omega arith)
  copy_live-Leaves (suc fuel) ds wr acc s (stop {o} e) fr n p =
      let end : leb src_free o ≡ true = ground arith in rw (end) (ds, wr, p)
  copy_live-Leaves (suc fuel) ds wr acc s (more {o} {end} {rs} tag len e lg) fr n p =
      let (long, short) = Log-bounds m src half lg in
      let (kept, lgd, zs, le, vals) = p in
      let e' = entry-src (ee.bytes s) o tag len kept e in
      let (fit, t1, v, le2) = entry-fits (ee.bytes s) src half o tag len e' in
      let te = entry-tag (ee.bytes s) src half o tag len e' in
      let on : leb src_free o ≡ false = ground arith in
      let used : (tag == 0) ≡ false = ground arith in
      rw (on, te, used, le2)
        (elim (Bool-cases (not (len == 0) && is_latest tag o latest)) [
          | inr dead ↦ rw (dead) (copy_live-Leaves fuel ds wr acc s lg fr (omega arith) p)
          | inl live ↦ rw (live) (elim (Bool-cases (ltb half (wr + record_size len))) [
            | inl over ↦ rw (over) kept
            | inr room ↦
                let d = read (ee.bytes s) (src + o) (record_size len) in
                let ld = length-read (ee.bytes s) (src + o) (record_size len) in
                let fits : wr + record_size len ≤ half = ground arith in
                rw (room) (
                  Leaves-then_do (Wrote ee s (dst + wr) d) (Tore ee s (dst + wr) d)
                    (Done ee m dst half (λ k.
                      copied_of m src half latest k
                        (if tag == k then value_of m src (some (o, len)) else acc k) rs))
                    (Cut ee m dst half)
                    (λ u.
                      copy_live ee fuel src dst half src_free latest (wr + record_size len)
                        (o + record_size len))
                    (put ee (dst + wr) d s) (put-Leaves ee (dst + wr) d s)
                    (λ u s1 (k, a).
                      copy_live-Leaves fuel (ds ++ (record { off = wr; tag = tag; len = len } ∷ []))
                        (wr + record_size len)
                        (λ key. if tag == key then value_of m src (some (o, len)) else acc key) s1
                        lg fr (omega arith)
                        (Packed-more (ee.bytes s) (ee.bytes s1) ds wr acc o tag len p e fits
                          (λ i h. k i (ground (arith, ld)))
                          (λ i b.
                            At-Copied (ee.bytes s) (ee.bytes s1) (src + o) (dst + wr)
                              (record_size len) a i b
                            ∙ src_Same (ee.bytes s) kept (src + o + i) (omega arith)
                                (omega arith))))
                    (λ s' (k, t). Kept-Kept kept (λ i h. k i (ground (arith, ld)))))
          ])
        ])

  -- From a blank half: what is read is what was read at the source.
  pub pack-Leaves :
      (s : S) {rs : List Rec}
      → Log m src half 0 rs src_free
      → TableOf latest (λ k. last_of k none rs)
      → Kept m (ee.bytes s) dst (dst + half)
      → Zeros (ee.bytes s) dst (dst + half)
      → Leaves
          (Done ee m dst half (λ k. value_of m src (last_of k none rs)))
          (Cut ee m dst half)
          (copy_live ee src_free src dst half src_free latest 0 0 s)
  unfolding last_of
  pack-Leaves s {rs} lg tab k zs =
      let (long, short) = Log-bounds m src half lg in
      let zs' : Zeros (ee.bytes s) (dst + 0) (dst + half) = λ i lo hi. zs i (omega arith) hi in
      Leaves-weaken (Done ee m dst half (λ k. copied_of m src half latest k none rs))
        (Cut ee m dst half) (Done ee m dst half (λ k. value_of m src (last_of k none rs)))
        (Cut ee m dst half) (copy_live ee src_free src dst half src_free latest 0 0 s)
        (copy_live-Leaves src_free [] 0 (λ k. none) s lg (short (omega arith)) (omega arith)
          (k, stop (entry-Zeros (ee.bytes s) dst half 0 zs'), zs', omega arith, λ key. refl))
        (λ u s' (ds, wr, (k', lg', z', le, vals)). (
          ds,
          wr,
          (k', lg', z', le, λ key. vals key ∙ copied_of-last m src half latest key lg tab),
        ))
        (λ s' c. c)
