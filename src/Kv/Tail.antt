-- ===== src/Kv/Tail.antt =====
-- `flip_commit`: the records that were appended after the planning are copied too, and the half is
-- committed.
use tower.Prelude.{
  ℕ, zero, suc, ◌+◌, ◌≤◌, ◌≡◌, refl, sym, ap, subst, ◌∙◌, ◌⊎◌, inl, inr, Bool-cases, Option, none,
  some, List, [], ◌∷◌, ◌++◌, length, ltb, ◌==◌, if◌then◌else◌, arith,
}
use tower.Kv.Eeprom.{Mem, Eeprom, read, put}
use tower.Kv.Layout.{record_size}
use tower.Kv.Scan.{entry, value_of}
use tower.Kv.Flip.{tail_by, copy_tail}
use tower.Kv.Log.{Rec, Log, stop, more, last_of, entry-fits}
use tower.Kv.Steps.{Kept, Leaves, Leaves-then_do, Kept-Kept, put-Leaves, Wrote, Tore}
use tower.Kv.Copy.{length-read, At-Copied}
use tower.Kv.Pack.{Packed, Packed-more, Done, Cut, src_Same}
use tower.Kv.Dead.{entry-half}

-- What is read of a key after these records are read behind `acc`.
unfoldable pub tail_of : Mem → ℕ → ℕ → Option (List ℕ) → List Rec → Option (List ℕ)
tail_of m base k acc [] = acc
tail_of m base k acc (r ∷ rs) =
    tail_of m base k (if r.tag == k then value_of m base (some (r.off, r.len)) else acc) rs

pub tail_of-last :
    (m : Mem) (base k : ℕ) (found : Option (ℕ × ℕ)) (rs : List Rec)
    → tail_of m base k (value_of m base found) rs ≡ value_of m base (last_of k found rs)
unfolding tail_of last_of
tail_of-last m base k found [] = refl
tail_of-last m base k found (r ∷ rs) = elim (Bool-cases (r.tag == k)) [
  | inl t ↦ rw (t) (tail_of-last m base k (some (r.off, r.len)) rs)
  | inr f ↦ rw (f) (tail_of-last m base k found rs)
]

pub last_of-append :
    (k : ℕ) (found : Option (ℕ × ℕ)) (rs rs' : List Rec)
    → last_of k found (rs ++ rs') ≡ last_of k (last_of k found rs) rs'
unfolding last_of
last_of-append k found [] rs' = refl
last_of-append k found (r ∷ rs) rs' =
    last_of-append k (if r.tag == k then some (r.off, r.len) else found) rs rs'

module _ {S : Type 0} (ee : Eeprom S) (m : Mem) (src dst half : ℕ)
    (apart : (src + half ≤ dst) ⊎ (dst + half ≤ src)) where
  -- The walk meets the same record as it would without the copies.
  tail_step :
      (fuel wr o : ℕ) (s : S) (x : Option (ℕ × ℕ))
      → Kept m (ee.bytes s) dst (dst + half)
      → entry m src half o ≡ x
      → copy_tail ee (suc fuel) src dst half wr o s
        ≡ tail_by ee src dst half wr o
            (λ size. copy_tail ee fuel src dst half (wr + size) (o + size))
            x
            s
  unfolding copy_tail
  tail_step fuel wr o s x k e =
      ap
        (λ r.
          tail_by ee src dst half wr o
            (λ size. copy_tail ee fuel src dst half (wr + size) (o + size)) r s)
        (entry-half m (ee.bytes s) src half o (src_Same ee m src dst half 0 [] apart (ee.bytes s) k)
          ∙ e)

  pub copy_tail-Leaves :
      (fuel : ℕ) (ds : List Rec) (wr : ℕ) (acc : ℕ → Option (List ℕ)) (s : S) {o end : ℕ}
      {rs : List Rec}
      → Log m src half o rs end
      → length rs ≤ fuel
      → Packed m (ee.bytes s) dst half ds wr acc
      → Leaves
          (Done ee m dst half (λ k. tail_of m src k (acc k) rs))
          (Cut ee m dst half)
          (copy_tail ee fuel src dst half wr o s)
  unfolding copy_tail tail_of
  copy_tail-Leaves zero ds wr acc s (stop e) n p = (ds, wr, p)
  copy_tail-Leaves zero ds wr acc s (more tag len e lg) n p = absurd (omega arith)
  copy_tail-Leaves (suc fuel) ds wr acc s (stop {o} e) n p =
      subst (Leaves (Done ee m dst half acc) (Cut ee m dst half))
        (sym (tail_step fuel wr o s none p.0 e)) (ds, wr, p)
  copy_tail-Leaves (suc fuel) ds wr acc s (more {o} {end} {rs} tag len e lg) n p =
      let (kept, lgd, zs, le, vals) = p in
      let size = record_size len in
      let rest = λ (n : ℕ). copy_tail ee fuel src dst half (wr + n) (o + n) in
      let after = λ (k : ℕ).
        tail_of m src k (if tag == k then value_of m src (some (o, len)) else acc k) rs in
      subst (Leaves (Done ee m dst half after) (Cut ee m dst half))
        (sym (tail_step fuel wr o s (some (tag, len)) kept e))
        (elim (Bool-cases (ltb half (wr + size))) [
          | inl over ↦ rw (over) kept
          | inr room ↦
              let d = read (ee.bytes s) (src + o) size in
              let ld = length-read (ee.bytes s) (src + o) size in
              let fits : wr + size ≤ half = ground arith in
              let (fit, t1, v, le2) = entry-fits m src half o tag len e in
              rw (room) (
                Leaves-then_do (Wrote ee s (dst + wr) d) (Tore ee s (dst + wr) d)
                  (Done ee m dst half after) (Cut ee m dst half) (λ u. rest size)
                  (put ee (dst + wr) d s) (put-Leaves ee (dst + wr) d s)
                  (λ u s1 (k, a).
                    copy_tail-Leaves fuel (ds ++ (record { off = wr; tag = tag; len = len } ∷ []))
                      (wr + size)
                      (λ key. if tag == key then value_of m src (some (o, len)) else acc key) s1 lg
                      (omega arith)
                      (Packed-more ee m src dst half 0 [] apart (ee.bytes s) (ee.bytes s1) ds wr acc
                        o tag len p e fits (λ i h. k i (ground (arith, ld)))
                        (λ i b.
                          At-Copied (ee.bytes s) (ee.bytes s1) (src + o) (dst + wr) size a i b
                          ∙ src_Same ee m src dst half 0 [] apart (ee.bytes s) kept (src + o + i)
                              (omega arith) (omega arith))))
                  (λ s' (k, t). Kept-Kept kept (λ i h. k i (ground (arith, ld)))))
        ])
