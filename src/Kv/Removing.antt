-- ===== src/Kv/Removing.antt =====
-- `delete` and `compact`.
use tower.Prelude.{
  ℕ, zero, suc, ◌+◌, ◌-◌, ◌≤◌, ◌<◌, ◌≡◌, refl, sym, ap, subst, inl, inr, false, Bool-cases, Option,
  none, some, [], ◌==◌, u32_max, arith,
}
use tower.Kv.Eeprom.{Mem, Eeprom}
use tower.Kv.Layout.{half_len, half_base, active}
use tower.Kv.Scan.{get_bytes, scan_half, value_of}
use tower.Kv.Flip.{flip, compact_in, compact}
use tower.Kv.Store.{is_live, set_bytes, delete_with, delete}
use tower.Kv.Steps.{Leaves, Leaves-weaken}
use tower.Kv.Dead.{SameMap}
use tower.Kv.Compaction.{Flipped, FlipCut, flip-Leaves}
use tower.Kv.Setting.{Sound, Updated, Set, SetCut, set_bytes-Leaves}

dead_value :
    (m : Mem) (base : ℕ) (found : Option (ℕ × ℕ))
    → is_live found ≡ false
    → value_of m base found ≡ none
dead_value m base none e = refl
dead_value m base (some (off, zero)) e = refl
dead_value m base (some (off, suc k)) e = absurd (ground arith)

module _ {S : Type 0} (ee : Eeprom S) (capacity : ℕ) where
  pub absent-Updated :
      (s : S) (h g key : ℕ)
      → active (ee.bytes s) capacity ≡ some (h, g)
      → is_live (scan_half (ee.bytes s) (half_base capacity h) (half_len capacity) key).1 ≡ false
      → Updated (ee.bytes s) (ee.bytes s) capacity key []
  unfolding get_bytes
  absent-Updated s h g key a dead k = elim (Bool-cases (key == k)) [
    | inl t ↦
        let same : key ≡ k = ground arith in
        rw (t) (elim (Bool-cases (k == 0)) [
          | inl z ↦ rw (z) refl
          | inr nz ↦
              rw (nz, a)
                (subst
                  (λ x.
                    value_of (ee.bytes s) (half_base capacity h)
                      (scan_half (ee.bytes s) (half_base capacity h) (half_len capacity) x).1
                    ≡ none)
                  same (dead_value (ee.bytes s) (half_base capacity h) _ dead))
        ])
    | inr f ↦ rw (f) refl
  ]

  -- In a region of at most `u32::MAX` bytes that is formatted (one half is active, with a
  -- generation from 1 to `n`, and the generation of the other superblock, where its checksum is
  -- right, is older or the next one), with `n` below `u32::MAX`, for a key from 1 to 65535: a
  -- `delete` that succeeds leaves the map without the key and every other key as it was; one that
  -- fails leaves either the old map or that new one. In each case the region is formatted, with a
  -- generation of at most `n + 1`. A write that fails may stop between two words or leave the word
  -- in work erased, or garbled so that no checksum passes over it.
  pub delete-Leaves :
      (key : ℕ) (s : S) (n : ℕ)
      → 1 ≤ key
      → key < 65536
      → capacity ≤ u32_max
      → Sound (ee.bytes s) capacity n
      → n < u32_max
      → Leaves
          (Set ee capacity key [] (ee.bytes s) (n + 1))
          (SetCut ee capacity key [] (ee.bytes s) (n + 1))
          (delete ee capacity key s)
  unfolding delete delete_with set_bytes
  delete-Leaves key s n k1 k2 small sound lt =
      let (h, g, f, le) = sound in
      let valid : (key == 0) ≡ false = ground arith in
      rw (valid, f.0)
        (elim (Bool-cases
          (is_live (scan_half (ee.bytes s) (half_base capacity h) (half_len capacity) key).1)) [
            | inl live ↦
                rw (live)
                  (set_bytes-Leaves ee capacity key [] k1 k2 (omega arith) s n small sound lt)
            | inr dead ↦ rw (dead) ((h, g, f, omega arith), absent-Updated s h g key f.0 dead)
          ])

  -- After `compact`.
  abbrev pub Compacted : S → ℕ → S → Type 0
  Compacted s n s' = Sound (ee.bytes s') capacity n × SameMap (ee.bytes s) (ee.bytes s') capacity

  -- In a region of at most `u32::MAX` bytes that is formatted (one half is active, with a
  -- generation from 1 to `n`, and the generation of the other superblock, where its checksum is
  -- right, is older or the next one), with `n` below `u32::MAX`, `compact` changes no key for a
  -- reader, whether it succeeds or fails at any write; the region stays formatted, with a
  -- generation of at most `n + 1`. A write that fails may stop between two words or leave the word
  -- in work erased, or garbled so that no checksum passes over it.
  pub compact-Leaves :
      (s : S) (n : ℕ)
      → capacity ≤ u32_max
      → Sound (ee.bytes s) capacity n
      → n < u32_max
      → Leaves (λ u s'. Compacted s (n + 1) s') (Compacted s (n + 1)) (compact ee capacity s)
  unfolding compact
  compact-Leaves s n small (h, g, f, le) lt =
      let b : g < u32_max = omega arith in
      subst (Leaves (λ u s'. Compacted s (n + 1) s') (Compacted s (n + 1)))
        (sym (ap (λ a. compact_in ee capacity a s) f.0))
        (Leaves-weaken (Flipped ee capacity h g b s) (FlipCut ee capacity h g b s)
          (λ u s'. Compacted s (n + 1) s') (Compacted s (n + 1)) (flip ee capacity h g s)
          (flip-Leaves ee capacity h g b s small f)
          (λ u s' (f', same). ((1 - h, g + 1, f', omega arith), same))
          (λ s' cut. elim cut [
            | inl (old, same) ↦ ((h, g, old, omega arith), same)
            | inr (new, same) ↦ ((1 - h, g + 1, new, omega arith), same)
          ]))
