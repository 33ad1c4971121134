-- ===== src/Kv/Wiping.antt =====
-- `wipe` of a formatted region.
use tower.Prelude.{
  ℕ, ◌+◌, ◌-◌, ◌≤◌, ◌<◌, ◌≡◌, refl, sym, ap, subst, ◌∙◌, ◌⊎◌, inl, inr, Bool-cases, none, [], ◌==◌,
  u32_max, arith,
}
use tower.Kv.Eeprom.{Mem, Eeprom, ◌>>◌}
use tower.Kv.Layout.{half_len, half_base, next_gen}
use tower.Kv.Write.{write_gen, blank}
use tower.Kv.Store.{wipe_in, wipe}
use tower.Kv.Log.{stop, last_of}
use tower.Kv.Steps.{Kept, Leaves, Leaves-then_do, Leaves-weaken}
use tower.Kv.View.{active-le}
use tower.Kv.Blank.{Zeros, Blank, Smudged, blank-Leaves}
use tower.Kv.Copy.{entry-Zeros}
use tower.Kv.Commit.{Formatted}
use tower.Kv.Dead.{SameMap, dead_half}
use tower.Kv.Compaction.{Reads, ReadyToCommit, Committed, CommitCut, not_yet, commit-Leaves}
use tower.Kv.Setting.{Sound}

-- No key has a value.
abbrev pub Empty : Mem → ℕ → Type 0
Empty m capacity = Reads m capacity (λ k. none)

blank_ready :
    (m m' : Mem) (capacity h : ℕ)
    → Kept m m' (half_base capacity (1 - h)) (half_base capacity (1 - h) + half_len capacity)
    → Zeros m' (half_base capacity (1 - h)) (half_base capacity (1 - h) + half_len capacity)
    → ReadyToCommit m m' capacity h (λ k. none)
unfolding last_of
blank_ready m m' capacity h k zs = (
  k,
  (
    [],
    0,
    stop (
        entry-Zeros m' (half_base capacity (1 - h)) (half_len capacity) 0
          (λ i lo hi. zs i (omega arith) hi)),
    λ key. elim (Bool-cases (key == 0)) [ inl t ↦ rw (t) refl | inr f ↦ rw (f) refl ],
  ),
)

module _ {S : Type 0} (ee : Eeprom S) (capacity : ℕ) where
  abbrev pub Wiped : ℕ → Unit {0} → S → Type 0
  Wiped n u s' = Sound (ee.bytes s') capacity n × Empty (ee.bytes s') capacity

  abbrev pub WipeCut : S → ℕ → S → Type 0
  WipeCut s n s' =
      Sound (ee.bytes s') capacity n
      × (SameMap (ee.bytes s) (ee.bytes s') capacity ⊎ Empty (ee.bytes s') capacity)

  -- What is blanked after the commit is the dead half.
  still-Empty :
      (s s' : S) (h g n : ℕ)
      → h ≤ 1
      → g + 1 ≤ n
      → Formatted (ee.bytes s) capacity (1 - h) (g + 1) × Empty (ee.bytes s) capacity
      → Kept
          (ee.bytes s)
          (ee.bytes s')
          (half_base capacity h)
          (half_base capacity h + half_len capacity)
      → Wiped n tt s'
  still-Empty s s' h g n b le (f, e) k =
      let back : 1 - (1 - h) ≡ h = omega arith in
      let (f', same) = dead_half (ee.bytes s) (ee.bytes s') capacity (1 - h) (g + 1) f (
        subst
          (λ x.
            Kept (ee.bytes s) (ee.bytes s') (half_base capacity x)
              (half_base capacity x + half_len capacity))
          (sym back) k) in
      ((1 - h, g + 1, f', omega arith), λ key. same key ∙ e key)

  -- In a region of at most `u32::MAX` bytes that is formatted (one half is active, with a
  -- generation from 1 to `n`, and the generation of the other superblock, where its checksum is
  -- right, is older or the next one), with `n` below `u32::MAX`: a `wipe` that succeeds leaves no
  -- key with a value; one that fails at any write leaves either the old map or the empty one. In
  -- each case the region is formatted, with a generation of at most `n + 1`. A write that fails may
  -- stop between two words or leave the word in work erased, or garbled so that no checksum passes
  -- over it.
  pub wipe-Leaves :
      (s : S) (n : ℕ)
      → capacity ≤ u32_max
      → Sound (ee.bytes s) capacity n
      → n < u32_max
      → Leaves (Wiped (n + 1)) (WipeCut s (n + 1)) (wipe ee capacity s)
  unfolding wipe
  wipe-Leaves s n small (h, g, f, le) lt =
      let dst = half_base capacity (1 - h) in
      let half = half_len capacity in
      let b = active-le (ee.bytes s) capacity h g f.0 in
      let b32 : g < u32_max = omega arith in
      let cut : (s' : S) → CommitCut ee capacity h g b32 s (λ k. none) s' → WipeCut s (n + 1) s' =
        λ s' c. elim c [
          | inl (old, same) ↦ ((h, g, old, omega arith), inl same)
          | inr (new, e) ↦ ((1 - h, g + 1, new, omega arith), inr e)
        ] in
      let rest =
        write_gen ee capacity (1 - h) (next_gen g) >> blank ee (half_base capacity h) half in
      subst (Leaves (Wiped (n + 1)) (WipeCut s (n + 1)))
        (sym (ap (λ a. wipe_in ee capacity a s) f.0))
        (Leaves-then_do (Blank ee dst half s) (Smudged ee dst half s) (Wiped (n + 1))
          (WipeCut s (n + 1)) (λ u. rest) (blank ee dst half s)
          (blank-Leaves ee dst half (omega arith) s (omega arith))
          (λ u s1 (k, zs).
            Leaves-then_do (λ u s'. Committed ee capacity h g b32 (λ k. none) s')
              (CommitCut ee capacity h g b32 s (λ k. none)) (Wiped (n + 1)) (WipeCut s (n + 1))
              (λ u. blank ee (half_base capacity h) half)
              (write_gen ee capacity (1 - h) (next_gen g) s1)
              (commit-Leaves ee capacity h g b32 s s1 (λ k. none) f
                (blank_ready (ee.bytes s) (ee.bytes s1) capacity h k zs))
              (λ u s2 c.
                Leaves-weaken (Blank ee (half_base capacity h) half s2)
                  (Smudged ee (half_base capacity h) half s2) (Wiped (n + 1)) (WipeCut s (n + 1))
                  (blank ee (half_base capacity h) half s2)
                  (blank-Leaves ee (half_base capacity h) half (omega arith) s2 (omega arith))
                  (λ u s3 (k3, z3). still-Empty s2 s3 h g (n + 1) b (omega arith) c k3)
                  (λ s3 k3.
                    let (sound, e) = still-Empty s2 s3 h g (n + 1) b (omega arith) c k3 in
                    (sound, inr e)))
              (λ s' c. cut s' c))
          (λ s' k. cut s' (not_yet ee capacity h g b32 s s' (λ k. none) f k)))
