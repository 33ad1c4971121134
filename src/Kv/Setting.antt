-- ===== src/Kv/Setting.antt =====
-- `set_bytes`: the write of a key, with the flip that makes room for it.
use tower.Prelude.{
  ℕ, ◌+◌, ◌-◌, ◌≤◌, ◌<◌, ◌≡◌, refl, sym, ap, subst, ◌∙◌, ◌⊎◌, inl, inr, false, Bool-cases, List,
  length, leb, ltb, ◌==◌, if◌then◌else◌, u32_max, arith, none,
}
use tower.Kv.Eeprom.{Mem, Eeprom, Result, ◌>>◌}
use tower.Kv.Layout.{half_len, half_base, record_size, max_value}
use tower.Kv.Scan.{get_bytes}
use tower.Kv.Write.{append_end}
use tower.Kv.Flip.{flip}
use tower.Kv.Store.{
  result_of, log_end, append_fresh_in, append_fresh, set_in, set_bytes_with, set_bytes,
}
use tower.Kv.Log.{Log, Log-total, Log-end, scan_half-Log}
use tower.Kv.Steps.{Kept, Leaves, Leaves-then_do, Leaves-weaken}
use tower.Kv.View.{stored, with_value, active-le, halves_below, get_bytes-Old, get_bytes-New}
use tower.Kv.Append.{Old, New, append_end-Leaves}
use tower.Kv.Commit.{Formatted}
use tower.Kv.Dead.{SameMap, Formatted-kept}
use tower.Kv.Compaction.{Flipped, FlipCut, flip-Leaves}

-- A formatted region whose generation is `n` at most.
abbrev pub Sound : Mem → ℕ → ℕ → Type 0
Sound m capacity n = (h : ℕ) × (g : ℕ) × Formatted m capacity h g × (g ≤ n)

-- A reader finds the new value under the key, and the other keys as they were.
abbrev pub Updated : Mem → Mem → ℕ → ℕ → List ℕ → Type 0
Updated m m' capacity key value =
    (k : ℕ) → get_bytes m' capacity k ≡ with_value key value (get_bytes m capacity) k

module _ {S : Type 0} (ee : Eeprom S) (capacity key : ℕ) (value : List ℕ) where
  abbrev pub Set : Mem → ℕ → Unit {0} → S → Type 0
  Set m n u s' = Sound (ee.bytes s') capacity n × Updated m (ee.bytes s') capacity key value

  abbrev pub SetCut : Mem → ℕ → S → Type 0
  SetCut m n s' =
      Sound (ee.bytes s') capacity n
      × (SameMap m (ee.bytes s') capacity ⊎ Updated m (ee.bytes s') capacity key value)

  module _ (k1 : 1 ≤ key) (k2 : key < 65536) (v : length value ≤ max_value) where
    pub append_active :
        (s : S) (h g : ℕ)
        → Formatted (ee.bytes s) capacity h g
        → log_end (ee.bytes s) capacity h key + record_size (length value) ≤ half_len capacity
        → Leaves (Set (ee.bytes s) g) (SetCut (ee.bytes s) g) (
            append_end ee
              (half_base capacity h)
              (half_len capacity)
              (log_end (ee.bytes s) capacity h key)
              key
              value
              s)
    append_active s h g f fits =
        let m = ee.bytes s in
        let base = half_base capacity h in
        let half = half_len capacity in
        let free = log_end m capacity h key in
        let b = active-le m capacity h g f.0 in
        let below = halves_below capacity h b in
        let (rs, end, lg) = Log-total m base half in
        let lg' : Log m base half 0 rs free =
          subst (λ p. Log m base half 0 rs p.0) (sym (scan_half-Log m base half key lg)) lg in
        let sound : (s' : S)
            → Kept m (ee.bytes s') (base + free) (base + half)
            → Sound (ee.bytes s') capacity g =
          λ s' k. (
            h,
            g,
            Formatted-kept m (ee.bytes s') capacity h g f
                (λ i lo. k i (inr (omega (arith, below)))),
            omega arith,
          ) in
        let new = λ (s' : S) (n : New m base half free key value (ee.bytes s')).
          get_bytes-New m (ee.bytes s') capacity h g key value f.0 lg' k1 n in
        Leaves-weaken (λ u s'. New m base half free key value (ee.bytes s'))
          (λ s'.
            Old m base half free key value (ee.bytes s')
            ⊎ New m base half free key value (ee.bytes s'))
          (Set m g) (SetCut m g) (append_end ee base half free key value s)
          (append_end-Leaves m base half free key value ee k1 k2 v fits s (λ i. refl)
            (Log-end m base half lg'))
          (λ u s' n. (sound s' n.0, new s' n))
          (λ s' q. elim q [
            | inl o ↦
                (sound s' o.0, inl (get_bytes-Old m (ee.bytes s') capacity h g key value f.0 lg' o))
            | inr n ↦ (sound s' n.0, inr (new s' n))
          ])

    -- Every outcome before the append is that of a region that has not changed.
    unchanged : (s : S) (h g : ℕ) → Formatted (ee.bytes s) capacity h g → SetCut (ee.bytes s) g s
    unchanged s h g f = ((h, g, f, omega arith), inl (λ k. refl))

    pub append_fresh-Leaves :
        (s : S) (h g : ℕ)
        → Formatted (ee.bytes s) capacity h g
        → Leaves (Set (ee.bytes s) g) (SetCut (ee.bytes s) g) (append_fresh ee capacity key value s)
    unfolding append_fresh
    append_fresh-Leaves s h g f =
        subst (Leaves (Set (ee.bytes s) g) (SetCut (ee.bytes s) g))
          (sym (ap (λ a. append_fresh_in ee capacity key value a s) f.0))
          (elim (Bool-cases (
            ltb (half_len capacity)
              (log_end (ee.bytes s) capacity h key + record_size (length value)))) [
                | inl over ↦ rw (over) (unchanged s h g f)
                | inr room ↦ rw (room) (append_active s h g f (ground arith))
              ])

    Updated-after :
        (m m1 m' : Mem)
        → SameMap m m1 capacity
        → Updated m1 m' capacity key value
        → Updated m m' capacity key value
    Updated-after m m1 m' same up k = up k ∙ ap (λ v. if key == k then stored value else v) (same k)

    Sound-weaken : (m : Mem) (n n' : ℕ) → n ≤ n' → Sound m capacity n → Sound m capacity n'
    Sound-weaken m n n' le (h, g, f, b) = (h, g, f, omega arith)

    -- The outcome of a set that starts where a reader finds the same.
    pub Set_after :
        (m : Mem) (s1 : S) (n n' : ℕ) (p : S × Result (Unit {0}))
        → n ≤ n'
        → SameMap m (ee.bytes s1) capacity
        → Leaves (Set (ee.bytes s1) n) (SetCut (ee.bytes s1) n) p
        → Leaves (Set m n') (SetCut m n') p
    Set_after m s1 n n' p le same q =
        Leaves-weaken (Set (ee.bytes s1) n) (SetCut (ee.bytes s1) n) (Set m n') (SetCut m n') p q
          (λ u s' (sound, up). (
            Sound-weaken (ee.bytes s') n n' le sound,
            Updated-after m (ee.bytes s1) (ee.bytes s') same up,
          ))
          (λ s' (sound, r). (
            Sound-weaken (ee.bytes s') n n' le sound,
            (elim r [
              | inl old ↦ inl (λ k. old k ∙ same k)
              | inr up ↦ inr (Updated-after m (ee.bytes s1) (ee.bytes s') same up)
            ]),
          ))

    -- A flip, then the append.
    pub flip_append-Leaves :
        (s : S) (h g : ℕ)
        → capacity ≤ u32_max
        → g < u32_max
        → Formatted (ee.bytes s) capacity h g
        → Leaves
            (Set (ee.bytes s) (g + 1))
            (SetCut (ee.bytes s) (g + 1))
            ((flip ee capacity h g >> append_fresh ee capacity key value) s)
    flip_append-Leaves s h g cap lt f =
        Leaves-then_do (Flipped ee capacity h g lt s) (FlipCut ee capacity h g lt s)
          (Set (ee.bytes s) (g + 1)) (SetCut (ee.bytes s) (g + 1))
          (λ u. append_fresh ee capacity key value) (flip ee capacity h g s)
          (flip-Leaves ee capacity h g lt s cap f)
          (λ u s1 (f1, same).
            Set_after (ee.bytes s) s1 (g + 1) (g + 1) _ (omega arith) same
              (append_fresh-Leaves s1 (1 - h) (g + 1) f1))
          (λ s1 cut. elim cut [
            | inl (old, same) ↦ ((h, g, old, omega arith), inl same)
            | inr (new, same) ↦ ((1 - h, g + 1, new, omega arith), inl same)
          ])

    -- The set in the active half, with no flip pending.
    pub set_in-Leaves :
        (s : S) (h g n : ℕ)
        → capacity ≤ u32_max
        → Formatted (ee.bytes s) capacity h g
        → g ≤ n
        → n < u32_max
        → Leaves
            (Set (ee.bytes s) (n + 1))
            (SetCut (ee.bytes s) (n + 1))
            (result_of ee (set_in ee capacity h g key value none s))
    unfolding set_in
    set_in-Leaves s h g n small f le lt =
        elim (Bool-cases (
          leb (log_end (ee.bytes s) capacity h key + record_size (length value))
            (half_len capacity))) [
              | inl room ↦ rw (room) (
                  Set_after (ee.bytes s) s g (n + 1) _ (omega arith) (λ k. refl)
                    (append_active s h g f (ground arith)))
              | inr packed_full ↦ rw (packed_full) (
                  Set_after (ee.bytes s) s (g + 1) (n + 1) _ (omega arith) (λ k. refl)
                    (flip_append-Leaves s h g small (omega arith) f))
            ]

    -- In a region of at most `u32::MAX` bytes that is formatted (one half is active, with a
    -- generation from 1 to `n`, and the generation of the other superblock, where its checksum is
    -- right, is older or the next one), with `n` below `u32::MAX`, for a key from 1 to 65535 and a
    -- value of at most 256 bytes: a `set_bytes` that succeeds leaves the map with the value under
    -- the key (none if it is empty) and every other key as it was; one that fails at any write, or
    -- finds no room, leaves either the old map or that new one. In each case the region is
    -- formatted, with a generation of at most `n + 1`. A write that fails may stop between two
    -- words or leave the word in work erased, or garbled so that no checksum passes over it.
    pub set_bytes-Leaves :
        (s : S) (n : ℕ)
        → capacity ≤ u32_max
        → Sound (ee.bytes s) capacity n
        → n < u32_max
        → Leaves
            (Set (ee.bytes s) (n + 1))
            (SetCut (ee.bytes s) (n + 1))
            (set_bytes ee capacity key value s)
    unfolding set_bytes set_bytes_with
    set_bytes-Leaves s n small (h, g, f, le) lt =
        let valid : (key == 0) ≡ false = ground arith in
        let short : ltb max_value (length value) ≡ false = ground arith in
        rw (valid, short, f.0) (set_in-Leaves s h g n small f le lt)
