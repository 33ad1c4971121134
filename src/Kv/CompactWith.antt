-- ===== src/Kv/CompactWith.antt =====
-- `compact_with`: the pending flip is finished, or there is a flip at once.
use tower.Prelude.{
  ℕ, suc, ◌+◌, ◌-◌, ◌≤◌, ◌<◌, ◌≡◌, refl, sym, ap, subst, ◌∙◌, inl, inr, false, Option, none, some,
  ◌==◌, u32_max, arith,
}
use tower.Kv.Eeprom.{
  Eeprom, Result, ok, err, backend, value_too_large, full, invalid_key, too_many_keys, stale,
}
use tower.Kv.Layout.{half_len}
use tower.Kv.Flip.{
  FlipState, is_active, commit_loop, flip_step, flip_commit, or_compact, compact_with,
}
use tower.Kv.Steps.{Leaves, Leaves-weaken}
use tower.Kv.Dead.{SameMap}
use tower.Kv.Compaction.{Flipped, FlipCut}
use tower.Kv.Removing.{Compacted, compact-Leaves}
use tower.Kv.Finish.{flip_commit-Leaves}
use tower.Kv.Pending.{Managed}

module _ {S : Type 0} (ee : Eeprom S) (capacity : ℕ) where
  -- A plan of another generation is refused before anything is written.
  commit_loop-stale :
      (fuel : ℕ) (st : FlipState) (s : S)
      → is_active (ee.bytes s) capacity st.src_h st.src_gen ≡ false
      → commit_loop ee (suc fuel) capacity st s ≡ (s, err stale)
  unfolding commit_loop flip_step
  commit_loop-stale fuel st s old = rw (old) refl

  flip_commit-stale :
      (st : FlipState) (s : S)
      → is_active (ee.bytes s) capacity st.src_h st.src_gen ≡ false
      → flip_commit ee capacity st s ≡ (s, err stale)
  unfolding flip_commit
  flip_commit-stale st s old =
      let rounds : half_len capacity + 2 ≡ suc (half_len capacity + 1) = omega arith in
      ap (λ n. commit_loop ee n capacity st s) rounds
      ∙ commit_loop-stale (half_len capacity + 1) st s old

  module _ (small : capacity ≤ u32_max) where
    Compacted-weaken :
        (s s1 : S) (n n' : ℕ) (p : S × Result (Unit {0}))
        → n ≤ n'
        → SameMap (ee.bytes s) (ee.bytes s1) capacity
        → Leaves (λ u s'. Compacted ee capacity s1 n s') (Compacted ee capacity s1 n) p
        → Leaves (λ u s'. Compacted ee capacity s n' s') (Compacted ee capacity s n') p
    Compacted-weaken s s1 n n' p le same q =
        let on : (s' : S) → Compacted ee capacity s1 n s' → Compacted ee capacity s n' s' =
          λ s' ((h, g, f, b), same'). ((h, g, f, omega arith), λ k. same' k ∙ same k) in
        Leaves-weaken (λ u s'. Compacted ee capacity s1 n s') (Compacted ee capacity s1 n)
          (λ u s'. Compacted ee capacity s n' s') (Compacted ee capacity s n') p q
          (λ u s' c. on s' c) on

    -- A flip that was cut, and what it leaves for a flip at once.
    or_compact-Leaves :
        (s : S) (n : ℕ) (p : S × Result (Unit {0}))
        → n < u32_max
        → Leaves (λ u s'. Compacted ee capacity s n s') (Compacted ee capacity s n) p
        → Leaves
            (λ u s'. Compacted ee capacity s (n + 1) s')
            (Compacted ee capacity s (n + 1))
            (or_compact ee capacity p)
    or_compact-Leaves s n (s', ok u) lt ((h, g, f, b), same) = ((h, g, f, omega arith), same)
    or_compact-Leaves s n (s', err stale) lt (sound, same) =
        Compacted-weaken s s' (n + 1) (n + 1) _ (omega arith) same
          (compact-Leaves ee capacity s' n small sound lt)
    or_compact-Leaves s n (s', err backend) lt ((h, g, f, b), same) = ((h, g, f, omega arith), same)
    or_compact-Leaves s n (s', err value_too_large) lt ((h, g, f, b), same) =
        ((h, g, f, omega arith), same)
    or_compact-Leaves s n (s', err full) lt ((h, g, f, b), same) = ((h, g, f, omega arith), same)
    or_compact-Leaves s n (s', err invalid_key) lt ((h, g, f, b), same) =
        ((h, g, f, omega arith), same)
    or_compact-Leaves s n (s', err too_many_keys) lt ((h, g, f, b), same) =
        ((h, g, f, omega arith), same)

    -- No key changes, whether it succeeds or fails.
    pub compact_with-Leaves :
        (s : S) (n : ℕ) (p : Option FlipState)
        → n + 1 < u32_max
        → Managed (ee.bytes s) capacity n p
        → Leaves
            (λ u s'. Compacted ee capacity s (n + 2) s')
            (Compacted ee capacity s (n + 2))
            (compact_with ee capacity p s)
    unfolding compact_with
    compact_with-Leaves s n none lt (h, g, f, le, w) =
        Compacted-weaken s s (n + 1) (n + 2) _ (omega arith) (λ k. refl)
          (compact-Leaves ee capacity s n small (h, g, f, le) (omega arith))
    compact_with-Leaves s n (some st) lt (h, g, f, le, inl (left, w)) =
        let b : g < u32_max = omega arith in
        Compacted-weaken s s (n + 1 + 1) (n + 2) _ (omega arith) (λ k. refl)
          (or_compact-Leaves s (n + 1) (flip_commit ee capacity st s) lt (
            Leaves-weaken (Flipped ee capacity h g b s) (FlipCut ee capacity h g b s)
              (λ u s'. Compacted ee capacity s (n + 1) s') (Compacted ee capacity s (n + 1))
              (flip_commit ee capacity st s)
              (flip_commit-Leaves ee capacity h g b s st left small f w)
              (λ u s' (f', same). ((1 - h, g + 1, f', omega arith), same))
              (λ s' cut. elim cut [
                | inl (old, same) ↦ ((h, g, old, omega arith), same)
                | inr (new, same) ↦ ((1 - h, g + 1, new, omega arith), same)
              ])))
    compact_with-Leaves s n (some st) lt (h, g, f, le, inr old) =
        let other : (g == st.src_gen) ≡ false = ground arith in
        let not_here : is_active (ee.bytes s) capacity st.src_h st.src_gen ≡ false =
          rw (f.0, is_active) (ground (arith, other)) in
        subst
          (λ p.
            Leaves (λ u s'. Compacted ee capacity s (n + 2) s') (Compacted ee capacity s (n + 2))
              (or_compact ee capacity p))
          (sym (flip_commit-stale st s not_here))
          (Compacted-weaken s s (n + 1) (n + 2) _ (omega arith) (λ k. refl)
            (compact-Leaves ee capacity s n small (h, g, f, le) (omega arith)))
