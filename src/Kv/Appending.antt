-- ===== src/Kv/Appending.antt =====
-- An append in the active half while a flip is pending.
use tower.Prelude.{
  ℕ, ◌+◌, ◌-◌, ◌≤◌, ◌<◌, ◌≡◌, refl, sym, ap, subst, ◌∙◌, ◌⊎◌, inl, inr, Option, none, some, List,
  length, arith,
}
use tower.Kv.Eeprom.{Mem, Eeprom, Result, ok, err}
use tower.Kv.Layout.{half_len, half_base, record_size, max_value}
use tower.Kv.Write.{append_end}
use tower.Kv.Flip.{FlipState}
use tower.Kv.Store.{log_end}
use tower.Kv.Log.{Rec, Log, stop, more, Log-total, Log-end, Log-bounds, scan_half-Log}
use tower.Kv.Steps.{Kept, Leaves, Leaves-weaken}
use tower.Kv.View.{active-le, halves_below}
use tower.Kv.Append.{Old, New, append_end-Leaves}
use tower.Kv.Commit.{Formatted}
use tower.Kv.Dead.{Formatted-kept, halves_apart}
use tower.Kv.Chain.{Chain, done, next}
use tower.Kv.Plan.{Work-move}
use tower.Kv.Pending.{Pending, Managed}

-- What holds of the state whatever the outcome.
pub Leaves-state :
    {S A : Type 0} (P : S → Type 0) (p : S × Result A) → Leaves (λ a s. P s) (λ s. P s) p → P p.0
Leaves-state P (s, ok a) q = q
Leaves-state P (s, err e) q = q

-- A chain from the start ends where the log does or before.
Chain-Log_end :
    (m : Mem) (base area : ℕ) {o mid end : ℕ} {rs rs' : List Rec}
    → Chain m base area o rs mid
    → Log m base area o rs' end
    → mid ≤ end
Chain-Log_end m base area done l = let (long, short) = Log-bounds m base area l in omega arith
Chain-Log_end m base area (next tag len e c) (stop e') = absurd (ground (arith, sym e ∙ e'))
Chain-Log_end m base area (next {o} tag len e c) (more {end = end'} {rs = rs'} tag' len' e' l) =
    let same : len' ≡ len =
      ap (λ (x : Option (ℕ × ℕ)). elim x [ none ↦ 0 | some (t, n) ↦ n ]) (sym e' ∙ e) in
    Chain-Log_end m base area c (subst (λ n. Log m base area (o + record_size n) rs' end') same l)

module _ {S : Type 0} (ee : Eeprom S) (capacity key : ℕ) (value : List ℕ) where
  -- An append behind the log leaves a pending flip at work.
  append-Pending :
      (s : S) (h g : ℕ) (p : Option FlipState) (s' : S)
      → Formatted (ee.bytes s) capacity h g
      → Pending (ee.bytes s) capacity h g p
      → Kept
          (ee.bytes s)
          (ee.bytes s')
          (half_base capacity h + log_end (ee.bytes s) capacity h key)
          (half_base capacity h + half_len capacity)
      → Pending (ee.bytes s') capacity h g p
  append-Pending s h g none s' f w k = tt
  append-Pending s h g (some st) s' f (inr old) k = inr old
  append-Pending s h g (some st) s' f (inl (left, w)) k =
      let m = ee.bytes s in
      let base = half_base capacity h in
      let half = half_len capacity in
      let b = active-le m capacity h g f.0 in
      let apart = halves_apart capacity h b in
      let (rs, end, lg) = Log-total m base half in
      let free : log_end m capacity h key ≡ end =
        ap (λ p. p.0) (scan_half-Log m base half key lg) in
      let behind = Chain-Log_end m base half w.listed lg in
      let ahead = w.ahead in
      let within = w.within in
      inl (
        left,
        Work-move h g base (half_base capacity (1 - h)) half m (ee.bytes s') st st.blank_off w
            (λ i lo hi. k i (inl (omega (arith, free, behind, hi))))
            (λ i lo hi. k i (ground (arith, apart)))
            (λ i lo hi. k i (ground (arith, apart)) ∙ w.zeroed i lo hi) ahead within w.blank_words,
      )

  module _ (k1 : 1 ≤ key) (k2 : key < 65536) (v : length value ≤ max_value) where
    -- What an append in the active half leaves, with a flip pending.
    pub append_active-Managed :
        (s : S) (h g : ℕ) (p : Option FlipState)
        → Formatted (ee.bytes s) capacity h g
        → Pending (ee.bytes s) capacity h g p
        → log_end (ee.bytes s) capacity h key + record_size (length value) ≤ half_len capacity
        → Managed
            (ee.bytes
              (append_end ee
                (half_base capacity h)
                (half_len capacity)
                (log_end (ee.bytes s) capacity h key)
                key
                value
                s).0)
            capacity
            g
            p
    append_active-Managed s h g p f w fits =
        let m = ee.bytes s in
        let base = half_base capacity h in
        let half = half_len capacity in
        let free = log_end m capacity h key in
        let b = active-le m capacity h g f.0 in
        let below = halves_below capacity h b in
        let (rs, end, lg) = Log-total m base half in
        let lg' : Log m base half 0 rs free =
          subst (λ p. Log m base half 0 rs p.0) (sym (scan_half-Log m base half key lg)) lg in
        let call = append_end ee base half free key value s in
        let kept : Kept m (ee.bytes call.0) (base + free) (base + half) =
          Leaves-state (λ s'. Kept m (ee.bytes s') (base + free) (base + half)) call
            (Leaves-weaken (λ u s'. New m base half free key value (ee.bytes s'))
              (λ s'.
                Old m base half free key value (ee.bytes s')
                ⊎ New m base half free key value (ee.bytes s'))
              (λ u s'. Kept m (ee.bytes s') (base + free) (base + half))
              (λ s'. Kept m (ee.bytes s') (base + free) (base + half)) call
              (append_end-Leaves m base half free key value ee k1 k2 v fits s (λ i. refl)
                (Log-end m base half lg'))
              (λ u s' n. n.0) (λ s' q. elim q [ inl o ↦ o.0 | inr n ↦ n.0 ])) in
        (
          h,
          g,
          Formatted-kept m (ee.bytes call.0) capacity h g f
              (λ i lo. kept i (inr (omega (arith, below)))),
          omega arith,
          append-Pending s h g p call.0 f w kept,
        )
