-- ===== src/Kv/Unseen.antt =====
-- `flip_step` and `blank_dead_step`: a slice writes in the dead half only.
use tower.Prelude.{
  ℕ, suc, ◌+◌, ◌-◌, ◌%◌, ◌≡◌, refl, sym, subst, ◌⊎◌, inl, inr, Bool-cases, some, leb, ltb, ◌==◌,
  arith,
}
use tower.Kv.Eeprom.{Eeprom, Result, ok, err, stale}
use tower.Kv.Layout.{half_len, half_base, active}
use tower.Kv.Flip.{FlipState, is_active, blanked, flip_step}
use tower.Kv.Maintenance.{BlankCursor, rewound, moved, blank_dead_step}
use tower.Kv.Steps.{Kept, Leaves}
use tower.Kv.Blank.{Blanked, Untouched, blank_step_span-Leaves}
use tower.Kv.Commit.{Formatted}
use tower.Kv.Dead.{SameMap, dead_half}
use tower.Kv.Slices.{Within, copy_planned-Within}

module _ {S : Type 0} (ee : Eeprom S) (capacity : ℕ) where
  -- The half that a plan does not read.
  abbrev dst_of : FlipState → ℕ
  dst_of st = half_base capacity (1 - st.src_h)

  blanked-Within :
      (s : S) (st : FlipState) (budget : ℕ) (p : S × Result (ℕ × ℕ))
      → Leaves
          (Blanked ee (dst_of st) (half_len capacity) s st.blank_off budget)
          (Untouched ee (dst_of st) (half_len capacity) s st.blank_off)
          p
      → Within ee (dst_of st) (half_len capacity) s (blanked ee capacity st p).0
  blanked-Within s st budget (s', err e) q = λ i h. q i (ground arith)
  blanked-Within s st budget (s', ok (off, left)) q =
      let (k, zs, all, spends) = q in
      let w : Within ee (dst_of st) (half_len capacity) s s' = λ i h. k i (ground arith) in
      elim (Bool-cases (ltb off (half_len capacity))) [
        | inl more ↦ rw (more) w
        | inr end ↦ rw (end) (
            copy_planned-Within ee (dst_of st) (half_len capacity) (suc st.src_end)
              (half_base capacity st.src_h) left (record st { blank_off = off }) s s' w)
      ]

  fresh_step-Within :
      (s : S) (st : FlipState) (budget : ℕ)
      → st.blank_off % 4 ≡ 0
      → Within ee (dst_of st) (half_len capacity) s (flip_step ee capacity st budget s).0
  unfolding flip_step
  fresh_step-Within s st budget b4 =
      elim (Bool-cases (is_active (ee.bytes s) capacity st.src_h st.src_gen)) [
        | inr old_plan ↦ rw (old_plan) (λ i h. refl)
        | inl active_one ↦
            rw (active_one) (elim (Bool-cases (ltb st.blank_off (half_len capacity))) [
              | inl blanking ↦ rw (blanking) (
                  blanked-Within s st budget _ (
                    blank_step_span-Leaves ee (dst_of st) (half_len capacity) (omega arith)
                      (suc (half_len capacity)) st.blank_off budget s (omega arith) (ground arith)
                      b4))
              | inr copying ↦ rw (copying) (
                  copy_planned-Within ee (dst_of st) (half_len capacity) (suc st.src_end)
                    (half_base capacity st.src_h) budget st s s (λ i h. refl))
            ])
      ]

  -- A slice of a flip, of any budget and whatever its outcome, in a formatted region and with the
  -- blanking at a multiple of four: the active half stays active and every key reads as before; a
  -- plan that is not of the active half and its generation is refused as stale, and nothing is
  -- written.
  pub flip_step-SameMap :
      (s : S) (h g : ℕ) (st : FlipState) (budget : ℕ)
      → Formatted (ee.bytes s) capacity h g
      → st.blank_off % 4 ≡ 0
      → Formatted (ee.bytes (flip_step ee capacity st budget s).0) capacity h g
        × SameMap (ee.bytes s) (ee.bytes (flip_step ee capacity st budget s).0) capacity
        × (((st.src_h ≡ h) × (st.src_gen ≡ g))
            ⊎ (flip_step ee capacity st budget s ≡ (s, st, err stale)))
  unfolding flip_step
  flip_step-SameMap s h g st budget f b4 =
      elim (Bool-cases (is_active (ee.bytes s) capacity st.src_h st.src_gen)) [
        | inr stale_one ↦
            let same : flip_step ee capacity st budget s ≡ (s, st, err stale) =
              rw (stale_one) refl in
            rw (same) (f, (λ k. refl), inr refl)
        | inl active_one ↦
            let here = rw (f.0, is_active) at active_one in
            let hh : h ≡ st.src_h = ground arith in
            let gg : g ≡ st.src_gen = ground arith in
            let w = fresh_step-Within s st budget b4 in
            let (f', m') =
              dead_half (ee.bytes s) (ee.bytes (flip_step ee capacity st budget s).0) capacity h g f
                (subst
                  (λ x.
                    Kept (ee.bytes s) (ee.bytes (flip_step ee capacity st budget s).0)
                      (half_base capacity (1 - x)) (half_base capacity (1 - x) + half_len capacity))
                  (sym hh) w) in
            (f', m', inl (sym hh, sym gg))
      ]

  moved-Within :
      (s : S) (dst o budget : ℕ) (cur : BlankCursor) (p : S × Result (ℕ × ℕ))
      → Leaves
          (Blanked ee dst (half_len capacity) s o budget)
          (Untouched ee dst (half_len capacity) s o)
          p
      → Within ee dst (half_len capacity) s (moved ee (half_len capacity) cur p).0
  moved-Within s dst o budget cur (s', err e) q = λ i h. q i (ground arith)
  moved-Within s dst o budget cur (s', ok (off, left)) q = λ i h. q.0 i (ground arith)

  pub rewound-aligned :
      (cur : BlankCursor) (g : ℕ) → cur.off % 4 ≡ 0 → (rewound ee cur g).off % 4 ≡ 0
  rewound-aligned cur g c4 = elim (Bool-cases (cur.generation == g)) [
    | inl t ↦ rw (t) c4
    | inr n ↦ rw (n) refl
  ]

  dead_step-Within :
      (s : S) (h g : ℕ) (cur : BlankCursor) (budget : ℕ)
      → active (ee.bytes s) capacity ≡ some (h, g)
      → cur.off % 4 ≡ 0
      → Within ee
          (half_base capacity (1 - h))
          (half_len capacity)
          s
          (blank_dead_step ee capacity cur budget s).0
  unfolding blank_dead_step
  dead_step-Within s h g cur budget a c4 =
      let half = half_len capacity in
      let cur' = rewound ee cur g in
      let b4 = rewound-aligned cur g c4 in
      rw (a, blank_dead_step)
        (elim (Bool-cases (leb half cur'.off)) [
          | inl done ↦ rw (done) (λ i h. refl)
          | inr going ↦ rw (going) (
              moved-Within s (half_base capacity (1 - h)) cur'.off budget cur' _ (
                blank_step_span-Leaves ee (half_base capacity (1 - h)) half (omega arith) (suc half)
                  cur'.off budget s (omega arith) (ground arith) b4))
        ])

  -- A slice of blanking the dead half, of any budget and whatever its outcome, in a formatted region
  -- and with the cursor at a multiple of four: the active half stays active and every key reads as
  -- before.
  pub blank_dead_step-SameMap :
      (s : S) (h g : ℕ) (cur : BlankCursor) (budget : ℕ)
      → Formatted (ee.bytes s) capacity h g
      → cur.off % 4 ≡ 0
      → Formatted (ee.bytes (blank_dead_step ee capacity cur budget s).0) capacity h g
        × SameMap (ee.bytes s) (ee.bytes (blank_dead_step ee capacity cur budget s).0) capacity
  blank_dead_step-SameMap s h g cur budget f c4 =
      dead_half (ee.bytes s) (ee.bytes (blank_dead_step ee capacity cur budget s).0) capacity h g f
        (dead_step-Within s h g cur budget f.0 c4)
