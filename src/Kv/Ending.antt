-- ===== src/Kv/Ending.antt =====
-- `flip_commit`: the loop over the slices ends.
use tower.Prelude.{
  ℕ, zero, suc, ◌+◌, ◌-◌, ◌*◌, ◌/◌, ◌%◌, ◌≤◌, ◌<◌, ◌≡◌, refl, sym, ◌∙◌, inl, inr, Bool, true, false,
  Bool-cases, leb, ltb, ◌==◌, ◌||◌, not, min, u32_max, arith,
}
use tower.Kv.Eeprom.{Eeprom, Result, ok, err, read}
use tower.Kv.Layout.{half_len, half_base, record_size, u16_at}
use tower.Kv.Scan.{is_latest}
use tower.Kv.Flip.{
  FlipState, is_active, Slice, chunk_done, copy_record, copy_planned, blanked, flip_step, committed,
  commit_loop, flip_commit,
}
use tower.Kv.Steps.{Leaves}
use tower.Kv.Blank.{Blanked, Untouched, blank_step_span-Leaves}

-- The slice says that work remains.
abbrev pub is_more : Result Bool → Bool
is_more (ok b) = b
is_more (err e) = false

module _ {S : Type 0} (ee : Eeprom S) (dst half : ℕ) where
  chunk_done-is_more :
      (st : FlipState) (chunk : ℕ) (k : FlipState → S → Slice S) (p : S × Bool)
      → ((s' : S) → is_more (k (record st { rec_copied = st.rec_copied + chunk }) s').2 ≡ false)
      → is_more (chunk_done ee st chunk k p).2 ≡ false
  chunk_done-is_more st chunk k (s', false) f = refl
  chunk_done-is_more st chunk k (s', true) f = f s'

  -- The budget is enough for the rest of the record.
  copy_record-is_more :
      (fuel src size budget : ℕ) (st : FlipState) (k : ℕ → FlipState → S → Slice S) (s : S)
      → size % 4 ≡ 0
      → st.rec_copied % 4 ≡ 0
      → size ≤ st.rec_copied + 4 * budget
      → size ≤ u32_max
      → ((budget' : ℕ) (st' : FlipState) (s' : S)
          → st'.write_off ≡ st.write_off
          → 4 * budget ≤ 4 * budget' + (size - st.rec_copied)
          → is_more (k budget' st' s').2 ≡ false)
      → is_more (copy_record ee fuel src dst size budget st k s).2 ≡ false
  unfolding copy_record
  copy_record-is_more zero src size budget st k s a4 r4 fits small f =
      f budget st s refl (omega arith)
  copy_record-is_more (suc fuel) src size budget st k s a4 r4 fits small f =
      let chunk = min (size - st.rec_copied) (min (budget * 4) u32_max) in
      elim (Bool-cases (leb size st.rec_copied)) [
        | inl done ↦ rw (done) (f budget st s refl (omega arith))
        | inr going ↦
            let less : st.rec_copied < size = ground arith in
            let whole : chunk ≡ size - st.rec_copied = omega arith in
            let has : (budget == 0) ≡ false = ground arith in
            rw (going, has)
              (chunk_done-is_more st chunk
                (λ st' s'. copy_record ee fuel src dst size (budget - (chunk + 3) / 4) st' k s')
                (ee.write s (dst + st.write_off + st.rec_copied)
                  (read (ee.bytes s) (src + st.read_off + st.rec_copied) chunk))
                (λ s'.
                  copy_record-is_more fuel src size (budget - (chunk + 3) / 4)
                    (record st { rec_copied = st.rec_copied + chunk }) k s' a4
                    (omega (arith, whole)) (omega (arith, whole)) small
                    (λ budget' st' s'' w b. f budget' st' s'' w (omega (arith, whole, b)))))
      ]

  -- The budget is enough for what the half has room for.
  copy_planned-is_more :
      (fuel src budget : ℕ) (st : FlipState) (s : S)
      → st.rec_copied % 4 ≡ 0
      → half ≤ st.write_off + 4 * budget
      → half ≤ u32_max
      → is_more (copy_planned ee fuel src dst half budget st s).2 ≡ false
  unfolding copy_planned
  copy_planned-is_more zero src budget st s r4 has small = refl
  copy_planned-is_more (suc fuel) src budget st s r4 has small =
      let m = ee.bytes s in
      let size = record_size (u16_at m (src + st.read_off + 2)) in
      elim (Bool-cases (leb st.src_end st.read_off)) [
        | inl done ↦ rw (done) refl
        | inr going ↦ rw (going) (elim (Bool-cases (u16_at m (src + st.read_off) == 0)) [
          | inl z ↦ rw (z) refl
          | inr nz ↦
              rw (nz)
                (elim (Bool-cases (
                  not (is_latest (u16_at m (src + st.read_off)) st.read_off st.latest)
                  || u16_at m (src + st.read_off + 2) == 0)) [
                    | inl skip ↦ rw (skip) (
                        copy_planned-is_more fuel src budget
                          (record st { read_off = st.read_off + size }) s r4 has small)
                    | inr take ↦ rw (take) (elim (Bool-cases (ltb half (st.write_off + size))) [
                      | inl over ↦ rw (over) refl
                      | inr room ↦
                          let fits : st.write_off + size ≤ half = ground arith in
                          rw (room) (
                            copy_record-is_more size src size budget st
                              (λ budget' st'.
                                copy_planned ee fuel src dst half budget' (record st' {
                                  rec_copied = 0;
                                  read_off = st'.read_off + size;
                                  write_off = st'.write_off + size;
                                }))
                              s (omega arith) r4 (omega arith) (omega arith)
                              (λ budget' st' s' w b.
                                copy_planned-is_more fuel src budget' _ s' refl
                                  (omega (arith, w, b)) small))
                    ])
                  ])
        ])
      ]

module _ {S : Type 0} (ee : Eeprom S) (capacity : ℕ) (small : capacity ≤ u32_max) where
  blanked-is_more :
      (s : S) (st : FlipState) (p : S × Result (ℕ × ℕ))
      → st.rec_copied % 4 ≡ 0
      → st.blank_off ≤ half_len capacity
      → Leaves
          (Blanked ee
            (half_base capacity (1 - st.src_h))
            (half_len capacity)
            s
            st.blank_off
            u32_max)
          (Untouched ee (half_base capacity (1 - st.src_h)) (half_len capacity) s st.blank_off)
          p
      → is_more (blanked ee capacity st p).2 ≡ false
  blanked-is_more s st (s', err e) r4 b q = refl
  blanked-is_more s st (s', ok (off, left)) r4 b q =
      let (k, zs, all, spends) = q in
      let end = all (omega arith) in
      let past : ltb off (half_len capacity) ≡ false = ground (arith, end) in
      rw (past) (
        copy_planned-is_more ee (half_base capacity (1 - st.src_h)) (half_len capacity)
          (suc st.src_end) (half_base capacity st.src_h) left (record st { blank_off = off }) s' r4
          (omega (arith, spends)) (omega arith))

  flip_step-is_more :
      (s : S) (st : FlipState)
      → st.rec_copied % 4 ≡ 0
      → st.blank_off % 4 ≡ 0
      → is_more (flip_step ee capacity st u32_max s).2 ≡ false
  unfolding flip_step
  flip_step-is_more s st r4 b4 =
      let dst = half_base capacity (1 - st.src_h) in
      let half = half_len capacity in
      elim (Bool-cases (is_active (ee.bytes s) capacity st.src_h st.src_gen)) [
        | inr old_plan ↦ rw (old_plan) refl
        | inl active_one ↦ rw (active_one) (elim (Bool-cases (ltb st.blank_off half)) [
          | inl blanking ↦ rw (blanking) (
              blanked-is_more s st _ r4 (ground arith) (
                blank_step_span-Leaves ee dst half (omega arith) (suc half) st.blank_off u32_max s
                  (omega arith) (ground arith) b4))
          | inr copying ↦ rw (copying) (
              copy_planned-is_more ee dst half (suc st.src_end) (half_base capacity st.src_h)
                u32_max st s r4 (omega arith) (omega arith))
        ])
      ]

  committed-again :
      (again again' : FlipState → S → S × Result (Unit {0})) (p : Slice S)
      → is_more p.2 ≡ false
      → committed ee capacity again p ≡ committed ee capacity again' p
  committed-again again again' (s, st, err e) h = refl
  committed-again again again' (s, st, ok true) h = absurd (ground (arith, h))
  committed-again again again' (s, st, ok false) h = refl

  one_round :
      (fuel : ℕ) (st : FlipState) (s : S)
      → 1 ≤ fuel
      → is_more (flip_step ee capacity st u32_max s).2 ≡ false
      → commit_loop ee fuel capacity st s ≡ commit_loop ee 1 capacity st s
  unfolding commit_loop
  one_round zero st s h e = absurd (omega arith)
  one_round (suc n) st s h e =
      committed-again (commit_loop ee n capacity) (commit_loop ee 0 capacity)
        (flip_step ee capacity st u32_max s) e

  -- For a plan whose offset of blanking and whose part of a record copied are multiples of four, in
  -- a region of at most `u32::MAX` bytes: a slice of unbounded budget never reports that work
  -- remains, so the loop of `flip_commit` ends in its first round, and every number of rounds from
  -- one on gives what `flip_commit` gives.
  pub commit_loop-flip_commit :
      (fuel : ℕ) (st : FlipState) (s : S)
      → st.rec_copied % 4 ≡ 0
      → st.blank_off % 4 ≡ 0
      → (is_more (flip_step ee capacity st u32_max s).2 ≡ false)
        × (commit_loop ee (suc fuel) capacity st s ≡ flip_commit ee capacity st s)
  unfolding flip_commit
  commit_loop-flip_commit fuel st s r4 b4 =
      let ends = flip_step-is_more s st r4 b4 in
      (
        ends,
        one_round (suc fuel) st s (omega arith) ends
            ∙ sym (one_round (half_len capacity + 2) st s (omega arith) ends),
      )
