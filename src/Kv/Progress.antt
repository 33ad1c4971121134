-- ===== src/Kv/Progress.antt =====
-- `flip_start` and `flip_step`: a plan that is at work, from its start on.
use tower.Prelude.{
  ℕ, zero, suc, ◌+◌, ◌-◌, ◌%◌, ◌≤◌, ◌<◌, ◌≡◌, refl, sym, ap, subst, ◌∙◌, inl, inr, Bool-cases, some,
  List, [], leb, ltb, ltb→lt, ◌==◌, u32_max, arith,
}
use tower.Kv.Eeprom.{Mem, Eeprom, Result, ok, err, put}
use tower.Kv.Layout.{half_len, half_base, active}
use tower.Kv.Scan.{Latest, walk_latest}
use tower.Kv.Flip.{FlipState, Slice, is_active, blanked, flip_start, flip_step, copy_planned}
use tower.Kv.Log.{Rec, Log-total, Log-bounds, last_of}
use tower.Kv.Steps.{Leaves, Leaves-then_do}
use tower.Kv.Write.{is_zero_word, zero_word, blank_step_span}
use tower.Kv.Compaction.{Result-cases}
use tower.Kv.Blank.{Blanked, Untouched, blank_step_span-Leaves}
use tower.Kv.Table.{walk_latest-TableOf}
use tower.Kv.Dead.{halves_apart}
use tower.Kv.Live.{copied_of-last}
use tower.Kv.Chain.{Chain, done, Chain-Log}
use tower.Kv.Plan.{Work, Work-move, PartOf-none}
use tower.Kv.Slicing.{Sliced, copy_planned-Sliced}

-- A plan at work in a region whose half `h` is active with generation `g`.
abbrev pub AtWork : Mem → ℕ → ℕ → ℕ → FlipState → List Rec → Type 0
AtWork m capacity h g st left =
    Work h g (half_base capacity h) (half_base capacity (1 - h)) (half_len capacity) m st left

plan_work :
    (m : Mem) (capacity h g src_end : ℕ) (latest : Latest)
    → walk_latest m (half_base capacity h) (half_len capacity) ≡ ok (src_end, latest)
    → (left : List Rec) × AtWork m capacity h g
        (record {
          src_h = h;
          src_gen = g;
          src_end = src_end;
          latest = latest;
          blank_off = 0;
          read_off = 0;
          write_off = 0;
          rec_copied = 0;
        })
        left
unfolding last_of
plan_work m capacity h g src_end latest walk =
    let src = half_base capacity h in
    let half = half_len capacity in
    let (rs, end, lg) = Log-total m src half in
    let (long, short) = Log-bounds m src half lg in
    let (same_end, tab) = walk_latest-TableOf m src half src_end latest lg walk in
    let ch = subst (λ z. Chain m src half 0 rs z) (sym same_end) (Chain-Log m src half lg) in
    (
      rs,
      record {
        same_half = refl;
        same_gen = refl;
        all = rs;
        copies = [];
        listed = ch;
        to_do = ch;
        made = done;
        part = λ i lt. absurd (omega arith);
        part_of = PartOf-none h g src (half_base capacity (1 - h)) half m latest 0 rs refl;
        zeroed = λ i lo hi. absurd (omega arith);
        ahead = omega arith;
        within = omega arith;
        blank_words = refl;
        part_words = refl;
        in_half = omega (arith, same_end, short (omega arith));
        reads = λ k. copied_of-last m src half latest k lg tab;
      },
    )

any_outcome : {S A : Type 0} (p : S × Result A) → Leaves (λ a s. Unit {0}) (λ s. Unit {0}) p
any_outcome (s, ok a) = tt
any_outcome (s, err e) = tt

-- A plan that `flip_start` makes is at work, with every record of the active half left.
pub flip_start-AtWork :
    (m : Mem) (capacity h g : ℕ) (st : FlipState)
    → active m capacity ≡ some (h, g)
    → flip_start m capacity ≡ ok (some st)
    → (left : List Rec) × AtWork m capacity h g st left
unfolding flip_start
flip_start-AtWork m capacity h g st a e =
    elim (Result-cases (walk_latest m (half_base capacity h) (half_len capacity))) [
      | inr (x, walk) ↦ absurd (ground (arith, rw (a, flip_start, walk) at e))
      | inl ((src_end, latest), walk) ↦
          let (left, w) = plan_work m capacity h g src_end latest walk in
          (
            left,
            subst (λ st'. AtWork m capacity h g st' left)
                (ap (λ r. elim r [ ok (some st') ↦ st' | _ ↦ st ]) (rw (a, flip_start, walk) at e))
                w,
          )
    ]

module _ {S : Type 0} (ee : Eeprom S) (base len : ℕ) (aligned : len % 4 ≡ 0) where
  abbrev pub Reached : ℕ → ℕ × ℕ → S → Type 0
  Reached from (o, left) s = (from ≤ o) × (o ≤ len) × (o % 4 ≡ 0)

  -- The blanking stops at a word.
  pub blank_step_span-Reached :
      (fuel from o budget : ℕ) (s : S)
      → from ≤ o
      → o ≤ len
      → o % 4 ≡ 0
      → Leaves (Reached from) (λ s'. Unit) (blank_step_span ee fuel base len o budget s)
  unfolding blank_step_span
  blank_step_span-Reached zero from o budget s f b o4 = (f, b, o4)
  blank_step_span-Reached (suc fuel) from o budget s f b o4 = elim (Bool-cases (leb len o)) [
    | inl end ↦ rw (end) (omega arith, omega arith, aligned)
    | inr going ↦
        let next_in : o + 4 ≤ len = ground arith in
        rw (going) (elim (Bool-cases (is_zero_word (ee.bytes s) (base + o))) [
          | inl z ↦ rw (z) (
              blank_step_span-Reached fuel from (o + 4) budget s (omega arith) next_in
                (omega arith))
          | inr n ↦ rw (n) (elim (Bool-cases (budget == 0)) [
            | inl spent ↦ rw (spent) (f, b, o4)
            | inr funds ↦ rw (funds) (
                Leaves-then_do (λ u s'. Unit) (λ s'. Unit) (Reached from) (λ s'. Unit)
                  (λ u. blank_step_span ee fuel base len (o + 4) (budget - 1))
                  (put ee (base + o) zero_word s) (any_outcome (put ee (base + o) zero_word s))
                  (λ u s1 q.
                    blank_step_span-Reached fuel from (o + 4) (budget - 1) s1 (omega arith) next_in
                      (omega arith))
                  (λ s' q. tt))
          ])
        ])
  ]

module _ {S : Type 0} (ee : Eeprom S) (capacity h g : ℕ) (b : h ≤ 1)
    (small : capacity ≤ u32_max) where
  -- The outcome of a slice in the two halves.
  abbrev pub Worked : Slice S → Type 0
  Worked = Sliced ee h g (half_base capacity h) (half_base capacity (1 - h)) (half_len capacity)

  copying-Worked :
      (s : S) (st : FlipState) (budget : ℕ) (left : List Rec)
      → AtWork (ee.bytes s) capacity h g st left
      → st.blank_off ≡ half_len capacity
      → Worked (
          copy_planned ee
            (suc st.src_end)
            (half_base capacity st.src_h)
            (half_base capacity (1 - st.src_h))
            (half_len capacity)
            budget
            st
            s)
  copying-Worked s st budget left w all =
      subst
        (λ x. Worked (
          copy_planned ee (suc st.src_end) (half_base capacity x) (half_base capacity (1 - x))
            (half_len capacity) budget st s))
        (sym w.same_half)
        (copy_planned-Sliced ee h g (half_base capacity h) (half_base capacity (1 - h))
          (half_len capacity) (halves_apart capacity h b) (omega (arith, small)) (suc st.src_end)
          budget st s left w all (omega arith))

  blanked-Worked :
      (s : S) (st : FlipState) (budget : ℕ) (p : S × Result (ℕ × ℕ)) (left : List Rec)
      → AtWork (ee.bytes s) capacity h g st left
      → Leaves
          (Blanked ee (half_base capacity (1 - h)) (half_len capacity) s st.blank_off budget)
          (Untouched ee (half_base capacity (1 - h)) (half_len capacity) s st.blank_off)
          p
      → Leaves
          (Reached ee (half_base capacity (1 - h)) (half_len capacity) (omega arith) st.blank_off)
          (λ s'. Unit)
          p
      → Worked (blanked ee capacity st p)
  blanked-Worked s st budget (s', err e) left w q reached =
      let apart = halves_apart capacity h b in
      (
        left,
        Work-move h g (half_base capacity h) (half_base capacity (1 - h)) (half_len capacity)
            (ee.bytes s) (ee.bytes s') st st.blank_off w
            (λ i lo hi. q i (ground (arith, apart, w.in_half, w.within)))
            (λ i lo hi. q i (inl (omega (arith, w.ahead))))
            (λ i lo hi. q i (inl hi) ∙ w.zeroed i lo hi) w.ahead w.within w.blank_words,
      )
  blanked-Worked s st budget (s', ok (off, budget')) left w (k, zs, all, spends)
        (from, in_half, off4) =
      let apart = halves_apart capacity h b in
      let dst = half_base capacity (1 - h) in
      let w' =
        Work-move h g (half_base capacity h) dst (half_len capacity) (ee.bytes s) (ee.bytes s') st
          off w (λ i lo hi. k i (ground (arith, apart, w.in_half, w.within)))
          (λ i lo hi. k i (inl (omega (arith, w.ahead))))
          (λ i lo hi. elim (Bool-cases (ltb i (dst + st.blank_off))) [
            | inl old ↦
                let before : i < dst + st.blank_off = ltb→lt _ _ old in
                k i (inl before) ∙ w.zeroed i lo before
            | inr new ↦ zs i (ground arith) hi
          ])
          (omega (arith, w.ahead)) in_half off4 in
      elim (Bool-cases (ltb off (half_len capacity))) [
        | inl going ↦ rw (going) (left, w', tt)
        | inr end ↦
            rw (end)
              (copying-Worked s' (record st { blank_off = off }) budget' left w' (ground arith))
      ]

  -- A slice of a plan at work, of any budget, in a region of at most `u32::MAX` bytes: the plan stays at
  -- work, even if a write fails, and if the slice says that nothing remains, every planned record has
  -- been copied or passed over and the other half is blank behind the copies.
  pub flip_step-Worked :
      (s : S) (st : FlipState) (budget : ℕ) (left : List Rec)
      → AtWork (ee.bytes s) capacity h g st left
      → Worked (flip_step ee capacity st budget s)
  unfolding flip_step
  flip_step-Worked s st budget left w =
      let half = half_len capacity in
      let base = half_base capacity (1 - st.src_h) in
      let p = blank_step_span ee (suc half) base half st.blank_off budget s in
      elim (Bool-cases (is_active (ee.bytes s) capacity st.src_h st.src_gen)) [
        | inr old_plan ↦ rw (old_plan) (left, w)
        | inl active_one ↦ rw (active_one) (elim (Bool-cases (ltb st.blank_off half)) [
          | inl blanking ↦ rw (blanking) (
              blanked-Worked s st budget p left w
                (subst
                  (λ x.
                    Leaves (Blanked ee (half_base capacity (1 - x)) half s st.blank_off budget)
                      (Untouched ee (half_base capacity (1 - x)) half s st.blank_off) p)
                  w.same_half
                  (blank_step_span-Leaves ee base half (omega arith) (suc half) st.blank_off budget
                    s (omega arith) w.within w.blank_words))
                (blank_step_span-Reached ee base half (omega arith) (suc half) st.blank_off
                  st.blank_off budget s (omega arith) w.within w.blank_words))
          | inr copying ↦
              rw (copying) (copying-Worked s st budget left w (ground (arith, copying, w.within)))
        ])
      ]
