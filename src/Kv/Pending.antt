-- ===== src/Kv/Pending.antt =====
-- `maintain`: the slices of a pending flip and of the blanking, one after another.
use tower.Prelude.{
  ℕ, suc, ◌+◌, ◌-◌, ◌%◌, ◌≤◌, ◌<◌, ◌≡◌, refl, sym, subst, ◌∙◌, ◌⊎◌, inl, inr, Bool, true, false,
  Bool-cases, Option, none, some, List, leb, ltb, ◌==◌, u32_max, arith,
}
use tower.Kv.Eeprom.{Mem, Eeprom, Result, ok, err}
use tower.Kv.Layout.{half_len, half_base, active}
use tower.Kv.Scan.{scan_half, live_bytes}
use tower.Kv.Flip.{FlipState, flip_start, flip_step, flip_commit}
use tower.Kv.Store.{is_of}
use tower.Kv.Maintenance.{
  BlankCursor, MaintState, Maintained, fresh, ended, driven, planned, idle, maintained, maintain,
  blanked_more, blank_dead_step, moved, rewound,
}
use tower.Kv.Log.{Rec}
use tower.Kv.Steps.{Leaves}
use tower.Kv.View.{active-le}
use tower.Kv.Commit.{Formatted}
use tower.Kv.Dead.{SameMap}
use tower.Kv.Compaction.{Result-cases, Flipped, FlipCut}
use tower.Kv.Progress.{
  AtWork, Worked, Reached, blank_step_span-Reached, flip_start-AtWork, flip_step-Worked,
}
use tower.Kv.Unseen.{flip_step-SameMap, blank_dead_step-SameMap, rewound-aligned}
use tower.Kv.Finish.{flip_commit-Leaves}

-- A pending flip is at work, or it is of an earlier generation.
abbrev pub Pending : Mem → ℕ → ℕ → ℕ → Option FlipState → Type 0
Pending m capacity h g none = Unit
Pending m capacity h g (some st) =
    ((left : List Rec) × AtWork m capacity h g st left) ⊎ (st.src_gen < g)

-- A formatted region of generation `n` at most, with a pending flip.
abbrev pub Managed : Mem → ℕ → ℕ → Option FlipState → Type 0
Managed m capacity n p =
    (h : ℕ) × (g : ℕ) × Formatted m capacity h g × (g ≤ n) × Pending m capacity h g p

-- What is kept: the map, the management, and the alignment of the cursor.
abbrev pub KeptBy : {S : Type 0} → Eeprom S → ℕ → Mem → ℕ → S × MaintState × Result Bool → Type 0
KeptBy ee capacity m n (s', st', r) =
    SameMap m (ee.bytes s') capacity
    × Managed (ee.bytes s') capacity n st'.pending
    × (st'.blank_cursor.off % 4 ≡ 0)

module _ {S : Type 0} (ee : Eeprom S) (capacity h g : ℕ) (lt : g < u32_max)
    (small : capacity ≤ u32_max) where
  KeptBy-after :
      (s s1 : S) (p : Maintained ee)
      → SameMap (ee.bytes s) (ee.bytes s1) capacity
      → KeptBy ee capacity (ee.bytes s1) (g + 1) p
      → KeptBy ee capacity (ee.bytes s) (g + 1) p
  KeptBy-after s s1 p same (same', managed, c) = ((λ k. same' k ∙ same k), managed, c)

  ended-KeptBy :
      (s : S) (st : MaintState) (p : S × Result (Unit {0}))
      → st.blank_cursor.off % 4 ≡ 0
      → Leaves (Flipped ee capacity h g lt s) (FlipCut ee capacity h g lt s) p
      → KeptBy ee capacity (ee.bytes s) (g + 1) (ended ee st p)
  ended-KeptBy s st (s', ok u) c (fm, reads) = (reads, (1 - h, g + 1, fm, omega arith, tt), c)
  ended-KeptBy s st (s', err e) c cut = elim cut [
    | inl (fm, same) ↦ (same, (h, g, fm, omega arith, tt), c)
    | inr (fm, reads) ↦ (reads, (1 - h, g + 1, fm, omega arith, tt), c)
  ]

  driven-KeptBy :
      (s : S) (st : MaintState) (b : h ≤ 1) (p : S × FlipState × Result Bool)
      → st.blank_cursor.off % 4 ≡ 0
      → Formatted (ee.bytes p.0) capacity h g
      → SameMap (ee.bytes s) (ee.bytes p.0) capacity
      → Worked ee capacity h g b small p
      → KeptBy ee capacity (ee.bytes s) (g + 1) (driven ee capacity st p)
  driven-KeptBy s st b (s1, fs, err e) c f same (left, w) =
      (same, (h, g, f, omega arith, inl (left, w)), c)
  driven-KeptBy s st b (s1, fs, ok true) c f same (left, w, u) =
      (same, (h, g, f, omega arith, inl (left, w)), c)
  driven-KeptBy s st b (s1, fs, ok false) c f same (left, w, u) =
      KeptBy-after s s1 (ended ee st (flip_commit ee capacity fs s1)) same (
        ended-KeptBy s1 st (flip_commit ee capacity fs s1) c
          (flip_commit-Leaves ee capacity h g lt s1 fs left small f w))

  -- The cursor stands at a word.
  moved-aligned :
      (half from : ℕ) (aligned : half % 4 ≡ 0) (base : ℕ) (cur : BlankCursor)
      (p : S × Result (ℕ × ℕ))
      → cur.off % 4 ≡ 0
      → Leaves (Reached ee base half aligned from) (λ s'. Unit) p
      → (moved ee half cur p).1.off % 4 ≡ 0
  moved-aligned half from aligned base cur (s', err e) c q = c
  moved-aligned half from aligned base cur (s', ok (off, left)) c (lo, hi, off4) = off4

  blank_dead_step-aligned :
      (s : S) (cur : BlankCursor) (budget : ℕ)
      → active (ee.bytes s) capacity ≡ some (h, g)
      → cur.off % 4 ≡ 0
      → (blank_dead_step ee capacity cur budget s).1.off % 4 ≡ 0
  unfolding blank_dead_step
  blank_dead_step-aligned s cur budget a c =
      let half = half_len capacity in
      let base = half_base capacity (1 - h) in
      let cur' = rewound ee cur g in
      let c' = rewound-aligned ee capacity cur g c in
      rw (a, blank_dead_step)
        (elim (Bool-cases (leb half cur'.off)) [
          | inl whole ↦ rw (whole) c'
          | inr going ↦ rw (going) (
              moved-aligned half cur'.off (omega arith) base cur' _ c' (
                blank_step_span-Reached ee base half (omega arith) (suc half) cur'.off cur'.off
                  budget s (omega arith) (ground (arith, going)) c'))
        ])

  blanked_more-KeptBy :
      (s : S) (st : MaintState) (budget : ℕ)
      → Formatted (ee.bytes s) capacity h g
      → st.pending ≡ none
      → st.blank_cursor.off % 4 ≡ 0
      → KeptBy ee capacity
          (ee.bytes s)
          (g + 1)
          (blanked_more ee st (blank_dead_step ee capacity st.blank_cursor budget s))
  blanked_more-KeptBy s st budget f idle_now c =
      let p = blank_dead_step ee capacity st.blank_cursor budget s in
      let (f1, same) = blank_dead_step-SameMap ee capacity s h g st.blank_cursor budget f c in
      (
        same,
        (h, g, f1, omega arith, subst (Pending (ee.bytes p.0) capacity h g) (sym idle_now) tt),
        blank_dead_step-aligned s st.blank_cursor budget f.0 c,
      )

  unmoved :
      (s : S) (st : MaintState) (p : Option FlipState) (r : Result Bool)
      → Formatted (ee.bytes s) capacity h g
      → Pending (ee.bytes s) capacity h g p
      → st.blank_cursor.off % 4 ≡ 0
      → KeptBy ee capacity (ee.bytes s) (g + 1) (s, record st { pending = p }, r)
  unmoved s st p r f w c = ((λ k. refl), (h, g, f, omega arith, w), c)

  planned-KeptBy :
      (s : S) (st : MaintState) (r : Result (Option FlipState))
      → flip_start (ee.bytes s) capacity ≡ r
      → Formatted (ee.bytes s) capacity h g
      → st.pending ≡ none
      → st.blank_cursor.off % 4 ≡ 0
      → KeptBy ee capacity (ee.bytes s) (g + 1) (planned ee st s r)
  planned-KeptBy s st (err e) is f idle_now c = (
    (λ k. refl),
    (h, g, f, omega arith, subst (Pending (ee.bytes s) capacity h g) (sym idle_now) tt),
    c,
  )
  planned-KeptBy s st (ok none) is f idle_now c = unmoved s st none (ok true) f tt c
  planned-KeptBy s st (ok (some fs)) is f idle_now c =
      unmoved s st (some fs) (ok true) f
        (inl (flip_start-AtWork (ee.bytes s) capacity h g fs f.0 is)) c

  idle-KeptBy :
      (s : S) (st : MaintState) (budget threshold : ℕ)
      → Formatted (ee.bytes s) capacity h g
      → st.pending ≡ none
      → st.blank_cursor.off % 4 ≡ 0
      → KeptBy ee capacity (ee.bytes s) (g + 1) (idle ee capacity st h budget threshold s)
  idle-KeptBy s st budget threshold f idle_now c =
      let half = half_len capacity in
      let blanking = blanked_more-KeptBy s st budget f idle_now c in
      elim (Bool-cases
        (ltb (half - (scan_half (ee.bytes s) (half_base capacity h) half 0).0) threshold)) [
          | inr wide ↦ rw (wide) blanking
          | inl low ↦ rw (low) (elim (Result-cases (live_bytes (ee.bytes s) capacity)) [
            | inr (e, many) ↦ rw (many) (
              (λ k. refl),
              (h, g, f, omega arith, subst (Pending (ee.bytes s) capacity h g) (sym idle_now) tt),
              c,
            )
            | inl (live, is_live) ↦ rw (is_live) (elim (Bool-cases (leb (live + threshold) half)) [
              | inr tight ↦ rw (tight) blanking
              | inl helps ↦
                  rw (helps)
                    (planned-KeptBy s st (flip_start (ee.bytes s) capacity) refl f idle_now c)
            ])
          ])
        ]

  abbrev Running : Mem → Option FlipState → Type 0
  Running m none = Unit
  Running m (some fs) = (left : List Rec) × AtWork m capacity h g fs left

  -- A pending flip that is not dropped is at work.
  fresh-Running :
      (m : Mem) (p : Option FlipState) → Pending m capacity h g p → Running m (fresh ee p h g)
  fresh-Running m none w = tt
  fresh-Running m (some fs) (inl (left, w)) =
      let here : is_of fs h g ≡ true = ground (arith, w.same_half, w.same_gen) in
      rw (here) (left, w)
  fresh-Running m (some fs) (inr old) =
      let other : (fs.src_gen == g) ≡ false = ground arith in
      let not_here : is_of fs h g ≡ false = ground (arith, other) in rw (not_here) tt

  maintained-KeptBy :
      (s : S) (st : MaintState) (p : Option FlipState) (budget threshold : ℕ)
      → Formatted (ee.bytes s) capacity h g
      → Running (ee.bytes s) p
      → st.blank_cursor.off % 4 ≡ 0
      → KeptBy ee capacity
          (ee.bytes s)
          (g + 1)
          (maintained ee capacity (record st { pending = p }) h budget threshold s)
  maintained-KeptBy s st none budget threshold f w c =
      idle-KeptBy s (record st { pending = none }) budget threshold f refl c
  maintained-KeptBy s st (some fs) budget threshold f (left, w) c =
      let b = active-le (ee.bytes s) capacity h g f.0 in
      let (f1, same, plan) = flip_step-SameMap ee capacity s h g fs budget f w.blank_words in
      driven-KeptBy s (record st { pending = some fs }) b (flip_step ee capacity fs budget s) c f1
        same (flip_step-Worked ee capacity h g b small s fs budget left w)

  maintain-active :
      (s : S) (st : MaintState) (budget threshold : ℕ)
      → active (ee.bytes s) capacity ≡ some (h, g)
      → maintain ee capacity st budget threshold s
        ≡ maintained ee capacity
            (record st { pending = fresh ee st.pending h g })
            h
            budget
            threshold
            s
  unfolding maintain
  maintain-active s st budget threshold a = rw (a, maintain) refl

  -- One call of `maintain` in a region of at most `u32::MAX` bytes that is formatted with half `h`
  -- active, of a generation `g` below `u32::MAX`, with a pending flip at work or of an earlier
  -- generation and the cursor of the blanking at a word, of any budget and threshold and whatever
  -- its outcome: every key reads as before, the region is formatted with a generation of at most `g
  -- + 1`, the flip that is pending then is at work or of an earlier generation, and the cursor is
  -- at a word. A write that fails may stop between two words or leave the word in work erased, or
  -- garbled so that no checksum passes over it.
  pub maintain-KeptBy :
      (s : S) (st : MaintState) (budget threshold : ℕ)
      → Formatted (ee.bytes s) capacity h g
      → Pending (ee.bytes s) capacity h g st.pending
      → st.blank_cursor.off % 4 ≡ 0
      → KeptBy ee capacity (ee.bytes s) (g + 1) (maintain ee capacity st budget threshold s)
  maintain-KeptBy s st budget threshold f w c =
      subst (KeptBy ee capacity (ee.bytes s) (g + 1))
        (sym (maintain-active s st budget threshold f.0))
        (maintained-KeptBy s st (fresh ee st.pending h g) budget threshold f
          (fresh-Running (ee.bytes s) st.pending w) c)
