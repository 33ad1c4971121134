-- ===== src/Kv/Finish.antt =====
-- `flip_commit` of a plan at work: no key changes, whatever was appended since the planning.
use mathlib.Core.List.{append-nil}
use tower.Prelude.{
  ℕ, ◌+◌, ◌-◌, ◌≤◌, ◌<◌, ◌≡◌, refl, sym, ap, ap₂, subst, ◌∙◌, inl, inr, true, false, none, some,
  List, [], ◌==◌, if◌then◌else◌, u32_max, arith,
}
use tower.Kv.Eeprom.{Mem, Eeprom, Result, ok, err, ◌>>◌}
use tower.Kv.Layout.{half_len, half_base, active, next_gen}
use tower.Kv.Write.{write_gen}
use tower.Kv.Scan.{value_of, get_bytes}
use tower.Kv.Flip.{FlipState, Slice, copy_tail, committed, commit_loop, flip_step, flip_commit}
use tower.Kv.Log.{Rec, Log, stop, last_of, Log-from, Log-bounds}
use tower.Kv.Steps.{Leaves, Leaves-then_do, Leaves-weaken}
use tower.Kv.View.{active-le, get_bytes-Log}
use tower.Kv.Copy.{entry-Zeros}
use tower.Kv.Pack.{Packed, Done, Cut}
use tower.Kv.Commit.{Formatted}
use tower.Kv.Dead.{SameMap, halves_apart}
use tower.Kv.Compaction.{ReadyToCommit, Flipped, FlipCut, commit-Leaves, not_yet}
use tower.Kv.Blank.{Zeros}
use tower.Kv.Live.{copied_of}
use tower.Kv.Chain.{Log-Chain}
use tower.Kv.Plan.{Work}
use tower.Kv.Progress.{AtWork, Worked, flip_step-Worked}
use tower.Kv.Tail.{tail_of, tail_of-last, last_of-append, copy_tail-Leaves}
use tower.Kv.Unseen.{flip_step-SameMap}
use tower.Kv.Ending.{is_more, commit_loop-flip_commit}

-- A plan with nothing left has packed the other half.
Work-Packed :
    (h g src dst half : ℕ) (m : Mem) (st : FlipState) (w : Work h g src dst half m st [])
    → st.blank_off ≡ half
    → Packed m m dst half w.copies st.write_off (λ k. value_of m src (last_of k none w.all))
unfolding copied_of
Work-Packed h g src dst half m st w b =
    let zs : Zeros m (dst + st.write_off) (dst + half) =
      λ i lo hi. w.zeroed i (omega (arith, lo)) (omega (arith, b, hi)) in
    (
      (λ i out. refl),
      subst (λ rs. Log m dst half 0 rs st.write_off) (append-nil w.copies)
          (Log-Chain m dst half w.made (stop (entry-Zeros m dst half st.write_off zs))),
      zs,
      omega (arith, w.ahead, w.within),
      w.reads,
    )

module _ {S : Type 0} (ee : Eeprom S) (capacity h g : ℕ) (lt : g < u32_max) where
  tail_view :
      (s : S) (st : FlipState) (w : AtWork (ee.bytes s) capacity h g st [])
      → active (ee.bytes s) capacity ≡ some (h, g)
      → {rs : List Rec} {end : ℕ}
      → Log (ee.bytes s) (half_base capacity h) (half_len capacity) st.src_end rs end
      → (u : Unit {0}) (s2 : S)
      → Done ee
          (ee.bytes s)
          (half_base capacity (1 - h))
          (half_len capacity)
          (λ k.
            tail_of
              (ee.bytes s)
              (half_base capacity h)
              k
              (value_of (ee.bytes s) (half_base capacity h) (last_of k none w.all))
              rs)
          u
          s2
      → ReadyToCommit (ee.bytes s) (ee.bytes s2) capacity h (get_bytes (ee.bytes s) capacity)
  tail_view s st w a {rs} lg u s2 (ds, wr, (k, lgd, zs, le, vals)) =
      let m = ee.bytes s in
      let src = half_base capacity h in
      let whole = Log-Chain m src (half_len capacity) w.listed lg in
      (
        k,
        (
          ds,
          wr,
          lgd,
          λ key.
              ap (λ v. if key == 0 then none else v)
                (vals key
                  ∙ tail_of-last m src key (last_of key none w.all) rs
                  ∙ ap (value_of m src) (sym (last_of-append key none w.all rs)))
              ∙ sym (get_bytes-Log m capacity h g a whole key),
        ),
      )

  tail_and_commit :
      (s : S) (st : FlipState)
      → Formatted (ee.bytes s) capacity h g
      → AtWork (ee.bytes s) capacity h g st []
      → st.blank_off ≡ half_len capacity
      → Leaves (Flipped ee capacity h g lt s) (FlipCut ee capacity h g lt s) (
          (copy_tail ee
                (half_len capacity)
                (half_base capacity h)
                (half_base capacity (1 - h))
                (half_len capacity)
                st.write_off
                st.src_end
              >> write_gen ee capacity (1 - h) (next_gen g))
            s)
  tail_and_commit s st f w b =
      let m = ee.bytes s in
      let src = half_base capacity h in
      let dst = half_base capacity (1 - h) in
      let half = half_len capacity in
      let (rs, end, lg) = Log-from m src half half st.src_end (omega arith) in
      let (long, short) = Log-bounds m src half lg in
      let value = λ (k : ℕ). value_of m src (last_of k none w.all) in
      Leaves-then_do (Done ee m dst half (λ k. tail_of m src k (value k) rs)) (Cut ee m dst half)
        (Flipped ee capacity h g lt s) (FlipCut ee capacity h g lt s)
        (λ u. write_gen ee capacity (1 - h) (next_gen g))
        (copy_tail ee half src dst half st.write_off st.src_end s)
        (copy_tail-Leaves ee m src dst half (halves_apart capacity h (active-le m capacity h g f.0))
          half w.copies st.write_off value s lg (omega (arith, short w.in_half))
          (Work-Packed h g src dst half m st w b))
        (λ u s2 made.
          commit-Leaves ee capacity h g lt s s2 (get_bytes m capacity) f
            (tail_view s st w f.0 lg u s2 made))
        (λ s' cut. not_yet ee capacity h g lt s s' _ f cut)

  -- What a reader found before the slice is what it finds after it.
  after_slice :
      (s s1 : S) (p : S × Result (Unit {0}))
      → SameMap (ee.bytes s) (ee.bytes s1) capacity
      → Leaves (Flipped ee capacity h g lt s1) (FlipCut ee capacity h g lt s1) p
      → Leaves (Flipped ee capacity h g lt s) (FlipCut ee capacity h g lt s) p
  after_slice s s1 p same q =
      Leaves-weaken (Flipped ee capacity h g lt s1) (FlipCut ee capacity h g lt s1)
        (Flipped ee capacity h g lt s) (FlipCut ee capacity h g lt s) p q
        (λ u s' (fm, reads). (fm, λ k. reads k ∙ same k))
        (λ s' cut. elim cut [
          | inl (fm, kept) ↦ inl (fm, λ k. kept k ∙ same k)
          | inr (fm, reads) ↦ inr (fm, λ k. reads k ∙ same k)
        ])

  committed-Leaves :
      (s : S) (again : FlipState → S → S × Result (Unit {0})) (p : Slice S)
      → (b : h ≤ 1) (small : capacity ≤ u32_max) → Formatted (ee.bytes p.0) capacity h g
      → SameMap (ee.bytes s) (ee.bytes p.0) capacity
      → Worked ee capacity h g b small p
      → is_more p.2 ≡ false
      → Leaves
          (Flipped ee capacity h g lt s)
          (FlipCut ee capacity h g lt s)
          (committed ee capacity again p)
  committed-Leaves s again (s1, st, err e) b small f same w none_left = inl (f, same)
  committed-Leaves s again (s1, st, ok true) b small f same w none_left =
      absurd (ground (arith, none_left))
  committed-Leaves s again (s1, st, ok false) b small f same (left, w, (nil, all)) none_left =
      let w' = subst (AtWork (ee.bytes s1) capacity h g st) nil w in
      let tail_of_plan = λ (x y : ℕ).
        (copy_tail ee (half_len capacity) (half_base capacity x) (half_base capacity (1 - x))
              (half_len capacity) st.write_off st.src_end
            >> write_gen ee capacity (1 - x) (next_gen y))
          s1 in
      after_slice s s1 (tail_of_plan st.src_h st.src_gen) same (
        subst (Leaves (Flipped ee capacity h g lt s1) (FlipCut ee capacity h g lt s1))
          (sym (ap₂ tail_of_plan w.same_half w.same_gen)) (tail_and_commit s1 st f w' all))

  -- The commit of a plan at work, at whatever point its slices stand and whatever has been appended
  -- since the planning, in a region of at most `u32::MAX` bytes that is formatted with half `h`
  -- active, of a generation `g` below `u32::MAX`: if it succeeds, the other half is active with
  -- generation `g + 1` and every key reads as before; if it fails, at any write or for want of
  -- room, every key reads as before and either half may be the active one. A write that fails may
  -- stop between two words or leave the word in work erased, or garbled so that no checksum passes
  -- over it.
  pub flip_commit-Leaves :
      (s : S) (st : FlipState) (left : List Rec)
      → capacity ≤ u32_max
      → Formatted (ee.bytes s) capacity h g
      → AtWork (ee.bytes s) capacity h g st left
      → Leaves
          (Flipped ee capacity h g lt s)
          (FlipCut ee capacity h g lt s)
          (flip_commit ee capacity st s)
  unfolding commit_loop
  flip_commit-Leaves s st left small f w =
      let b = active-le (ee.bytes s) capacity h g f.0 in
      let (ends, one) =
        commit_loop-flip_commit ee capacity small 0 st s w.part_words w.blank_words in
      let (f1, same, plan) = flip_step-SameMap ee capacity s h g st u32_max f w.blank_words in
      subst (Leaves (Flipped ee capacity h g lt s) (FlipCut ee capacity h g lt s)) one (
        committed-Leaves s (commit_loop ee 0 capacity) (flip_step ee capacity st u32_max s) b small
          f1 same (flip_step-Worked ee capacity h g b small s st u32_max left w) ends)
