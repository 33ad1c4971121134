-- ===== src/Kv/SettingWith.antt =====
-- `set_bytes_with` in a full half: the pending flip is finished first.
use tower.Prelude.{
  ℕ, ◌+◌, ◌-◌, ◌≤◌, ◌<◌, ◌≡◌, refl, sym, ap, subst, inl, inr, true, false, Bool-cases, Option, none,
  some, List, length, ltb, ◌==◌, u32_max, arith,
}
use tower.Kv.Eeprom.{Eeprom, ◌>>◌}
use tower.Kv.Layout.{half_len, record_size, max_value}
use tower.Kv.Flip.{FlipState, flip, flip_commit}
use tower.Kv.Store.{is_of, log_end, append_fresh, flip_again_in, flip_again, after_full}
use tower.Kv.Log.{Rec}
use tower.Kv.Steps.{Leaves, Leaves-then_do, Leaves-weaken}
use tower.Kv.Commit.{Formatted}
use tower.Kv.Dead.{SameMap}
use tower.Kv.Compaction.{Flipped, FlipCut, flip-Leaves}
use tower.Kv.Setting.{Sound, Set, SetCut, Set_after, append_fresh-Leaves, flip_append-Leaves}
use tower.Kv.Progress.{AtWork}
use tower.Kv.Finish.{flip_commit-Leaves}
use tower.Kv.Pending.{Pending}

module _ {S : Type 0} (ee : Eeprom S) (capacity key : ℕ) (value : List ℕ) where
  module _ (k1 : 1 ≤ key) (k2 : key < 65536) (v : length value ≤ max_value) where
    -- The second flip, if the first has not made room.
    flip_again-Leaves :
        (s : S) (h g n : ℕ)
        → capacity ≤ u32_max
        → g < u32_max
        → g + 1 ≤ n
        → Formatted (ee.bytes s) capacity h g
        → Leaves
            (λ u s'. Sound (ee.bytes s') capacity n × SameMap (ee.bytes s) (ee.bytes s') capacity)
            (λ s'. Sound (ee.bytes s') capacity n × SameMap (ee.bytes s) (ee.bytes s') capacity)
            (flip_again ee capacity key value s)
    unfolding flip_again
    flip_again-Leaves s h g n small lt le f =
        let same_map = λ (s' : S).
          Sound (ee.bytes s') capacity n × SameMap (ee.bytes s) (ee.bytes s') capacity in
        subst (Leaves (λ u s'. same_map s') same_map)
          (sym (ap (λ a. flip_again_in ee capacity key value a s) f.0))
          (elim (Bool-cases (
            ltb (half_len capacity)
              (log_end (ee.bytes s) capacity h key + record_size (length value)))) [
                | inr room ↦ rw (room) ((h, g, f, omega arith), (λ k. refl))
                | inl over ↦ rw (over) (
                    Leaves-weaken (Flipped ee capacity h g lt s) (FlipCut ee capacity h g lt s)
                      (λ u s'. same_map s') same_map (flip ee capacity h g s)
                      (flip-Leaves ee capacity h g lt s small f)
                      (λ u s' (f', reads). ((1 - h, g + 1, f', le), reads))
                      (λ s' cut. elim cut [
                        | inl (f', same) ↦ ((h, g, f', omega arith), same)
                        | inr (f', reads) ↦ ((1 - h, g + 1, f', le), reads)
                      ]))
              ])

    again_append-Leaves :
        (s : S) (h g : ℕ)
        → capacity ≤ u32_max
        → g < u32_max
        → Formatted (ee.bytes s) capacity h g
        → Leaves
            (Set ee capacity key value (ee.bytes s) (g + 1))
            (SetCut ee capacity key value (ee.bytes s) (g + 1))
            ((flip_again ee capacity key value >> append_fresh ee capacity key value) s)
    again_append-Leaves s h g small lt f =
        let m = ee.bytes s in
        let same_map =
          λ (s' : S). Sound (ee.bytes s') capacity (g + 1) × SameMap m (ee.bytes s') capacity in
        Leaves-then_do (λ u s'. same_map s') same_map (Set ee capacity key value m (g + 1))
          (SetCut ee capacity key value m (g + 1)) (λ u. append_fresh ee capacity key value)
          (flip_again ee capacity key value s)
          (flip_again-Leaves s h g (g + 1) small lt (omega arith) f)
          (λ u s1 ((h1, g1, f1, le1), same).
            Set_after ee capacity key value k1 k2 v m s1 g1 (g + 1) _ le1 same
              (append_fresh-Leaves ee capacity key value k1 k2 v s1 h1 g1 f1))
          (λ s1 (sound, same). (sound, inl same))

    -- The half is full: the pending flip is finished, or there is a flip at once.
    pub after_full-Leaves :
        (s : S) (h g : ℕ) (p : Option FlipState)
        → capacity ≤ u32_max
        → g + 1 < u32_max
        → Formatted (ee.bytes s) capacity h g
        → Pending (ee.bytes s) capacity h g p
        → Leaves
            (Set ee capacity key value (ee.bytes s) (g + 2))
            (SetCut ee capacity key value (ee.bytes s) (g + 2))
            (after_full ee capacity h g key value p s)
    after_full-Leaves s h g p small lt f w =
        let m = ee.bytes s in
        let lt' : g < u32_max = omega arith in
        let at_once =
          Set_after ee capacity key value k1 k2 v m s (g + 1) (g + 2) _ (omega arith) (λ k. refl)
            (flip_append-Leaves ee capacity key value k1 k2 v s h g small lt' f) in
        by_pending p w lt' at_once
      where
        finished :
            (st : FlipState) (left : List Rec) (lt' : g < u32_max)
            → AtWork (ee.bytes s) capacity h g st left
            → Leaves
                (Set ee capacity key value (ee.bytes s) (g + 2))
                (SetCut ee capacity key value (ee.bytes s) (g + 2))
                ((flip_commit ee capacity st
                    >> (flip_again ee capacity key value >> append_fresh ee capacity key value))
                  s)
        finished st left lt' w =
            Leaves-then_do (Flipped ee capacity h g lt' s) (FlipCut ee capacity h g lt' s)
              (Set ee capacity key value (ee.bytes s) (g + 2))
              (SetCut ee capacity key value (ee.bytes s) (g + 2))
              (λ u. flip_again ee capacity key value >> append_fresh ee capacity key value)
              (flip_commit ee capacity st s)
              (flip_commit-Leaves ee capacity h g lt' s st left small f w)
              (λ u s1 (f1, same).
                Set_after ee capacity key value k1 k2 v (ee.bytes s) s1 (g + 1 + 1) (g + 2) _
                  (omega arith) same (again_append-Leaves s1 (1 - h) (g + 1) small lt f1))
              (λ s1 cut. elim cut [
                | inl (old, same) ↦ ((h, g, old, omega arith), inl same)
                | inr (new, same) ↦ ((1 - h, g + 1, new, omega arith), inl same)
              ])

        by_pending :
            (p : Option FlipState)
            → Pending (ee.bytes s) capacity h g p
            → (lt' : g < u32_max)
            → Leaves
                (Set ee capacity key value (ee.bytes s) (g + 2))
                (SetCut ee capacity key value (ee.bytes s) (g + 2))
                ((flip ee capacity h g >> append_fresh ee capacity key value) s)
            → Leaves
                (Set ee capacity key value (ee.bytes s) (g + 2))
                (SetCut ee capacity key value (ee.bytes s) (g + 2))
                (after_full ee capacity h g key value p s)
        by_pending none w lt' at_once = at_once
        by_pending (some st) (inl (left, w)) lt' at_once =
            let here : is_of st h g ≡ true = ground (arith, w.same_half, w.same_gen) in
            rw (here) (finished st left lt' w)
        by_pending (some st) (inr old) lt' at_once =
            let other : (st.src_gen == g) ≡ false = ground arith in
            let not_here : is_of st h g ≡ false = ground (arith, other) in rw (not_here) at_once
