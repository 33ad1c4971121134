-- ===== src/Kv/FirstSet.antt =====
-- `set_bytes` of a region that is not formatted: it is formatted first.
use tower.Prelude.{
  ℕ, ◌+◌, ◌≤◌, ◌<◌, ◌≡◌, sym, ◌∙◌, ◌⊎◌, inl, false, none, List, length, ltb, ◌==◌, u32_max, arith,
}
use tower.Kv.Eeprom.{Mem, Eeprom, Result, ok, err}
use tower.Kv.Layout.{max_value, super_off, u32_at, active}
use tower.Kv.Write.{init}
use tower.Kv.Store.{set_in, set_after, set_bytes_with, set_bytes, result_of}
use tower.Kv.Steps.{Leaves, Leaves-weaken}
use tower.Kv.Dead.{SameMap}
use tower.Kv.Setting.{Updated, Set, SetCut, Set_after, set_in-Leaves}
use tower.Kv.Formatting.{active-Empty, Fresh, FreshCut, init-Leaves}

module _ {S : Type 0} (ee : Eeprom S) (capacity key : ℕ) (value : List ℕ) where
  -- A failure leaves the old map or the new one.
  abbrev pub FirstCut : Mem → S → Type 0
  FirstCut m s' = SameMap m (ee.bytes s') capacity ⊎ Updated m (ee.bytes s') capacity key value

  module _ (k1 : 1 ≤ key) (k2 : key < 65536) (v : length value ≤ max_value)
      (small : capacity ≤ u32_max) where
    set_after-Leaves :
        (m : Mem) (p : S × Result (Unit {0}))
        → active m capacity ≡ none
        → Leaves (Fresh ee capacity) (FreshCut ee capacity) p
        → Leaves
            (Set ee capacity key value m 2)
            (FirstCut m)
            (result_of ee (set_after ee capacity key value none p))
    set_after-Leaves m (s1, err e) a q = inl (λ k. q k ∙ sym (active-Empty m capacity a k))
    set_after-Leaves m (s1, ok u) a q =
        let (f, e) = q in
        let same : SameMap m (ee.bytes s1) capacity =
          λ k. e k ∙ sym (active-Empty m capacity a k) in
        let out = result_of ee (set_in ee capacity 0 1 key value none s1) in
        Leaves-weaken (Set ee capacity key value m 2) (SetCut ee capacity key value m 2)
          (Set ee capacity key value m 2) (FirstCut m) out
          (Set_after ee capacity key value k1 k2 v m s1 2 2 out (omega arith) same (
            set_in-Leaves ee capacity key value k1 k2 v s1 0 1 1 small f (omega arith)
              (omega arith)))
          (λ u s' r. r) (λ s' r. r.1)

    -- In a region of at most `u32::MAX` bytes in which no superblock is valid and the generation
    -- word of the second one is 0, for a key from 1 to 65535 and a value of at most 256 bytes: a
    -- `set_bytes` that succeeds leaves a formatted region with the value under the key, and every
    -- other key without a value; one that fails at any write, or finds no room, leaves either the
    -- empty map or that one. A write that fails may stop between two words or leave the word in
    -- work erased, or garbled so that no checksum passes over it.
    pub first_set-Leaves :
        (s : S)
        → active (ee.bytes s) capacity ≡ none
        → u32_at (ee.bytes s) (super_off capacity 1 + 4) ≡ 0
        → Leaves
            (Set ee capacity key value (ee.bytes s) 2)
            (FirstCut (ee.bytes s))
            (set_bytes ee capacity key value s)
    unfolding set_bytes set_bytes_with
    first_set-Leaves s a w =
        let valid : (key == 0) ≡ false = ground arith in
        let short : ltb max_value (length value) ≡ false = ground arith in
        rw (valid, short, a)
          (set_after-Leaves (ee.bytes s) (init ee capacity s) a (init-Leaves ee capacity s a w))
