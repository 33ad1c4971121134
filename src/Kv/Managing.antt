-- ===== src/Kv/Managing.antt =====
-- `set_bytes_with` and `delete_with`: the operations of a store with a flip pending.
use tower.Prelude.{
  ℕ, ◌+◌, ◌≤◌, ◌<◌, ◌≡◌, refl, inl, inr, false, Bool-cases, Option, none, List, length, leb, ltb,
  ◌==◌, u32_max, arith,
}
use tower.Kv.Eeprom.{Mem, Eeprom, Result}
use tower.Kv.Layout.{half_len, record_size, max_value}
use tower.Kv.Flip.{FlipState}
use tower.Kv.Store.{result_of, log_end, after_full, set_in, set_bytes_with}
use tower.Kv.Steps.{Leaves, Leaves-weaken}
use tower.Kv.Commit.{Formatted}
use tower.Kv.Setting.{Set, SetCut, Set_after, append_active}
use tower.Kv.Pending.{Pending, Managed}
use tower.Kv.Appending.{Leaves-state, append_active-Managed}
use tower.Kv.SettingWith.{after_full-Leaves}

pub Managed-weaken :
    (m : Mem) (capacity n n' : ℕ) (p : Option FlipState)
    → n ≤ n'
    → Managed m capacity n p
    → Managed m capacity n' p
Managed-weaken m capacity n n' p le (h, g, f, b, w) = (h, g, f, omega arith, w)

module _ {S : Type 0} (ee : Eeprom S) (capacity key : ℕ) (value : List ℕ) where
  -- A set that succeeds and one that fails, and what is pending then.
  abbrev pub SetWith : Mem → ℕ → S × Option FlipState × Result (Unit {0}) → Type 0
  SetWith m n r =
      Leaves (Set ee capacity key value m n) (SetCut ee capacity key value m n) (result_of ee r)
      × Managed (ee.bytes r.0) capacity n r.1

  -- No flip is pending any more.
  none_pending :
      (m : Mem) (n : ℕ) (p : S × Result (Unit {0}))
      → Leaves (Set ee capacity key value m n) (SetCut ee capacity key value m n) p
      → Managed (ee.bytes p.0) capacity n none
  none_pending m n p q =
      Leaves-state (λ s. Managed (ee.bytes s) capacity n none) p
        (Leaves-weaken (Set ee capacity key value m n) (SetCut ee capacity key value m n)
          (λ u s. Managed (ee.bytes s) capacity n none) (λ s. Managed (ee.bytes s) capacity n none)
          p q (λ u s ((h, g, f, le), up). (h, g, f, le, tt))
          (λ s ((h, g, f, le), up). (h, g, f, le, tt)))

  module _ (k1 : 1 ≤ key) (k2 : key < 65536) (v : length value ≤ max_value) where
    set_in-SetWith :
        (s : S) (h g n : ℕ) (p : Option FlipState)
        → capacity ≤ u32_max
        → n + 1 < u32_max
        → g ≤ n
        → Formatted (ee.bytes s) capacity h g
        → Pending (ee.bytes s) capacity h g p
        → SetWith (ee.bytes s) (n + 2) (set_in ee capacity h g key value p s)
    unfolding set_in
    set_in-SetWith s h g n p small lt le f w =
        let m = ee.bytes s in
        let flipped =
          Set_after ee capacity key value k1 k2 v m s (g + 2) (n + 2) _ (omega arith) (λ k. refl)
            (after_full-Leaves ee capacity key value k1 k2 v s h g p small (omega arith) f w) in
        elim (Bool-cases
          (leb (log_end m capacity h key + record_size (length value)) (half_len capacity))) [
            | inl room ↦
                let fits : log_end m capacity h key + record_size (length value)
                    ≤ half_len capacity =
                  ground arith in
                rw (room) (
                  Set_after ee capacity key value k1 k2 v m s g (n + 2) _ (omega arith) (λ k. refl)
                      (append_active ee capacity key value k1 k2 v s h g f fits),
                  Managed-weaken _ capacity g (n + 2) p (omega arith)
                      (append_active-Managed ee capacity key value k1 k2 v s h g p f w fits),
                )
            | inr filled ↦
                rw (filled) (
                  flipped,
                  none_pending m (n + 2) (after_full ee capacity h g key value p s) flipped,
                )
          ]

    -- A `set_bytes_with` in a region of at most `u32::MAX` bytes that is formatted with a generation
    -- from 1 to `n`, with `n + 1` below `u32::MAX`, where the pending flip, if there is one, is at work or of
    -- an earlier generation, for a key from 1 to 65535 and a value of at most 256 bytes: if it succeeds,
    -- the map has the value under the key (none if it is empty) and every other key as it was; if it
    -- fails at any write, or finds no room, the map is the old or that new one. In each case the
    -- region is formatted, and the flip that is pending then is at work or of an earlier generation.
    pub set_bytes_with-SetWith :
        (s : S) (n : ℕ) (p : Option FlipState)
        → capacity ≤ u32_max
        → n + 1 < u32_max
        → Managed (ee.bytes s) capacity n p
        → SetWith (ee.bytes s) (n + 2) (set_bytes_with ee capacity key value p s)
    unfolding set_bytes_with
    set_bytes_with-SetWith s n p small lt (h, g, f, le, w) =
        let valid : (key == 0) ≡ false = ground arith in
        let short : ltb max_value (length value) ≡ false = ground arith in
        rw (valid, short, f.0) (set_in-SetWith s h g n p small lt le f w)
