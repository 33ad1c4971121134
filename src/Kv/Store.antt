-- ===== src/Kv/Store.antt =====
-- crates/kv/src/lib.rs: the store's operations.
use tower.Prelude.{
  ℕ, ◌+◌, ◌-◌, Bool, false, ◌&&◌, Option, none, some, List, [], length, ◌==◌, leb, ltb,
  if◌then◌else◌,
}
use tower.Kv.Eeprom.{
  Mem, Eeprom, M, Result, ok, err, value_too_large, full, invalid_key, return, fail, reading, ◌>>◌,
}
use tower.Kv.Layout.{
  max_value, record_size, half_len, half_base, super_off, super_len, active, next_gen,
}
use tower.Kv.Scan.{scan_half}
use tower.Kv.Write.{write_gen, append_end, blank, init}
use tower.Kv.Flip.{FlipState, flip, flip_commit}

-- The store, the pending flip and the result.
abbrev pub Op : Type 0 → Type 0
Op S = S → S × Option FlipState × Result (Unit {0})

abbrev pub with_pending :
    {S : Type 0}
    → Option FlipState
    → S × Result (Unit {0})
    → S × Option FlipState × Result (Unit {0})
with_pending p (s, r) = (s, p, r)

-- A pending flip of the half that is full.
abbrev pub is_of : FlipState → ℕ → ℕ → Bool
is_of st h g = st.src_h == h && st.src_gen == g

-- The latest record of the key is a value.
abbrev pub is_live : Option (ℕ × ℕ) → Bool
is_live none = false
is_live (some (off, len)) = ltb 0 len

-- The end of the log of a half.
abbrev pub log_end : Mem → ℕ → ℕ → ℕ → ℕ
log_end m capacity h key = (scan_half m (half_base capacity h) (half_len capacity) key).0

module _ {S : Type 0} (ee : Eeprom S) where
  -- The append in the half that a flip has left active, or after one flip more.
  abbrev pub append_fresh_in : ℕ → ℕ → List ℕ → Option (ℕ × ℕ) → M S (Unit {0})
  append_fresh_in capacity key value none = fail full
  append_fresh_in capacity key value (some (h, g)) = reading ee λ m.
      if ltb (half_len capacity) (log_end m capacity h key + record_size (length value))
      then fail full
      else append_end ee (half_base capacity h) (half_len capacity) (log_end m capacity h key) key
          value

  unfoldable pub append_fresh : ℕ → ℕ → List ℕ → M S (Unit {0})
  append_fresh capacity key value =
      reading ee λ m. append_fresh_in capacity key value (active m capacity)

  abbrev pub flip_again_in : ℕ → ℕ → List ℕ → Option (ℕ × ℕ) → M S (Unit {0})
  flip_again_in capacity key value none = fail full
  flip_again_in capacity key value (some (h, g)) = reading ee λ m.
      if ltb (half_len capacity) (log_end m capacity h key + record_size (length value))
      then flip ee capacity h g
      else return tt

  unfoldable pub flip_again : ℕ → ℕ → List ℕ → M S (Unit {0})
  flip_again capacity key value =
      reading ee λ m. flip_again_in capacity key value (active m capacity)

  abbrev pub after_full : ℕ → ℕ → ℕ → ℕ → List ℕ → Option FlipState → M S (Unit {0})
  after_full capacity h g key value none = flip ee capacity h g >> append_fresh capacity key value
  after_full capacity h g key value (some st) =
      if is_of st h g
      then flip_commit ee capacity st
        >> (flip_again capacity key value >> append_fresh capacity key value)
      else flip ee capacity h g >> append_fresh capacity key value

  unfoldable pub set_in : ℕ → ℕ → ℕ → ℕ → List ℕ → Option FlipState → Op S
  set_in capacity h g key value pending = λ s.
      if leb (log_end (ee.bytes s) capacity h key + record_size (length value)) (half_len capacity)
      then with_pending pending (
          append_end ee (half_base capacity h) (half_len capacity)
            (log_end (ee.bytes s) capacity h key) key value s)
      else with_pending none (after_full capacity h g key value pending s)

  abbrev pub set_after :
      ℕ
      → ℕ
      → List ℕ
      → Option FlipState
      → S × Result (Unit {0})
      → S × Option FlipState × Result (Unit {0})
  set_after capacity key value pending (s, err e) = (s, pending, err e)
  set_after capacity key value pending (s, ok u) = set_in capacity 0 1 key value pending s

  unfoldable pub set_bytes_with : ℕ → ℕ → List ℕ → Option FlipState → Op S
  set_bytes_with capacity key value pending s =
      if key == 0
      then (s, pending, err invalid_key)
      else if ltb max_value (length value)
      then (s, pending, err value_too_large)
      else elim (active (ee.bytes s) capacity) [
        | some (h, g) ↦ set_in capacity h g key value pending s
        | none ↦ set_after capacity key value pending (init ee capacity s)
      ]

  abbrev pub result_of : S × Option FlipState × Result (Unit {0}) → S × Result (Unit {0})
  result_of (s, p, r) = (s, r)

  unfoldable pub set_bytes : ℕ → ℕ → List ℕ → M S (Unit {0})
  set_bytes capacity key value s = result_of (set_bytes_with capacity key value none s)

  unfoldable pub delete_with : ℕ → ℕ → Option FlipState → Op S
  delete_with capacity key pending s =
      if key == 0 then (s, pending, err invalid_key) else elim (active (ee.bytes s) capacity) [
        | none ↦ (s, pending, ok tt)
        | some (h, g) ↦
            if is_live (scan_half (ee.bytes s) (half_base capacity h) (half_len capacity) key).1
            then set_bytes_with capacity key [] pending s
            else (s, pending, ok tt)
      ]

  unfoldable pub delete : ℕ → ℕ → M S (Unit {0})
  delete capacity key s = result_of (delete_with capacity key none s)

  abbrev pub wipe_in : ℕ → Option (ℕ × ℕ) → M S (Unit {0})
  wipe_in capacity (some (h, g)) =
      blank ee (half_base capacity (1 - h)) (half_len capacity)
      >> (write_gen ee capacity (1 - h) (next_gen g)
          >> blank ee (half_base capacity h) (half_len capacity))
  wipe_in capacity none =
      blank ee (half_base capacity 1) (half_len capacity)
      >> (write_gen ee capacity 1 1
          >> (blank ee (half_base capacity 0) (half_len capacity)
              >> blank ee (super_off capacity 0) super_len))

  unfoldable pub wipe : ℕ → M S (Unit {0})
  wipe capacity = reading ee λ m. wipe_in capacity (active m capacity)
