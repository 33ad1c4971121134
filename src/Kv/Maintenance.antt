-- ===== src/Kv/Maintenance.antt =====
-- crates/kv/src/lib.rs: the maintenance of the store in slices.
use tower.Prelude.{
  ℕ, suc, ◌+◌, ◌-◌, Bool, true, false, Option, none, some, ◌==◌, leb, ltb, if◌then◌else◌,
}
use tower.Kv.Eeprom.{Eeprom, Result, ok, err}
use tower.Kv.Layout.{half_len, half_base, active}
use tower.Kv.Scan.{scan_half, live_bytes}
use tower.Kv.Write.{blank_step_span}
use tower.Kv.Flip.{FlipState, flip_start, flip_step, flip_commit}
use tower.Kv.Store.{is_of}

-- The progress of blanking the dead half.
pub record BlankCursor : Type 0 where
  pub generation : ℕ
  pub off : ℕ

pub record MaintState : Type 0 where
  pub blank_cursor : BlankCursor
  pub pending : Option FlipState

unfoldable pub new : MaintState
new = record { blank_cursor = record { generation = 0; off = 0 }; pending = none }

module _ {S : Type 0} (ee : Eeprom S) where
  abbrev pub rewound : BlankCursor → ℕ → BlankCursor
  rewound cur g = if cur.generation == g then cur else record { generation = g; off = 0 }

  -- The store, the state of the caller, and the result.
  abbrev pub moved : ℕ → BlankCursor → S × Result (ℕ × ℕ) → S × BlankCursor × Result Bool
  moved half cur (s, err e) = (s, cur, err e)
  moved half cur (s, ok (off, budget)) = (s, record cur { off = off }, ok (ltb off half))

  unfoldable pub blank_dead_step : ℕ → BlankCursor → ℕ → S → S × BlankCursor × Result Bool
  blank_dead_step capacity cur budget_words s = elim (active (ee.bytes s) capacity) [
    | none ↦ (s, cur, ok false)
    | some (h, g) ↦
        let half = half_len capacity in
        let cur' = rewound cur g in
        if leb half cur'.off
        then (s, cur', ok false)
        else moved half cur' (
            blank_step_span ee (suc half) (half_base capacity (1 - h)) half cur'.off budget_words s)
  ]

  abbrev pub Maintained : Type 0
  Maintained = S × MaintState × Result Bool

  -- A pending flip that is of the active half.
  abbrev pub fresh : Option FlipState → ℕ → ℕ → Option FlipState
  fresh none h g = none
  fresh (some st) h g = if is_of st h g then some st else none

  abbrev pub ended : MaintState → S × Result (Unit {0}) → Maintained
  ended m (s, err e) = (s, record m { pending = none }, err e)
  ended m (s, ok u) = (s, record m { pending = none }, ok true)

  -- After a slice of the pending flip: the commit if no work is left.
  abbrev pub driven : ℕ → MaintState → S × FlipState × Result Bool → Maintained
  driven capacity m (s, st, err e) = (s, record m { pending = some st }, err e)
  driven capacity m (s, st, ok true) = (s, record m { pending = some st }, ok true)
  driven capacity m (s, st, ok false) = ended m (flip_commit ee capacity st s)

  abbrev pub planned : MaintState → S → Result (Option FlipState) → Maintained
  planned m s (err e) = (s, m, err e)
  planned m s (ok p) = (s, record m { pending = p }, ok true)

  abbrev pub blanked_more : MaintState → S × BlankCursor × Result Bool → Maintained
  blanked_more m (s, cur, r) = (s, record m { blank_cursor = cur }, r)

  -- Starts a flip below the threshold if it would lift the free space over it, else blanks.
  abbrev pub idle : ℕ → MaintState → ℕ → ℕ → ℕ → S → Maintained
  idle capacity m h budget_words threshold s =
      let half = half_len capacity in
      let mem = ee.bytes s in
      let blanking = blanked_more m (blank_dead_step capacity m.blank_cursor budget_words s) in
      if ltb (half - (scan_half mem (half_base capacity h) half 0).0) threshold
      then elim (live_bytes mem capacity) [
        | err e ↦ (s, m, err e)
        | ok live ↦
            if leb (live + threshold) half then planned m s (flip_start mem capacity) else blanking
      ]
      else blanking

  abbrev pub maintained : ℕ → MaintState → ℕ → ℕ → ℕ → S → Maintained
  maintained capacity m h budget_words threshold s = elim m.pending [
    | some st ↦ driven capacity m (flip_step ee capacity st budget_words s)
    | none ↦ idle capacity m h budget_words threshold s
  ]

  unfoldable pub maintain : ℕ → MaintState → ℕ → ℕ → S → Maintained
  maintain capacity m budget_words threshold s = elim (active (ee.bytes s) capacity) [
    | none ↦ (s, m, ok false)
    | some (h, g) ↦
        maintained capacity (record m { pending = fresh m.pending h g }) h budget_words threshold s
  ]
