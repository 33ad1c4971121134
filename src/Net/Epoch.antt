-- ===== src/Net/Epoch.antt =====
-- crates/net/src/epoch.rs: which FHSS beacons a node believes. Epochs and slots are `u32`s.
pub mod Acquire
pub mod Track
mod Tests
use tower.Prelude.{
  ◌%◌, ◌^◌, ℕ, ◌+◌, ◌-◌, ◌*◌, ◌/◌, min, Bool, true, false, ◌&&◌, ◌||◌, Option, none, some, List, [],
  ◌∷◌, ◌==◌, leb, ltb, if◌then◌else◌, sat_add,
}

abbrev pub acquire_slot_slack : ℕ
acquire_slot_slack = 3

abbrev pub fhss_resync_slack : ℕ
fhss_resync_slack = 2

abbrev pub reacquire_limit : ℕ
reacquire_limit = 24

abbrev pub drift_ppm : ℕ
drift_ppm = 100

abbrev u64_max : ℕ
u64_max = 18446744073709551615

-- `u64::saturating_mul`, then `div_ceil`
unfoldable pub reacquire_slack_ms : ℕ → ℕ → Option ℕ
reacquire_slack_ms since_beacon_ms max_ms =
    let slack = (min (since_beacon_ms * drift_ppm) u64_max + 999999) / 1000000 in
    if leb slack max_ms then some slack else none

unfoldable pub next_master_epoch : Option ℕ → ℕ
next_master_epoch none = sat_add 0 1
next_master_epoch (some stored) = sat_add stored 1

pub data TrackVerdict : Type 0 where
  re_anchor ignore : TrackVerdict

pub data MissVerdict : Type 0 where
  keep_predicting rescan : MissVerdict

pub data ScanVerdict : Type 0 where
  reject lock : ScanVerdict
  hold : Bool → ScanVerdict

pub record EpochGate : Type 0 where
  pub epoch : ℕ
  pub miss : ℕ
  pub candidate : Option (ℕ × ℕ)

unfoldable pub new : EpochGate
new = record { epoch = 0; miss = 0; candidate = none }

unfoldable pub reset : EpochGate → ℕ → EpochGate
reset g epoch = record { epoch = epoch; miss = 0; candidate = none }

abbrev pub abs_diff : ℕ → ℕ → ℕ
abs_diff a b = a - b + (b - a)

unfoldable pub offer_tracked : EpochGate → ℕ → ℕ → ℕ → EpochGate × TrackVerdict
offer_tracked g epoch slot_abs predicted_slot =
    if leb g.epoch epoch && leb (abs_diff slot_abs predicted_slot) fhss_resync_slack
    then (record g { epoch = epoch; miss = 0 }, re_anchor)
    else (g, ignore)

unfoldable pub beacon_missed : EpochGate → EpochGate × MissVerdict
beacon_missed g = (
  record g { miss = g.miss + 1 },
  if leb reacquire_limit (g.miss + 1) then rescan else keep_predicting,
)

abbrev pub is_consistent : Option (ℕ × ℕ) → Option ℕ → ℕ → ℕ → Bool
is_consistent (some (e0, s0)) (some time_adv) epoch slot_abs =
    e0 == epoch && ltb s0 slot_abs && leb (abs_diff (slot_abs - s0) time_adv) acquire_slot_slack
is_consistent _ _ epoch slot_abs = false

abbrev pub advances : Option (ℕ × ℕ) → ℕ → ℕ → Bool
advances none epoch slot_abs = true
advances (some (e0, s0)) epoch slot_abs = ltb e0 epoch || (epoch == e0 && ltb s0 slot_abs)

unfoldable pub offer_scanning : EpochGate → ℕ → ℕ → Option ℕ → EpochGate × ScanVerdict
offer_scanning g epoch slot_abs elapsed_slots =
    let replaced = advances g.candidate epoch slot_abs in
    if ltb epoch g.epoch
    then (g, reject)
    else if is_consistent g.candidate elapsed_slots epoch slot_abs
    then (record { epoch = epoch; miss = 0; candidate = none }, lock)
    else (if replaced then record g { candidate = some (epoch, slot_abs) } else g, hold replaced)

-- A beacon as a node hears it: its epoch and slot, and the time in milliseconds.
pub record Beacon : Type 0 where
  pub epoch : ℕ
  pub slot : ℕ
  pub at : ℕ

abbrev pub fhss_slot_ms : ℕ
fhss_slot_ms = 300

-- A scanning node: the gate, and the time when the candidate arrived.
pub record Scanner : Type 0 where
  pub gate : EpochGate
  pub acquire_t0 : Option ℕ

abbrev pub elapsed : Option ℕ → ℕ → Option ℕ
elapsed none at = none
elapsed (some t0) at = some ((at - t0) / fhss_slot_ms % 2 ^ 32)

-- The part of `Net::fhss_node_tick` for a node with no anchor that hears a beacon.
unfoldable pub scan : Scanner → Beacon → Scanner × ScanVerdict
unfolding offer_scanning
scan s b =
    let (gate, verdict) = offer_scanning s.gate b.epoch b.slot (elapsed s.acquire_t0 b.at) in
    elim verdict [
      | reject ↦ (record s { gate = gate }, reject)
      | lock ↦ (record { gate = gate; acquire_t0 = none }, lock)
      | hold replaced ↦ (
        record { gate = gate; acquire_t0 = if replaced then some b.at else s.acquire_t0 },
        hold replaced,
      )
    ]

unfoldable pub scan_all : Scanner → List Beacon → Scanner
scan_all s [] = s
scan_all s (b ∷ bs) = scan_all (scan s b).0 bs

-- What a node hears in the slot that it predicts: the epoch and slot of a beacon, or nothing.
pub record Slot : Type 0 where
  pub heard : Option (ℕ × ℕ)
  pub predicted : ℕ

pub data NodeSlot : Type 0 where
  synced : Bool → NodeSlot
  scanning : NodeSlot

abbrev pub offered : EpochGate → Option (ℕ × ℕ) → ℕ → EpochGate × TrackVerdict
offered g none predicted = (g, ignore)
offered g (some (epoch, slot)) predicted = offer_tracked g epoch slot predicted

-- The part of `Net::fhss_node_tick` for a node with an anchor.
unfoldable pub track : EpochGate → Slot → EpochGate × NodeSlot
unfolding offer_tracked beacon_missed
track g s =
    let (g', verdict) = offered g s.heard s.predicted in
    let (missed, miss_verdict) = beacon_missed g in
    elim verdict [
      | re_anchor ↦ (g', synced true)
      | ignore ↦ elim miss_verdict [
        | rescan ↦ (missed, scanning)
        | keep_predicting ↦ (missed, synced false)
      ]
    ]

-- The gate and the last result of a run of slots.
unfoldable pub track_all : EpochGate → NodeSlot → List Slot → EpochGate × NodeSlot
track_all g last [] = (g, last)
track_all g last (s ∷ ss) = track_all (track g s).0 (track g s).1 ss
