-- ===== src/Net/Epoch/Tests.antt =====
-- Beacons of a gateway, and a replay among them.
use tower.Prelude.{◌≤◌, ◌≡◌, inr, refl, true, none, some, [], ◌∷◌, replicate, arith}
use tower.Net.Epoch.{
  EpochGate, Beacon, Slot, synced, scanning, lock, scan, scan_all, track, track_all,
  reacquire_slack_ms, next_master_epoch,
}
use tower.Net.Epoch.Acquire.{Has, InStep, scanner, scan_all-lock, scan_all-successor_locks}

abbrev first : Beacon
first = record { epoch = 4; slot = 100; at = 0 }

abbrev replayed : Beacon
replayed = record { epoch = 4; slot = 60; at = 9000 }

abbrev second : Beacon
second = record { epoch = 4; slot = 181; at = 24100 }

locks : (scan (scan_all (scanner 0 0 none none) (first ∷ replayed ∷ [])) second).1 ≡ lock
unfolding scan scan_all
locks = refl

scan_all-lock_example :
    (c : Beacon) × Has c (replayed ∷ first ∷ [])
    × InStep c second
    × ((scan_all (scanner 0 0 none none) (first ∷ replayed ∷ [])).gate.epoch ≤ 4)
scan_all-lock_example = scan_all-lock 0 0 (first ∷ replayed ∷ []) second locks

scan_all-successor_locks_example :
    let held = scanner 0 0 (some (4, 100)) (some 0) in
    (scan_all held (replayed ∷ replayed ∷ []) ≡ held)
    × (scan (scan_all held (replayed ∷ replayed ∷ [])) second ≡ (scanner 4 0 none none, lock))
scan_all-successor_locks_example =
    scan_all-successor_locks first second 0 0 (replayed ∷ replayed ∷ []) (omega arith)
      (inr (refl, omega arith), (inr (refl, omega arith), tt)) (refl, omega arith, omega arith)

abbrev anchored : EpochGate
anchored = record { epoch = 4; miss = 0; candidate = none }

abbrev silence : Slot
silence = record { heard = none; predicted = 7 }

rescans : (track (track_all anchored (synced true) (replicate 23 silence)).0 silence).1 ≡ scanning
unfolding track track_all
rescans = refl

slacks : (reacquire_slack_ms 1000001 200 ≡ some 101) × (reacquire_slack_ms 9000000 200 ≡ none)
unfolding reacquire_slack_ms
slacks = (refl, refl)

epochs : (next_master_epoch none ≡ 1) × (next_master_epoch (some 4294967295) ≡ 4294967295)
unfolding next_master_epoch
epochs = (refl, refl)
