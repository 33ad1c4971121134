-- ===== src/Net/Epoch/Track.antt =====
-- Tracking: what moves the clock, and when a node gives its anchor up.
use tower.Prelude.{
  ℕ, ◌+◌, ◌≤◌, ◌≡◌, ◌↔◌, ◌⊎◌, ap, ◌∙◌, leb, if◌then◌else◌, true, false, Option, none, some, List,
  [], ◌∷◌, All, length, arith,
}
use tower.Net.Epoch.{
  EpochGate, Slot, NodeSlot, synced, scanning, track, track_all, abs_diff, reacquire_limit,
  fhss_resync_slack,
}

-- A beacon that the node may believe: of no older session, and within two slots of the prediction.
abbrev pub IsGenuine : ℕ → Option (ℕ × ℕ) → ℕ → Type 0
IsGenuine newest none predicted = ⊥
IsGenuine newest (some (epoch, slot)) predicted =
    (newest ≤ epoch) × (abs_diff slot predicted ≤ fhss_resync_slack)

-- A slot without such a beacon costs one miss, and changes nothing else.
track-miss :
    (g : EpochGate) (s : Slot)
    → ¬ IsGenuine g.epoch s.heard s.predicted
    → track g s ≡ (
      record g { miss = g.miss + 1 },
      if leb reacquire_limit (g.miss + 1) then scanning else synced false,
    )
unfolding track
track-miss g s h = ground arith

-- The clock is re-anchored exactly to a beacon of no older session that lies within two slots of
-- the prediction; the node then knows its epoch, and has no misses.
pub track-synced_iff :
    (g : EpochGate) (epoch slot predicted : ℕ)
    → let (g', out) = track g (record { heard = some (epoch, slot); predicted = predicted }) in
      ((out ≡ synced true) ↔ ((g.epoch ≤ epoch) × (abs_diff slot predicted ≤ fhss_resync_slack)))
      × (g.epoch ≤ g'.epoch)
      × ((g' ≡ record g { epoch = epoch; miss = 0 }) ⊎ (g' ≡ record g { miss = g.miss + 1 }))
unfolding track
track-synced_iff g epoch slot predicted = ground arith

track_all-misses :
    (g : EpochGate) (last : NodeSlot) (ss : List Slot)
    → All (λ s. ¬ IsGenuine g.epoch s.heard s.predicted) ss
    → (track_all g last ss).0 ≡ record g { miss = g.miss + length ss }
unfolding track_all
track_all-misses g last [] h = ground arith
track_all-misses g last (s ∷ ss) h =
    ap (λ (p : EpochGate × NodeSlot). (track_all p.0 p.1 ss).0) (track-miss g s h.0)
    ∙ track_all-misses (record g { miss = g.miss + 1 }) _ ss h.1
    ∙ ap (λ n. record g { miss = n }) (omega arith)

-- After a re-anchor (no misses), a node rides through slots without a genuine beacon, and falls back
-- to scanning at the 24th in a row, not before.
pub track_all-scanning_iff :
    (g : EpochGate) (last : NodeSlot) (ss : List Slot) (s : Slot)
    → g.miss ≡ 0
    → All (λ x. ¬ IsGenuine g.epoch x.heard x.predicted) ss
    → ¬ IsGenuine g.epoch s.heard s.predicted
    → ((track (track_all g last ss).0 s).1 ≡ scanning) ↔ (reacquire_limit ≤ length ss + 1)
track_all-scanning_iff g last ss s fresh missed miss =
    rw (track_all-misses g last ss missed)
      (rw (track-miss (record g { miss = g.miss + length ss }) s miss) (ground arith))
