-- ===== src/Net/Epoch/Acquire.antt =====
-- Acquisition: a lock needs two beacons that agree with the clock, and replays cannot prevent it.
use tower.Prelude.{
  ℕ, ◌-◌, ◌/◌, ◌%◌, ◌^◌, ◌≤◌, ◌<◌, ◌≡◌, ◌⊎◌, inr, refl, Option, none, some, List, [], ◌∷◌, All,
  arith,
}
use tower.Net.Epoch.{
  lock, Beacon, Scanner, scan, scan_all, abs_diff, fhss_slot_ms, acquire_slot_slack,
}

abbrev pub Has : Beacon → List Beacon → Type 0
Has b [] = ⊥
Has b (x ∷ xs) = (b ≡ x) ⊎ Has b xs

-- Two beacons of one session whose slots are as far apart as their times; the slots that fit in the
-- time are counted modulo 2^32.
abbrev pub InStep : Beacon → Beacon → Type 0
InStep c b =
    (c.epoch ≡ b.epoch)
    × (c.slot < b.slot)
    × (abs_diff (b.slot - c.slot) ((b.at - c.at) / fhss_slot_ms % 2 ^ 32) ≤ acquire_slot_slack)

-- The candidate and its time are those of a beacon that was heard (the latest stands first).
abbrev CandidateHeard : List Beacon → Option (ℕ × ℕ) → Option ℕ → Type 0
CandidateHeard heard none t0 = t0 ≡ none
CandidateHeard heard (some (e, s)) none = ⊥
CandidateHeard heard (some (e, s)) (some t) = Has (record { epoch = e; slot = s; at = t }) heard

CandidateHeard-more :
    (b : Beacon) (heard : List Beacon) (c : Option (ℕ × ℕ)) (t0 : Option ℕ)
    → CandidateHeard heard c t0
    → CandidateHeard (b ∷ heard) c t0
CandidateHeard-more b heard none t0 h = h
CandidateHeard-more b heard (some (e, s)) none h = h
CandidateHeard-more b heard (some (e, s)) (some t) h = inr h

scan-CandidateHeard :
    (heard : List Beacon) (s : Scanner) (b : Beacon)
    → CandidateHeard heard s.gate.candidate s.acquire_t0
    → let s' = (scan s b).0 in CandidateHeard (b ∷ heard) s'.gate.candidate s'.acquire_t0
unfolding scan
scan-CandidateHeard heard s b h =
    ground (arith, CandidateHeard-more b heard s.gate.candidate s.acquire_t0 h)

-- A scanning node, with its gate's fields and the time of the candidate.
abbrev pub scanner : ℕ → ℕ → Option (ℕ × ℕ) → Option ℕ → Scanner
scanner epoch miss candidate t0 = record {
  gate = record { epoch = epoch; miss = miss; candidate = candidate };
  acquire_t0 = t0;
}

lock_from :
    (heard : List Beacon) (epoch miss : ℕ) (candidate : Option (ℕ × ℕ)) (t0 : Option ℕ) (b : Beacon)
    → CandidateHeard heard candidate t0
    → (scan (scanner epoch miss candidate t0) b).1 ≡ lock
    → (c : Beacon) × Has c heard × InStep c b × (epoch ≤ b.epoch)
unfolding scan
lock_from heard epoch miss none t0 b h e = absurd (ground arith)
lock_from heard epoch miss (some (e0, s0)) none b h e = absurd h
lock_from heard epoch miss (some (e0, s0)) (some t) b h e =
    (record { epoch = e0; slot = s0; at = t }, h, ground arith, ground arith)

-- The beacons heard, the newest first, after those in `heard`.
abbrev pub heard_after : List Beacon → List Beacon → List Beacon
heard_after heard [] = heard
heard_after heard (b ∷ bs) = heard_after (b ∷ heard) bs

scan_all-CandidateHeard :
    (heard bs : List Beacon) (s : Scanner)
    → CandidateHeard heard s.gate.candidate s.acquire_t0
    → let s' = scan_all s bs in
      CandidateHeard (heard_after heard bs) s'.gate.candidate s'.acquire_t0
unfolding scan_all
scan_all-CandidateHeard heard [] s h = h
scan_all-CandidateHeard heard (b ∷ bs) s h =
    scan_all-CandidateHeard (b ∷ heard) bs (scan s b).0 (scan-CandidateHeard heard s b h)

-- A node that starts to scan with no candidate locks to a beacon, after any others, only if it has
-- heard one of the same session at a lower slot, by as many slots, to within three, as the time
-- between the two, in slots modulo 2^32; and the session is none older than the newest that it has locked to.
pub scan_all-lock :
    (epoch miss : ℕ) (bs : List Beacon) (b : Beacon)
    → (scan (scan_all (scanner epoch miss none none) bs) b).1 ≡ lock
    → (c : Beacon) × Has c (heard_after [] bs)
      × InStep c b
      × ((scan_all (scanner epoch miss none none) bs).gate.epoch ≤ b.epoch)
scan_all-lock epoch miss bs b e =
    let start = scanner epoch miss none none in
    let s = scan_all start bs in
    lock_from (heard_after [] bs) s.gate.epoch s.gate.miss s.gate.candidate s.acquire_t0 b
      (scan_all-CandidateHeard [] bs start refl) e

-- A beacon that is not ahead of the candidate, such as a replay of an earlier one.
abbrev pub IsBehind : ℕ → ℕ → Beacon → Type 0
IsBehind epoch slot b = (b.epoch < epoch) ⊎ ((b.epoch ≡ epoch) × (b.slot ≤ slot))

scan-IsBehind :
    (e s t miss newest : ℕ) (b : Beacon)
    → IsBehind e s b
    → let held = scanner newest miss (some (e, s)) (some t) in (scan held b).0 ≡ held
unfolding scan
scan-IsBehind e s t miss newest b h = ground arith

scan_all-IsBehind :
    (e s t miss newest : ℕ) (bs : List Beacon)
    → All (IsBehind e s) bs
    → let held = scanner newest miss (some (e, s)) (some t) in scan_all held bs ≡ held
unfolding scan_all
scan_all-IsBehind e s t miss newest [] h = refl
scan_all-IsBehind e s t miss newest (b ∷ bs) h =
    rw (scan-IsBehind e s t miss newest b h.0) (scan_all-IsBehind e s t miss newest bs h.1)

-- While a node holds a candidate, any number of beacons that are not ahead of it leave the node as
-- it is, and a successor of the candidate, in step with the clock (in slots modulo 2^32), still locks
-- it.
pub scan_all-successor_locks :
    (candidate successor : Beacon) (newest miss : ℕ) (bs : List Beacon)
    → newest ≤ candidate.epoch
    → All (IsBehind candidate.epoch candidate.slot) bs
    → InStep candidate successor
    → let held = scanner newest miss (some (candidate.epoch, candidate.slot)) (some candidate.at) in
      (scan_all held bs ≡ held)
      × (scan (scan_all held bs) successor ≡ (scanner successor.epoch 0 none none, lock))
scan_all-successor_locks c b newest miss bs fits behind step = (
  scan_all-IsBehind c.epoch c.slot c.at miss newest bs behind,
  rw (scan_all-IsBehind c.epoch c.slot c.at miss newest bs behind) (unfold scan in ground arith),
)
