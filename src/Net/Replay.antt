-- ===== src/Net/Replay.antt =====
-- crates/net/src/replay.rs: the replay lane of one sender, and the binding of lanes to the locals of
-- the EEPROM. `receive` is the part of `Net::recv` (firmware/src/radio/net/mod.rs) that follows the
-- authentication of a data frame.
pub mod Freshness
pub mod Window
pub mod Lanes
pub mod Locals
pub mod Assign
mod Tests
use tower.Prelude.{
  ℕ, zero, suc, ◌+◌, ◌*◌, ◌/◌, ◌%◌, ◌^◌, min, max, Bool, true, false, ◌&&◌, ◌||◌, not, Option, none,
  some, List, [], ◌∷◌, ◌==◌, ltb, leb, if◌then◌else◌,
}

-- `P`
abbrev pub period_max : ℕ
period_max = 32

-- `u8::next_power_of_two`: the first power of two from `p` on, with fuel.
next_power_from : ℕ → ℕ → ℕ → ℕ
next_power_from zero p n = p
next_power_from (suc fuel) p n =
    let rest = next_power_from fuel (2 * p) n in if leb n p then p else rest

unfoldable pub persist_period : ℕ → ℕ
unfolding next_power_from
persist_period period = next_power_from 8 1 (min (max period 1) period_max)

abbrev pub max_reps : ℕ
max_reps = 10

abbrev pub max_reacks : ℕ
max_reacks = 9

pub data ReplayVerdict : Type 0 where
  fresh retransmit replay : ReplayVerdict

pub record ReplayLane : Type 0 where
  pub last_seen : ℕ
  pub accepts : ℕ
  pub reacks : ℕ

unfoldable pub new : ℕ → ReplayLane
new seen = record { last_seen = seen; accepts = 0; reacks = 0 }

unfoldable pub classify : ReplayLane → ℕ → ReplayVerdict
classify lane counter =
    if counter == 0
    then replay
    else if ltb lane.last_seen counter
    then fresh
    else if counter == lane.last_seen
    then retransmit
    else replay

unfoldable pub accept_every : ReplayLane → ℕ → ℕ → ReplayLane × Bool
accept_every lane counter period =
    let accepts = (lane.accepts + 1) % 256 in
    (
      record { last_seen = counter; accepts = accepts; reacks = 0 },
      accepts % persist_period period == 0,
    )

unfoldable pub accept : ReplayLane → ℕ → ReplayLane × Bool
unfolding accept_every
accept lane counter = accept_every lane counter period_max

unfoldable pub raise : ReplayLane → ℕ → ReplayLane × Bool
unfolding new
raise lane seen = if leb seen lane.last_seen then (lane, false) else (new seen, true)

unfoldable pub reack : ReplayLane → ReplayLane × Bool
reack lane =
    if leb max_reacks lane.reacks
    then (lane, false)
    else (record lane { reacks = lane.reacks + 1 }, true)

pub record LaneRecord : Type 0 where
  pub addr : ℕ
  pub seen : ℕ
  pub kcv : ℕ

pub record LaneBinding : Type 0 where
  pub index : ℕ
  pub seen : ℕ
  pub is_fresh : Bool

-- `used & (1 << l) == 0`
unfoldable pub is_free : ℕ → ℕ → Bool
is_free used l = used / 2 ^ l % 2 == 0

-- the two accumulators of the first loop of `assign_lane`
pub record Own : Type 0 where
  pub restore : Option LaneBinding
  pub stale_own : Option ℕ

abbrev pub higher : ℕ → Option LaneBinding → Bool
higher seen none = true
higher seen (some b) = ltb b.seen seen

abbrev pub get_or_insert : Option ℕ → ℕ → Option ℕ
get_or_insert none l = some l
get_or_insert (some k) l = some k

module _ (addr kcv used : ℕ) where
  unfoldable pub own_step : Own → ℕ → Option LaneRecord → Own
  own_step own l none = own
  own_step own l (some r) =
      if not (r.addr == addr) || not (is_free used l)
      then own
      else if not (r.kcv == kcv)
      then record own { stale_own = get_or_insert own.stale_own l }
      else if higher r.seen own.restore
      then record own { restore = some (record { index = l; seen = r.seen; is_fresh = false }) }
      else own

  -- `records` from local `l` on
  unfoldable pub scan_own : Own → ℕ → List (Option LaneRecord) → Own
  scan_own own l [] = own
  scan_own own l (rec ∷ records) = scan_own (own_step own l rec) (l + 1) records

module _ (used : ℕ) where
  unfoldable pub find_virgin : ℕ → List (Option LaneRecord) → Option ℕ
  find_virgin l [] = none
  find_virgin l (none ∷ records) = if is_free used l then some l else find_virgin (l + 1) records
  find_virgin l (some r ∷ records) = find_virgin (l + 1) records

  unfoldable pub find_free : ℕ → List (Option LaneRecord) → Option ℕ
  find_free l [] = none
  find_free l (rec ∷ records) = if is_free used l then some l else find_free (l + 1) records

-- the early returns, in the order of the source
abbrev pub fresh_at : Option ℕ → Option LaneBinding
fresh_at none = none
fresh_at (some l) = some (record { index = l; seen = 0; is_fresh = true })

abbrev pub or_else {ℓ} : {A : Type ℓ} → Option A → Option A → Option A
or_else none other = other
or_else (some a) other = some a

unfoldable pub assign_lane : ℕ → ℕ → List (Option LaneRecord) → ℕ → Option LaneBinding
assign_lane addr kcv records used =
    let own = scan_own addr kcv used (record { restore = none; stale_own = none }) 0 records in
    or_else own.restore (
      or_else (fresh_at own.stale_own)
        (or_else (fresh_at (find_virgin used 0 records)) (fresh_at (find_free used 0 records))))

-- An authenticated data frame, whether it asks for an acknowledgement, and whether the EEPROM takes
-- a lane record now.
pub record Frame : Type 0 where
  pub counter : ℕ
  pub confirmed : Bool
  pub lands : Bool

-- One sender's lane with its persisted last-seen.
pub record Receiver : Type 0 where
  pub lane : ReplayLane
  pub stored : ℕ

-- What comes of a frame: whether it is delivered, and whether an ACK goes out.
pub record Outcome : Type 0 where
  pub delivered : Bool
  pub acked : Bool

-- `Net::lane_accept`
unfoldable pub lane_accept : ℕ → Frame → Receiver → Receiver
unfolding accept_every
lane_accept period f r =
    let (lane, due) = accept_every r.lane f.counter period in
    record { lane = lane; stored = if due && f.lands then f.counter else r.stored }

unfoldable pub receive : ℕ → Frame → Receiver → Receiver × Outcome
unfolding classify lane_accept reack
receive period f r =
    let (lane, allowed) = reack r.lane in
    elim (classify r.lane f.counter) [
      | fresh ↦ (lane_accept period f r, record { delivered = true; acked = f.confirmed })
      | retransmit ↦
          if f.confirmed
          then (record r { lane = lane }, record { delivered = false; acked = allowed })
          else (r, record { delivered = false; acked = false })
      | replay ↦ (r, record { delivered = false; acked = false })
    ]

-- `Net` after a reset: the lane resumes at what is stored.
unfoldable pub restart : ℕ → Receiver
unfolding new
restart stored = record { lane = new stored; stored = stored }

-- A session, with the counters delivered and those acknowledged, the newest first.
pub record Session : Type 0 where
  pub receiver : Receiver
  pub delivered : List ℕ
  pub acked : List ℕ

abbrev pub noted : Bool → ℕ → List ℕ → List ℕ
noted b c cs = if b then c ∷ cs else cs

unfoldable pub step : ℕ → Session → Frame → Session
unfolding receive
step period s f =
    let (r, out) = receive period f s.receiver in
    record {
      receiver = r;
      delivered = noted out.delivered f.counter s.delivered;
      acked = noted out.acked f.counter s.acked;
    }

unfoldable pub run : ℕ → Session → List Frame → Session
run period s [] = s
run period s (f ∷ fs) = run period (step period s f) fs

abbrev pub session : ℕ → Session
session stored = record { receiver = restart stored; delivered = []; acked = [] }
