-- ===== src/Radio/Duty.antt =====
-- crates/radio/src/lib.rs: time on air and the token-bucket duty governor.
pub mod Budget
use tower.Prelude.{
  ℕ, zero, suc, ◌+◌, ◌-◌, ◌*◌, ◌/◌, ◌%◌, ◌^◌, min, Bool, true, false, List, [], ◌∷◌, leb,
  if◌then◌else◌, u32_max, sat_add,
}

abbrev pub bitrate : ℕ
bitrate = 19200

abbrev pub eu_cap_ms : ℕ
eu_cap_ms = 36000

abbrev pub eu_permil : ℕ
eu_permil = 10

abbrev pub fhss_dwell_burst_ms : ℕ
fhss_dwell_burst_ms = 100

abbrev pub fhss_permil : ℕ
fhss_permil = 10

abbrev pub fhss_window_ms : ℕ
fhss_window_ms = 20000

abbrev pub u64_max : ℕ
u64_max = 18446744073709551615

-- `frame_len` is a `usize` of 64 bits at most.
unfoldable pub frame_toa_ms : ℕ → ℕ
frame_toa_ms frame_len =
    let bytes = min (frame_len + 11) u64_max in
    let ms = (min (bytes * 8000) u64_max + 19199) / bitrate in min ms u32_max

pub record DutyGovernor : Type 0 where
  pub budget_ms : ℕ
  pub cap_ms : ℕ
  pub permil : ℕ
  pub residue : ℕ

unfoldable pub new : ℕ → ℕ → DutyGovernor
new cap_ms permil = record { budget_ms = cap_ms; cap_ms = cap_ms; permil = permil; residue = 0 }

unfoldable pub eu : DutyGovernor
eu = new eu_cap_ms eu_permil

unfoldable pub us915 : DutyGovernor
us915 = new eu_cap_ms 1000

unfoldable pub fhss_channel : DutyGovernor
fhss_channel = new fhss_dwell_burst_ms fhss_permil

-- `elapsed_ms.saturating_mul(permil).saturating_add(residue)`
unfoldable pub earned : DutyGovernor → ℕ → ℕ
earned g elapsed_ms = sat_add (min (elapsed_ms * g.permil) u32_max) g.residue

unfoldable pub refill_ms : DutyGovernor → ℕ → DutyGovernor
refill_ms g elapsed_ms =
    let total = earned g elapsed_ms in
    record g {
      residue = total % 1000;
      budget_ms = min (sat_add g.budget_ms (total / 1000)) g.cap_ms;
    }

unfoldable pub try_consume : DutyGovernor → ℕ → DutyGovernor × Bool
try_consume g toa_ms =
    if leb toa_ms g.budget_ms
    then (record g { budget_ms = g.budget_ms - toa_ms }, true)
    else (g, false)

-- What the owner of a governor does with it.
pub data Event : Type 0 where
  refill : ℕ → Event
  consume : ℕ → Event

-- The governor after the events, the airtime that it allowed, and the time that passed.
unfoldable pub run : DutyGovernor → List Event → DutyGovernor × ℕ × ℕ
run g [] = (g, 0, 0)
run g (refill ms ∷ es) =
    let (g', spent, elapsed) = run (refill_ms g ms) es in (g', spent, ms + elapsed)
run g (consume toa ∷ es) =
    let (g1, allowed) = try_consume g toa in
    let (g', spent, elapsed) = run g1 es in (g', (if allowed then toa else 0) + spent, elapsed)
