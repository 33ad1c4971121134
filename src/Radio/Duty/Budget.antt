-- ===== src/Radio/Duty/Budget.antt =====
-- The airtime that a governor allows, and what it earns back.
use tower.Prelude.{
  ℕ, ◌+◌, ◌*◌, ◌≤◌, ◌<◌, ◌≡◌, refl, ap, ap₂, List, [], ◌∷◌, if◌then◌else◌, u32_max, arith,
}
use tower.Radio.Duty.{
  DutyGovernor, Event, refill, consume, refill_ms, try_consume, run, earned, frame_toa_ms, bitrate,
  fhss_channel, fhss_window_ms, new,
}

pub record IsValid (g : DutyGovernor) : Type 0 where
  pub within : g.budget_ms ≤ g.cap_ms
  pub carry : g.residue < 1000

refill_ms-IsValid : (g : DutyGovernor) (ms : ℕ) → IsValid g → IsValid (refill_ms g ms)
unfolding refill_ms
refill_ms-IsValid g ms v = record { within = omega arith; carry = omega arith }

try_consume-IsValid : (g : DutyGovernor) (toa : ℕ) → IsValid g → IsValid (try_consume g toa).0
unfolding try_consume
try_consume-IsValid g toa v = record {
  within = ground (arith, v.within);
  carry = ground (arith, v.carry);
}

-- What the budget and the carry are worth, in permil-milliseconds.
abbrev pub worth : DutyGovernor → ℕ
worth g = 1000 * g.budget_ms + g.residue

refill_ms-worth : (g : DutyGovernor) (ms : ℕ) → worth (refill_ms g ms) ≤ worth g + ms * g.permil
unfolding refill_ms earned
refill_ms-worth g ms = omega arith

try_consume-worth :
    (g : DutyGovernor) (toa : ℕ)
    → let (g', allowed) = try_consume g toa in
      1000 * (if allowed then toa else 0) + worth g' ≡ worth g
unfolding try_consume
try_consume-worth g toa = ground arith

refill_ms-permil : (g : DutyGovernor) (ms : ℕ) → (refill_ms g ms).permil ≡ g.permil
unfolding refill_ms
refill_ms-permil g ms = refl

try_consume-permil : (g : DutyGovernor) (toa : ℕ) → (try_consume g toa).0.permil ≡ g.permil
unfolding try_consume
try_consume-permil g toa = ground arith

-- Over any sequence of refills and transmissions, the airtime that a governor allows is at most what
-- its budget held at the start and what the time that passed earned.
pub run-spent :
    (g : DutyGovernor) (es : List Event)
    → IsValid g
    → let (g', spent, elapsed) = run g es in
      IsValid g' × (1000 * spent + worth g' ≤ worth g + elapsed * g.permil)
unfolding run refill_ms
run-spent g [] v = (v, omega arith)
run-spent g (refill ms ∷ es) v =
    let (valid, le) = run-spent (refill_ms g ms) es (refill_ms-IsValid g ms v) in
    (valid, omega (arith, (rw (refill_ms-permil g ms) at le), refill_ms-worth g ms))
run-spent g (consume toa ∷ es) v =
    let (valid, le) = run-spent (try_consume g toa).0 es (try_consume-IsValid g toa v) in
    (valid, omega (arith, (rw (try_consume-permil g toa) at le), try_consume-worth g toa))

-- From any state of the per-channel governor on, the airtime allowed within `FHSS_WINDOW_MS` (20 s) is
-- at most 300 ms.
pub fhss_channel-window :
    (g : DutyGovernor) (es : List Event)
    → IsValid g
    → g.cap_ms ≡ fhss_channel.cap_ms
    → g.permil ≡ fhss_channel.permil
    → (run g es).2 ≤ fhss_window_ms
    → (run g es).1 ≤ 300
unfolding fhss_channel new
fhss_channel-window g es v top rate short =
    let (valid, le) = run-spent g es v in
    let gain = ap (λ p. (run g es).2 * p) rate in omega (arith, le, gain)

-- While nothing saturates, two refills come to one refill of the whole time: no time is lost to rounding.
pub refill_ms-refill_ms :
    (g : DutyGovernor) (a b : ℕ)
    → IsValid g
    → g.cap_ms + 4294968 ≤ u32_max
    → (a + b) * g.permil + 999 ≤ u32_max
    → refill_ms (refill_ms g a) b ≡ refill_ms g (a + b)
unfolding refill_ms earned
refill_ms-refill_ms g a b v low fits =
    ap₂ (λ x y. record g { budget_ms = x; residue = y }) (omega arith) (omega arith)

-- The airtime of a frame is the airtime of its bits at the bit rate rounded up to a millisecond, unless
-- that is more than 32 bits hold.
pub frame_toa_ms_lem :
    (frame_len : ℕ)
    → frame_len < 10000000000
    → (8000 * (frame_len + 11) ≤ frame_toa_ms frame_len * bitrate)
      × (frame_toa_ms frame_len * bitrate < 8000 * (frame_len + 11) + bitrate)
unfolding frame_toa_ms
frame_toa_ms_lem frame_len h = (omega arith, omega arith)
