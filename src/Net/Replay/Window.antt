-- ===== src/Net/Replay/Window.antt =====
-- The replay window: how many delivered counters a reset may forget.
use tower.Prelude.{
  ℕ, suc, ◌+◌, ◌*◌, ◌%◌, ◌≤◌, ◌<◌, ◌≡◌, ◌↔◌, ◌⊎◌, refl, ◌≢◌, min, max, true, List, [], ◌∷◌, ltb,
  if◌then◌else◌, All, arith,
}
use tower.Net.Falling.{Falling, Falling-mono}
use tower.Net.Replay.{
  Frame, Session, period_max, persist_period, receive, restart, step, run, session,
}

-- the periods that divide the 256 steps of the `u8`
abbrev pub IsCadence : ℕ → Type 0
IsCadence q = (q ≡ 1) ⊎ (q ≡ 2) ⊎ (q ≡ 4) ⊎ (q ≡ 8) ⊎ (q ≡ 16) ⊎ (q ≡ 32)

persist_period-IsCadence : (p : ℕ) → IsCadence (persist_period p)
unfolding persist_period
persist_period-IsCadence p = ground arith

-- The period of the cadence is the least power of two from 1 to 32 that is not below the period
-- asked for, once that is clamped to `1..=P`.
pub persist_period_lem :
    (p : ℕ)
    → let q = persist_period p in
      IsCadence q × (min (max p 1) period_max ≤ q) × (q < 2 * min (max p 1) period_max)
persist_period_lem p = (
  persist_period-IsCadence p,
  unfold persist_period in ground arith,
  unfold persist_period in ground arith,
)

-- The wrap of the `u8` at 256 does not disturb the cadence.
cadence :
    (q a : ℕ)
    → IsCadence q
    → let b = (a + 1) % 256 in ((b % q ≡ 0) × (a % q + 1 ≡ q)) ⊎ ((b % q ≢ 0) × (b % q ≡ a % q + 1))
cadence q a h = ground arith

-- The counters above `n`: those that a reset to `n` would let in again.
abbrev pub count_above : ℕ → List ℕ → ℕ
count_above n [] = 0
count_above n (c ∷ cs) = if ltb n c then count_above n cs + 1 else count_above n cs

count_above-zero : (n m : ℕ) (cs : List ℕ) → Falling m cs → m ≤ suc n → count_above n cs ≡ 0
count_above-zero n m [] f h = refl
count_above-zero n m (c ∷ cs) f h = ground (arith, count_above-zero n c cs f.1)

record IsLagging (q : ℕ) (s : Session) : Type 0 where
  falling : Falling (suc s.receiver.lane.last_seen) s.delivered
  behind : s.receiver.stored ≤ s.receiver.lane.last_seen
  lag : count_above s.receiver.stored s.delivered ≡ s.receiver.lane.accepts % q

step-IsLagging :
    (period : ℕ) (s : Session) (f : Frame)
    → f.lands ≡ true
    → IsLagging (persist_period period) s
    → IsLagging (persist_period period) (step period s f)
unfolding step
step-IsLagging period s f h v = ground (
  arith,
  cadence (persist_period period) s.receiver.lane.accepts (persist_period-IsCadence period),
  Falling-mono (suc s.receiver.lane.last_seen) f.counter s.delivered,
  count_above-zero f.counter (suc s.receiver.lane.last_seen) s.delivered v.falling,
)

run-IsLagging :
    (period : ℕ) (s : Session) (fs : List Frame)
    → All (λ f. f.lands ≡ true) fs
    → IsLagging (persist_period period) s
    → IsLagging (persist_period period) (run period s fs)
unfolding run
run-IsLagging period s [] h v = v
run-IsLagging period s (f ∷ fs) h v =
    run-IsLagging period (step period s f) fs h.1 (step-IsLagging period s f h.0 v)

-- While the EEPROM takes every lane record, fewer of the counters delivered than one period are
-- above the stored last-seen: those are all that a reset lets in again. The period is at most
-- `P`.
pub run-window :
    (period stored : ℕ) (fs : List Frame)
    → All (λ f. f.lands ≡ true) fs
    → let s = run period (session stored) fs in
      (count_above s.receiver.stored s.delivered < persist_period period)
      × (persist_period period ≤ period_max)
unfolding restart
run-window period stored fs h =
    let v =
      run-IsLagging period (session stored) fs h
        (record { falling = tt; behind = omega arith; lag = start }) in
    bounds _ v.lag (persist_period-IsCadence period)
  where
    start : 0 ≡ 0 % persist_period period
    start = ground (arith, persist_period-IsCadence period)

    bounds :
        {n : ℕ} (a : ℕ)
        → n ≡ a % persist_period period
        → IsCadence (persist_period period)
        → (n < persist_period period) × (persist_period period ≤ period_max)
    bounds a e c = ground arith

-- A restarted receiver delivers a frame that was delivered before only if its counter is above the
-- stored last-seen.
pub restart-delivered_iff :
    (period stored : ℕ) (f : Frame)
    → ((receive period f (restart stored)).1.delivered ≡ true) ↔ (stored < f.counter)
unfolding receive restart
restart-delivered_iff period stored f = ground arith
