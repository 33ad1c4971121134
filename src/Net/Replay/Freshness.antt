-- ===== src/Net/Replay/Freshness.antt =====
-- What a session delivers and acknowledges: each counter once, and with at most `max_reps` ACKs.
use tower.Prelude.{
  ℕ, suc, ◌+◌, ◌≤◌, ◌<◌, ◌≡◌, ◌↔◌, refl, true, List, [], ◌∷◌, ◌==◌, if◌then◌else◌, All, arith,
}
use tower.Net.Falling.{Falling, Falling-mono}
use tower.Net.Replay.{Frame, Receiver, Session, max_reps, receive, restart, step, run, session}

abbrev newest : ℕ → List ℕ → ℕ
newest base [] = base
newest base (c ∷ cs) = c

-- `base` is where the session started.
record IsCurrent (base : ℕ) (s : Session) : Type 0 where
  latest : s.receiver.lane.last_seen ≡ newest base s.delivered
  falling : Falling (suc s.receiver.lane.last_seen) s.delivered
  above : All (λ c. base < c) s.delivered

newest-lt :
    (base n : ℕ) (cs : List ℕ)
    → Falling (suc (newest base cs)) cs
    → All (λ c. base < c) cs
    → (newest base cs < n) ↔ ((base < n) × All (λ c. c < n) cs)
newest-lt base n [] f a = (λ h. (h, tt), λ h. h.0)
newest-lt base n (c ∷ cs) f a = (λ h. (omega arith, (h, below c cs f.1 h)), λ h. h.1.0)
  where
    below : (m : ℕ) (xs : List ℕ) → Falling m xs → m < n → All (λ x. x < n) xs
    below m [] g h = tt
    below m (x ∷ xs) g h = (omega arith, below x xs g.1 (omega arith))

step-IsCurrent :
    (period base : ℕ) (s : Session) (f : Frame)
    → IsCurrent base s
    → IsCurrent base (step period s f)
unfolding step
step-IsCurrent period base s f v =
    ground (arith, Falling-mono (suc s.receiver.lane.last_seen) f.counter s.delivered)

run-IsCurrent :
    (period base : ℕ) (s : Session) (fs : List Frame)
    → IsCurrent base s
    → IsCurrent base (run period s fs)
unfolding run
run-IsCurrent period base s [] v = v
run-IsCurrent period base s (f ∷ fs) v =
    run-IsCurrent period base (step period s f) fs (step-IsCurrent period base s f v)

session-IsCurrent : (base : ℕ) → IsCurrent base (session base)
unfolding restart
session-IsCurrent base = record { latest = refl; falling = tt; above = tt }

-- Whatever frames arrive in a session that starts at `stored`, the counters that it delivers rise
-- strictly and are all above `stored`; none is delivered twice.
pub run-delivered_rise :
    (period stored : ℕ) (fs : List Frame)
    → let s = run period (session stored) fs in
      Falling (suc (newest stored s.delivered)) s.delivered × All (λ c. stored < c) s.delivered
run-delivered_rise period stored fs =
    let v = run-IsCurrent period stored (session stored) fs (session-IsCurrent stored) in
    (rw (← v.latest) v.falling, v.above)

receive-delivered_iff :
    (period : ℕ) (f : Frame) (r : Receiver)
    → ((receive period f r).1.delivered ≡ true) ↔ (r.lane.last_seen < f.counter)
unfolding receive
receive-delivered_iff period f r = ground arith

-- After any frames, the next one is delivered exactly when its counter is above `stored`, where
-- the session started, and above every counter delivered so far.
pub run-delivers_iff :
    (period stored : ℕ) (fs : List Frame) (f : Frame)
    → let s = run period (session stored) fs in
      ((receive period f s.receiver).1.delivered ≡ true)
      ↔ ((stored < f.counter) × All (λ c. c < f.counter) s.delivered)
run-delivers_iff period stored fs f =
    let s = run period (session stored) fs in
    let v = run-IsCurrent period stored (session stored) fs (session-IsCurrent stored) in
    let fresh_iff = receive-delivered_iff period f s.receiver in
    let order = newest-lt stored f.counter s.delivered (rw (← v.latest) v.falling) v.above in
    (λ d. order.0 (rw (← v.latest) (fresh_iff.0 d)), λ h. fresh_iff.1 (rw v.latest (order.1 h)))

abbrev pub count : ℕ → List ℕ → ℕ
count c [] = 0
count c (x ∷ xs) = if c == x then count c xs + 1 else count c xs

-- The ACKs spent on one counter.
record IsCapped (c : ℕ) (s : Session) : Type 0 where
  older : count c s.acked ≤ max_reps
  current : c ≡ s.receiver.lane.last_seen → count c s.acked ≤ s.receiver.lane.reacks + 1
  ahead : s.receiver.lane.last_seen < c → count c s.acked ≡ 0
  spent : s.receiver.lane.reacks < max_reps

step-IsCapped :
    (period c : ℕ) (s : Session) (f : Frame) → IsCapped c s → IsCapped c (step period s f)
unfolding step
step-IsCapped period c s f v = ground arith

run-IsCapped :
    (period c : ℕ) (s : Session) (fs : List Frame) → IsCapped c s → IsCapped c (run period s fs)
unfolding run
run-IsCapped period c s [] v = v
run-IsCapped period c s (f ∷ fs) v =
    run-IsCapped period c (step period s f) fs (step-IsCapped period c s f v)

-- However often a captured frame is sent again, a session spends at most `max_reps` ACKs on any one
-- counter.
pub run-count_acked :
    (period stored c : ℕ) (fs : List Frame)
    → count c (run period (session stored) fs).acked ≤ max_reps
unfolding restart
run-count_acked period stored c fs =
    (run-IsCapped period c (session stored) fs (record {
      older = omega arith;
      current = λ e. omega arith;
      ahead = λ h. refl;
      spent = omega arith;
    })).older
