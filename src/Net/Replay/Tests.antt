-- ===== src/Net/Replay/Tests.antt =====
-- Runs of the replay kernel, and the theorems at concrete frames and records.
use tower.Prelude.{
  ℕ, suc, ◌≤◌, ◌<◌, ◌≡◌, ◌↔◌, ◌⊎◌, refl, true, false, Option, none, some, List, [], ◌∷◌, All, arith,
}
use tower.Net.Falling.{Falling}
use tower.Net.Replay.{
  Frame, LaneRecord, LaneBinding, receive, run, session, step, restart, period_max, max_reps,
  persist_period, assign_lane, is_free, scan_own, own_step, find_virgin,
}
use tower.Net.Replay.Freshness.{run-delivered_rise, run-delivers_iff, run-count_acked, count}
use tower.Net.Replay.Window.{run-window, count_above}
use tower.Net.Replay.Assign.{IsRestored, IsClaimed, assign_lane-IsRestored, assign_lane-binds}

abbrev frame : ℕ → Frame
frame c = record { counter = c; confirmed = true; lands = true }

-- 11, 12, a replay of 11, 12 again, and 15.
abbrev heard : List Frame
heard = frame 11 ∷ frame 12 ∷ frame 11 ∷ frame 12 ∷ frame 15 ∷ []

heard_run :
    let s = run 32 (session 10) heard in
    (s.delivered ≡ 15 ∷ 12 ∷ 11 ∷ []) × (s.acked ≡ 15 ∷ 12 ∷ 12 ∷ 11 ∷ [])
unfolding run step restart
heard_run = (refl, refl)

run-delivered_rise_example :
    Falling (suc 15) (run 32 (session 10) heard).delivered
    × All (λ c. 10 < c) (run 32 (session 10) heard).delivered
unfolding run step restart
run-delivered_rise_example = run-delivered_rise 32 10 heard

run-delivers_iff_example :
    ((receive 32 (frame 16) (run 32 (session 10) heard).receiver).1.delivered ≡ true)
    ↔ ((10 < 16) × All (λ c. c < 16) (run 32 (session 10) heard).delivered)
run-delivers_iff_example = run-delivers_iff 32 10 heard (frame 16)

run-count_acked_example : count 12 (run 32 (session 10) heard).acked ≤ max_reps
run-count_acked_example = run-count_acked 32 10 12 heard

run-window_example :
    let s = run 2 (session 10) heard in
    (count_above s.receiver.stored s.delivered < persist_period 2) × (persist_period 2 ≤ period_max)
run-window_example = run-window 2 10 heard (refl, (refl, (refl, (refl, (refl, tt)))))

-- Two records of peer 7, the second under another key, and one local that was never written.
abbrev records : List (Option LaneRecord)
records =
    some (record { addr = 7; seen = 40; kcv = 1 })
    ∷ some (record { addr = 7; seen = 90; kcv = 2 })
    ∷ some (record { addr = 8; seen = 5; kcv = 3 })
    ∷ none
    ∷ []

restored : assign_lane 7 1 records 0 ≡ some (record { index = 0; seen = 40; is_fresh = false })
unfolding assign_lane scan_own own_step is_free
restored = refl

unwritten_first : assign_lane 9 1 records 0 ≡ some (record { index = 3; seen = 0; is_fresh = true })
unfolding assign_lane scan_own own_step is_free find_virgin
unwritten_first = refl

assign_lane-IsRestored_example : IsRestored 7 1 records 0 40 (assign_lane 7 1 records 0)
unfolding is_free
assign_lane-IsRestored_example =
    assign_lane-IsRestored 7 1 records 0 0 (record { addr = 7; seen = 40; kcv = 1 }) refl
      (refl, refl, refl)

assign_lane-binds_example :
    (b : LaneBinding) × (assign_lane 9 1 records 8 ≡ some b)
    × (b.index < 4)
    × (is_free 8 b.index ≡ true)
    × (IsRestored 9 1 records 8 b.seen (some b) ⊎ IsClaimed 9 1 records 8 b)
unfolding is_free
assign_lane-binds_example = assign_lane-binds 9 1 records 8 2 (omega arith) refl
