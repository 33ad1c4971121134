-- ===== src/Net/Pairing/Commit.antt =====
-- The commit round: it ends within six attempts, and outlasts a stalled gateway.
use tower.Prelude.{ℕ, zero, suc, ◌+◌, ◌-◌, ◌*◌, ◌≤◌, ◌<◌, ◌≡◌, ◌⊎◌, Bool, true, false, arith}
use tower.Net.Pairing.{
  Round, commit_loop, commit_round, commit_attempts, commit_settle_ms, commit_retry_ms,
  gateway_commit_stall_ms,
}

-- None of the attempts 1 to `n` is acknowledged.
abbrev pub Silent : (ℕ → Bool) → ℕ → Type 0
Silent delivered zero = Unit {0}
Silent delivered (suc n) = (delivered (suc n) ≡ false) × Silent delivered n

Silent-more :
    (delivered : ℕ → Bool) (n : ℕ)
    → delivered (n + 1) ≡ false
    → Silent delivered n
    → Silent delivered (n + 1)
Silent-more delivered n h s = ground arith

-- How long the attempts 1 to `n` take together.
abbrev pub spent : (ℕ → ℕ) → ℕ → ℕ
spent takes zero = 0
spent takes (suc n) = spent takes n + takes (suc n)

spent-more : (takes : ℕ → ℕ) (n : ℕ) → spent takes (n + 1) ≡ spent takes n + takes (n + 1)
spent-more takes n = ground arith

abbrev pub EndsRight : (ℕ → Bool) → (ℕ → ℕ) → Round → Type 0
EndsRight delivered takes r =
    (r.began_ms
      ≡ commit_settle_ms + spent takes (r.attempts - 1) + (r.attempts - 1) * commit_retry_ms)
    × (1 ≤ r.attempts)
    × (r.attempts ≤ commit_attempts)
    × (((r.committed ≡ true) × (delivered r.attempts ≡ true) × Silent delivered (r.attempts - 1))
        ⊎ ((r.committed ≡ false)
            × (r.attempts ≡ commit_attempts)
            × Silent delivered r.attempts
            × (gateway_commit_stall_ms < r.began_ms)))

commit_loop-EndsRight :
    (fuel : ℕ) (delivered : ℕ → Bool) (takes : ℕ → ℕ) (attempt now : ℕ)
    → commit_attempts ≤ fuel + attempt
    → attempt < commit_attempts
    → now ≡ commit_settle_ms + spent takes attempt + attempt * commit_retry_ms
    → Silent delivered attempt
    → EndsRight delivered takes (commit_loop fuel delivered takes attempt now)
unfolding commit_round
commit_loop-EndsRight zero delivered takes attempt now h low e s = absurd (omega arith)
commit_loop-EndsRight (suc fuel) delivered takes attempt now h low e s = ground (
  arith,
  commit_loop-EndsRight fuel delivered takes (attempt + 1)
      (now + takes (attempt + 1) + commit_retry_ms),
  spent-more takes attempt,
  Silent-more delivered attempt,
)

-- With fuel for six attempts or more, the commit round ends within six: it commits at the first
-- acknowledged attempt, or, if none of six is acknowledged, discards the key, and then the last of
-- them began after the gateway's longest stall. However long the attempts take, attempt n begins
-- 500 + (n - 1) * 2000 ms and the duration of the attempts before it after the handshake.
pub commit_round-EndsRight :
    (fuel : ℕ) (delivered : ℕ → Bool) (takes : ℕ → ℕ)
    → commit_attempts ≤ fuel
    → EndsRight delivered takes (commit_round fuel delivered takes)
unfolding commit_round
commit_round-EndsRight fuel delivered takes h =
    commit_loop-EndsRight fuel delivered takes 0 commit_settle_ms (omega arith) (omega arith)
      (omega arith) tt
