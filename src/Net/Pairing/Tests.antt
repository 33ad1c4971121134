-- ===== src/Net/Pairing/Tests.antt =====
-- Commit rounds and join requests.
use tower.Prelude.{◌≡◌, refl, true, false, ◌==◌, arith}
use tower.Net.Pairing.{commit_round}
use tower.Net.Pairing.Commit.{EndsRight, commit_round-EndsRight}

third :
    commit_round 6 (λ n. n == 3) (λ n. 100)
    ≡ record { committed = true; attempts = 3; began_ms = 4700 }
unfolding commit_round
third = refl

never :
    commit_round 9 (λ n. false) (λ n. 0)
    ≡ record { committed = false; attempts = 6; began_ms = 10500 }
unfolding commit_round
never = refl

commit_round-EndsRight_example :
    EndsRight (λ n. n == 3) (λ n. 100) (commit_round 6 (λ n. n == 3) (λ n. 100))
commit_round-EndsRight_example = commit_round-EndsRight 6 (λ n. n == 3) (λ n. 100) (omega arith)
