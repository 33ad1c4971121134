-- ===== src/Net/Pairing.antt =====
-- crates/net/src/pairing.rs: which pairing frames are answered, and the commit round that a joiner
-- runs (`pair` of firmware/apps/radio_push_button.rs).
pub mod Commit
pub mod Admission
mod Tests
use tower.Prelude.{
  ℕ, zero, suc, ◌+◌, ◌-◌, ◌*◌, Bool, true, false, ◌&&◌, not, List, [], ◌∷◌, ◌==◌, leb,
  if◌then◌else◌, from_le,
}
use tower.Net.Addr.{is_reserved_addr, peer_addr_valid}
use tower.Net.Replay.{ReplayVerdict, fresh, retransmit, replay}

unfoldable pub handshake_fits : ℕ → ℕ → Bool
handshake_fits remaining_ms handshake_ms = leb handshake_ms remaining_ms

abbrev pub commit_attempts : ℕ
commit_attempts = 6

abbrev pub commit_settle_ms : ℕ
commit_settle_ms = 500

abbrev pub commit_retry_ms : ℕ
commit_retry_ms = 2000

abbrev pub gateway_commit_stall_ms : ℕ
gateway_commit_stall_ms = 6000

pub data CommitStep : Type 0 where
  commit discard : CommitStep
  retry : ℕ → CommitStep

unfoldable pub commit_step : ℕ → Bool → CommitStep
commit_step attempt delivered =
    if delivered
    then commit
    else if leb commit_attempts attempt
    then discard
    else retry commit_retry_ms

-- How the commit round ends, after how many attempts, and when the last attempt began.
pub record Round : Type 0 where
  pub committed : Bool
  pub attempts : ℕ
  pub began_ms : ℕ

-- The loop of `pair`, on fuel, from `attempt` attempts made, the next of them at `now`.
-- `delivered` says of each attempt whether it is acknowledged, `takes` how long `commit_uplink` takes.
commit_loop : ℕ → (ℕ → Bool) → (ℕ → ℕ) → ℕ → ℕ → Round
commit_loop zero delivered takes attempt now = record {
  committed = false;
  attempts = attempt;
  began_ms = now;
}
commit_loop (suc fuel) delivered takes attempt now =
    elim (commit_step (attempt + 1) (delivered (attempt + 1))) [
      | commit ↦ record { committed = true; attempts = attempt + 1; began_ms = now }
      | discard ↦ record { committed = false; attempts = attempt + 1; began_ms = now }
      | retry after_ms ↦
          commit_loop fuel delivered takes (attempt + 1) (now + takes (attempt + 1) + after_ms)
    ]

pub commit_round : ℕ → (ℕ → Bool) → (ℕ → ℕ) → Round
unfolding commit_loop commit_step
commit_round fuel delivered takes = commit_loop fuel delivered takes 0 commit_settle_ms

unfoldable pub join_request_admissible : ℕ → ℕ → Bool → Bool
unfolding peer_addr_valid
join_request_admissible joiner own registered = peer_addr_valid joiner own && not registered

unfoldable pub join_response_for : ℕ → ℕ → ℕ → Bool
unfolding is_reserved_addr
join_response_for dest src joiner =
    dest == joiner && not (is_reserved_addr src) && not (src == joiner)

-- the first four bytes of a payload, as a number
abbrev starts_with_u32 : List ℕ → ℕ → Bool
starts_with_u32 (a ∷ b ∷ c ∷ d ∷ rest) n = from_le a b c d == n
starts_with_u32 _ n = false

unfoldable pub keyed_req_valid : List ℕ → ℕ → Bool
keyed_req_valid payload src = starts_with_u32 payload src

abbrev is_fresh : ReplayVerdict → Bool
is_fresh fresh = true
is_fresh retransmit = false
is_fresh replay = false

unfoldable pub keyed_req_admit : Bool → ReplayVerdict → Bool
keyed_req_admit registered verdict = registered && is_fresh verdict

unfoldable pub keyed_resp_matches : List ℕ → ℕ → Bool
keyed_resp_matches payload req_counter = starts_with_u32 payload req_counter
