-- ===== src/Net/Pairing/Admission.antt =====
-- What the admission rules keep out.
use tower.Prelude.{
  ℕ, ◌≤◌, ◌<◌, ◌≡◌, ◌≢◌, ◌↔◌, ◌++◌, Bool, true, false, List, le_bytes, u32_max, from_le-le_bytes,
  arith,
}
use tower.Net.Addr.{addr_unassigned, addr_broadcast}
use tower.Net.Replay.{ReplayLane, classify}
use tower.Net.Pairing.{
  join_request_admissible, join_response_for, keyed_req_valid, keyed_req_admit, keyed_resp_matches,
}

-- A host answers a join request exactly from an address that is not reserved, is not its own, and is
-- not registered; a joiner takes a response exactly if it is addressed to it and comes from an
-- address that is not reserved and not its own.
pub join_admission_iff :
    (joiner own dest src : ℕ) (registered : Bool)
    → ((join_request_admissible joiner own registered ≡ true) ↔ (
        (joiner ≢ addr_unassigned)
        × (joiner ≢ addr_broadcast)
        × (joiner ≢ own)
        × (registered ≡ false)))
      × ((join_response_for dest src joiner ≡ true)
          ↔ ((dest ≡ joiner) × (src ≢ addr_unassigned) × (src ≢ addr_broadcast) × (src ≢ joiner)))
unfolding join_request_admissible join_response_for
join_admission_iff joiner own dest src registered = ground arith

-- A gateway admits a keyed join request exactly if it comes from a registered peer, its counter is
-- above the lane's last-seen, and its payload starts with the peer's address. (The address and the
-- counter are `u32`s, and a payload that a peer builds starts with the address in four bytes.)
pub keyed_req_iff :
    (src addr counter : ℕ) (rest : List ℕ) (registered : Bool) (lane : ReplayLane)
    → addr ≤ u32_max
    → ((keyed_req_valid (le_bytes addr ++ rest) src ≡ true)
        × (keyed_req_admit registered (classify lane counter) ≡ true))
      ↔ ((addr ≡ src) × (registered ≡ true) × (lane.last_seen < counter))
unfolding keyed_req_valid keyed_req_admit classify
keyed_req_iff src addr counter rest registered lane h = ground (arith, from_le-le_bytes addr h)

-- A node takes a keyed join response that echoes one of its counters exactly if the echo is of the
-- counter of its present request.
pub keyed_resp-matches_iff :
    (echo counter : ℕ) (rest : List ℕ)
    → echo ≤ u32_max
    → (keyed_resp_matches (le_bytes echo ++ rest) counter ≡ true) ↔ (echo ≡ counter)
unfolding keyed_resp_matches
keyed_resp-matches_iff echo counter rest h = ground (arith, from_le-le_bytes echo h)
