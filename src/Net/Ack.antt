-- ===== src/Net/Ack.antt =====
-- crates/net/src/ack.rs: the ACK payload and the sender's ACK window.
pub mod Window
mod Tests
use tower.Prelude.{
  ℕ, ◌/◌, ◌%◌, Bool, true, false, ◌&&◌, ◌||◌, not, Option, none, some, List, [], ◌∷◌, ◌==◌,
  if◌then◌else◌, from_le,
}

abbrev pub ack_len : ℕ
ack_len = 6

-- The RSSI is kept as the byte that carries the `i8`.
pub record AckMeta : Type 0 where
  pub rssi : ℕ
  pub pending : Bool

-- `PENDING` is bit 0.
unfoldable pub ack_meta : List ℕ → Option AckMeta
ack_meta (_ ∷ _ ∷ _ ∷ _ ∷ rssi ∷ flags ∷ []) =
    some (record { rssi = rssi; pending = not (flags % 2 == 0) })
ack_meta _ = none

pub data AckVerdict : Type 0 where
  resolved ignore : AckVerdict

pub record AckWait : Type 0 where
  pub me : ℕ
  pub peer : ℕ
  pub counter : ℕ
  pub is_resolved : Bool

unfoldable pub new : ℕ → ℕ → ℕ → AckWait
new me peer counter = record { me = me; peer = peer; counter = counter; is_resolved = false }

-- the counter that a payload of an ACK's length acknowledges
unfoldable pub acked_counter : List ℕ → Option ℕ
acked_counter (a ∷ b ∷ c ∷ d ∷ _ ∷ _ ∷ []) = some (from_le a b c d)
acked_counter _ = none

abbrev pub is_counter : Option ℕ → ℕ → Bool
is_counter none counter = false
is_counter (some c) counter = c == counter

-- One authenticated frame heard in the window.
pub record Heard : Type 0 where
  pub is_ack : Bool
  pub src : ℕ
  pub dest : ℕ
  pub payload : List ℕ

unfoldable pub offer : AckWait → Heard → AckWait × AckVerdict
offer w h =
    if w.is_resolved
    then (w, ignore)
    else if not h.is_ack || not (h.src == w.peer) || not (h.dest == w.me)
    then (w, ignore)
    else if is_counter (acked_counter h.payload) w.counter
    then (record w { is_resolved = true }, resolved)
    else (w, ignore)

-- The verdicts on the frames of a window, in order.
unfoldable pub offer_all : AckWait → List Heard → List AckVerdict
unfolding offer
offer_all w [] = []
offer_all w (h ∷ hs) = let (w', v) = offer w h in v ∷ offer_all w' hs
