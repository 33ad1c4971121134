-- ===== src/Net/Ack/Tests.antt =====
-- An ACK window in which a foreign frame comes first and the ACK comes twice.
use tower.Prelude.{ℕ, ◌≡◌, refl, true, some, List, [], ◌∷◌}
use tower.Net.Ack.{Heard, resolved, ignore, new, offer_all, acked_counter, ack_meta}
use tower.Net.Ack.Window.{ResolvesOnce, new-ResolvesOnce}

abbrev ack_from : ℕ → Heard
ack_from src = record {
  is_ack = true;
  src = src;
  dest = 5;
  payload = 0x34 ∷ 0x12 ∷ 0 ∷ 0 ∷ 200 ∷ 1 ∷ [];
}

abbrev heard : List Heard
heard = ack_from 8 ∷ ack_from 7 ∷ ack_from 7 ∷ []

heard_verdicts : offer_all (new 5 7 0x1234) heard ≡ ignore ∷ resolved ∷ ignore ∷ []
unfolding offer_all new acked_counter
heard_verdicts = refl

heard_meta : ack_meta (ack_from 7).payload ≡ some (record { rssi = 200; pending = true })
unfolding ack_meta
heard_meta = refl

new-ResolvesOnce_example : ResolvesOnce (new 5 7 0x1234) heard (offer_all (new 5 7 0x1234) heard)
new-ResolvesOnce_example = new-ResolvesOnce 5 7 0x1234 heard
