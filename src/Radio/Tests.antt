-- ===== src/Radio/Tests.antt =====
-- A spent budget, a short hopping sequence and a node without a gateway.
use tower.Prelude.{ℕ, ◌+◌, ◌*◌, ◌≤◌, ◌<◌, ◌≡◌, refl, some, List, [], ◌∷◌, arith}
use tower.Radio.Duty.{
  Event, refill, consume, fhss_channel, new, refill_ms, try_consume, earned, run,
}
use tower.Radio.Duty.Budget.{IsValid, worth, run-spent}
use tower.Radio.Hop.{hop_channel, hop_channel-one_slot, shuffle, seeded, swap, xorshift32}

abbrev burst : List Event
burst = consume 60 ∷ consume 60 ∷ refill 3050 ∷ consume 60 ∷ []

fhss_channel-IsValid : IsValid fhss_channel
unfolding fhss_channel new
fhss_channel-IsValid = record { within = omega arith; carry = omega arith }

burst-allows :
    run fhss_channel burst
    ≡ (record { budget_ms = 10; cap_ms = 100; permil = 10; residue = 500 }, 120, 3050)
unfolding run try_consume refill_ms earned fhss_channel new
burst-allows = refl

run-spent_example :
    let (g', spent, elapsed) = run fhss_channel burst in
    IsValid g' × (1000 * spent + worth g' ≤ worth fhss_channel + elapsed * fhss_channel.permil)
run-spent_example = run-spent fhss_channel burst fhss_channel-IsValid

hops : hop_channel 5 7 0 2 ≡ hop_channel 5 7 9 2
unfolding hop_channel
hops = refl

hop_value : hop_channel 5 7 0 2 ≡ some 1
unfolding hop_channel shuffle seeded swap xorshift32
hop_value = refl

abbrev slot : ℕ
slot = 2

hop_channel-one_slot_example : (slot ≡ slot) × (1 < 5)
unfolding hop_channel
hop_channel-one_slot_example =
    hop_channel-one_slot 5 7 0 9 slot slot 1 (omega arith) hop_value hop_value
