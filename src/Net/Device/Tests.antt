-- ===== src/Net/Device/Tests.antt =====
-- Runs of the counter kernel, and the theorems at concrete lives.
use tower.Prelude.{ℕ, ◌≡◌, refl, true, false, none, some, [], ◌∷◌, u32_max, arith}
use tower.Net.Nonce.{nonce_for}
use tower.Net.Device.{
  Device, wrote, refused, torn, boot, alloc_counter, raise_tx_floor, Life, boots, allocates, Reach,
  here, next, first_boot,
}
use tower.Net.Falling.{Falling}
use tower.Net.Device.NonceSafety.{Reach-Falling, sent_nonces-apart}
use tower.Net.Device.KeyExport.{raise_tx_floor-locked_boot}

abbrev device : ℕ → ℕ → ℕ → Device
device counter limit stored = record {
  txc = record { counter = counter; reserve_limit = limit; locked = false };
  stored = some stored;
}

-- Two frames, a power failure, and one more frame.
abbrev used : Life
used = record { device = device 1026 2049 2049; sent = 1025 ∷ 2 ∷ 1 ∷ [] }

used-Reach : Reach (first_boot false wrote) used
unfolding boot alloc_counter
used-Reach =
    next
      (next
        (next (next here (allocates (first_boot false wrote) wrote 1 (device 2 1025 1025) refl)) (
          allocates (record { device = device 2 1025 1025; sent = 1 ∷ [] }) wrote 2
            (device 3 1025 1025) refl))
        (boots (record { device = device 3 1025 1025; sent = 2 ∷ 1 ∷ [] }) true wrote))
      (allocates (record { device = device 1025 2049 2049; sent = 2 ∷ 1 ∷ [] }) torn 1025
        (device 1026 2049 2049) refl)

-- A write that reports an error locks, and the next boot resumes at what the store holds.
torn_reserve :
    alloc_counter torn (device 2048 2049 2049)
    ≡ some (
      2048,
      record {
        txc = record { counter = 2049; reserve_limit = 2049; locked = true };
        stored = some 3073;
      },
    )
unfolding alloc_counter
torn_reserve = refl

lost_watermark : alloc_counter wrote (boot true wrote none) ≡ none
unfolding alloc_counter boot
lost_watermark = refl

nonce_bytes :
    nonce_for 0x04030201 0x08070605 0x0b0a09
    ≡ 1 ∷ 2 ∷ 3 ∷ 4 ∷ 5 ∷ 6 ∷ 7 ∷ 8 ∷ 9 ∷ 10 ∷ 11 ∷ 0 ∷ 0 ∷ []
unfolding nonce_for
nonce_bytes = refl

Reach-Falling_example : Falling u32_max used.sent
Reach-Falling_example = Reach-Falling false wrote used-Reach

chunk_four : nonce_for 5 2 4 ≡ nonce_for 5 2 4
chunk_four = refl

sent_nonces-apart_example : (◌≡◌ {A = ℕ} 1 1) × (◌≡◌ {A = ℕ} 4 4)
sent_nonces-apart_example =
    sent_nonces-apart 5 false wrote 1 1 2 2 4 4 (omega arith) used-Reach refl refl (omega arith)
      (omega arith) chunk_four

-- The second device starts afresh and takes over a key of the first.
abbrev taken_over : Life
taken_over = record { device = device 2049 3073 3073; sent = [] }

raise_tx_floor-locked_boot_example :
    let (d, done) = raise_tx_floor wrote 3500 (boot false refused (some 3000)) in
    (done ≡ true)
    × (d.stored ≡ some 3000)
    × (e : Device) × (alloc_counter wrote (boot false wrote d.stored) ≡ some (3000, e))
raise_tx_floor-locked_boot_example =
    raise_tx_floor-locked_boot false wrote 3000 3500 (omega arith) (omega arith) (omega arith)
      (omega arith)
