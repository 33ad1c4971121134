-- ===== src/Net/Device/NonceSafety.antt =====
-- No counter, and so no CCM nonce, is sent twice in the life of a device.
use tower.Prelude.{ℕ, ◌≤◌, ◌<◌, ◌≡◌, Bool, false, Option, none, some, get_elem?, u32_max, arith}
use tower.Net.Nonce.{nonce_for, nonce_for-injective}
use tower.Net.TxCounter.{resume_at}
use tower.Net.Device.{
  Device, Write, boot, alloc_counter, raise_tx_floor, Life, Step, boots, allocates, raises, Reach,
  here, next, first_boot,
}
use tower.Net.Falling.{Falling, Falling-mono, Falling-get_elem?, Falling-places}

-- The kernel against the stored watermark: while it is unlocked, the watermark is its limit, and
-- the counter is below it.
pub record IsSound (d : Device) : Type 0 where
  pub counter_fits : d.txc.counter ≤ u32_max
  pub limit_fits : d.txc.reserve_limit ≤ u32_max
  pub stored_fits : resume_at d.stored ≤ u32_max
  pub durable : d.txc.locked ≡ false → d.stored ≡ some d.txc.reserve_limit
  pub below : d.txc.locked ≡ false → d.txc.counter < d.txc.reserve_limit

boot-IsSound :
    (prior : Bool) (w : Write) (s : Option ℕ)
    → resume_at s ≤ u32_max
    → IsSound (boot prior w s)
      × (resume_at s ≤ (boot prior w s).txc.counter)
      × (resume_at s ≤ resume_at (boot prior w s).stored)
unfolding boot
boot-IsSound prior w s h = ground arith

alloc_counter-IsSound :
    (w : Write) (d : Device) (c : ℕ) (d' : Device)
    → alloc_counter w d ≡ some (c, d')
    → IsSound d
    → IsSound d'
      × (c ≡ d.txc.counter)
      × (c < d'.txc.counter)
      × (c < resume_at d.stored)
      × (resume_at d.stored ≤ resume_at d'.stored)
unfolding alloc_counter
alloc_counter-IsSound w d c d' e v = ground arith

raise_tx_floor-IsSound :
    (w : Write) (target : ℕ) (d : Device)
    → target ≤ u32_max
    → IsSound d
    → let (d', done) = raise_tx_floor w target d in
      IsSound d' × (d.txc.counter ≤ d'.txc.counter) × (resume_at d.stored ≤ resume_at d'.stored)
unfolding raise_tx_floor
raise_tx_floor-IsSound w target d h v = ground arith

pub record IsSafe (l : Life) : Type 0 where
  pub sound : IsSound l.device
  pub sent_below : Falling l.device.txc.counter l.sent
  pub stored_above : Falling (resume_at l.device.stored) l.sent

pub Step-IsSafe : {l m : Life} → Step l m → IsSafe l → IsSafe m
Step-IsSafe (boots l prior w) v =
    let (sound, up, kept) = boot-IsSound prior w l.device.stored v.sound.stored_fits in
    record {
      sound = sound;
      sent_below = Falling-mono _ _ l.sent up v.stored_above;
      stored_above = Falling-mono _ _ l.sent kept v.stored_above;
    }
Step-IsSafe (allocates l w c d e) v =
    let (sound, is, low, covered, kept) = alloc_counter-IsSound w l.device c d e v.sound in
    let older : Falling c l.sent = Falling-mono _ _ l.sent (omega arith) v.sent_below in
    record { sound = sound; sent_below = (low, older); stored_above = (omega arith, older) }
Step-IsSafe (raises l w target h) v =
    let (sound, up, kept) = raise_tx_floor-IsSound w target l.device h v.sound in
    record {
      sound = sound;
      sent_below = Falling-mono _ _ l.sent up v.sent_below;
      stored_above = Falling-mono _ _ l.sent kept v.stored_above;
    }

pub Reach-IsSafe : {l m : Life} → IsSafe l → Reach l m → IsSafe m
Reach-IsSafe v here = v
Reach-IsSafe v (next r s) = Step-IsSafe s (Reach-IsSafe v r)

pub first_boot-IsSafe : (prior : Bool) (w : Write) → IsSafe (first_boot prior w)
first_boot-IsSafe prior w = record {
  sound = (boot-IsSound prior w none (omega arith)).0;
  sent_below = tt;
  stored_above = tt;
}

-- From the first boot on, whatever the writes of the watermark come to and wherever power fails,
-- the counters sent rise strictly, below 2^32 - 1; none repeats.
pub Reach-Falling :
    (prior : Bool) (w : Write) {l : Life} → Reach (first_boot prior w) l → Falling u32_max l.sent
Reach-Falling prior w {l} r =
    let v = Reach-IsSafe (first_boot-IsSafe prior w) r in
    Falling-mono l.device.txc.counter u32_max l.sent v.sound.counter_fits v.sent_below

-- Two frames that a device sends in its life, chunk `i` of the transfer at place `p` of those sent
-- and chunk `j` of the one at place `q`, have the same CCM nonce only if they are one and the same
-- frame: the transfers are the same, and so are the chunks. Chunk indices are of 24 bits.
pub sent_nonces-apart :
    (src : ℕ) (prior : Bool) (w : Write) {l : Life} (p q c d i j : ℕ)
    → src ≤ u32_max
    → Reach (first_boot prior w) l
    → get_elem? l.sent p ≡ some c
    → get_elem? l.sent q ≡ some d
    → i < 16777216
    → j < 16777216
    → nonce_for src c i ≡ nonce_for src d j
    → (p ≡ q) × (i ≡ j)
sent_nonces-apart src prior w {l} p q c d i j hs r at_p at_q hi hj e =
    let f = Reach-Falling prior w r in
    let c_low = Falling-get_elem? u32_max l.sent p c f at_p in
    let d_low = Falling-get_elem? u32_max l.sent q d f at_q in
    let (same_src, same, same_chunk, size) =
      nonce_for-injective src c i src d j hs (omega arith) hi hs (omega arith) hj e in
    (Falling-places u32_max l.sent p q c d f at_p at_q same, same_chunk)
