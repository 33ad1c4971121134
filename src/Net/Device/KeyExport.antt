-- ===== src/Net/Device/KeyExport.antt =====
-- A key moves between devices with its counter floor: what one device sent under it is below all
-- that the other will send.
use tower.Prelude.{ℕ, ◌+◌, ◌≤◌, ◌<◌, ◌≡◌, Bool, true, false, Option, some, u32_max, arith}
use tower.Net.TxCounter.{resume_at, floor}
use tower.Net.Device.{
  Device, Write, wrote, refused, boot, alloc_counter, raise_tx_floor, Life, Step, boots, allocates,
  raises, Reach, here, next, first_boot,
}
use tower.Net.Falling.{Falling, Falling-mono}
use tower.Net.Device.NonceSafety.{IsSound, IsSafe, Step-IsSafe, Reach-IsSafe, first_boot-IsSafe}

-- No counter below `target` can be sent any more, in this boot or after any other.
pub record IsRaised (target : ℕ) (d : Device) : Type 0 where
  pub durable : target ≤ resume_at d.stored
  pub now : d.txc.locked ≡ false → target ≤ d.txc.counter

raise_tx_floor-IsRaised :
    (w : Write) (target : ℕ) (d : Device)
    → IsSound d
    → d.txc.locked ≡ false
    → target ≤ u32_max
    → (raise_tx_floor w target d).1 ≡ true
    → IsRaised target (raise_tx_floor w target d).0
unfolding raise_tx_floor
raise_tx_floor-IsRaised w target d v unlocked t h = ground arith

boot-IsRaised :
    (target : ℕ) (prior : Bool) (w : Write) (s : Option ℕ)
    → resume_at s ≤ u32_max
    → target ≤ resume_at s
    → IsRaised target (boot prior w s)
unfolding boot
boot-IsRaised target prior w s fits h = ground arith

alloc_counter-IsRaised :
    (target : ℕ) (w : Write) (d : Device) (c : ℕ) (d' : Device)
    → alloc_counter w d ≡ some (c, d')
    → IsSound d
    → IsRaised target d
    → IsRaised target d' × (target ≤ c)
unfolding alloc_counter
alloc_counter-IsRaised target w d c d' e v r = ground arith

raise_again-IsRaised :
    (target : ℕ) (w : Write) (other : ℕ) (d : Device)
    → IsSound d
    → IsRaised target d
    → IsRaised target (raise_tx_floor w other d).0
unfolding raise_tx_floor
raise_again-IsRaised target w other d v r = ground arith

Step-IsRaised :
    (target : ℕ) {l m : Life}
    → Step l m
    → IsSafe l
    → IsRaised target l.device
    → IsRaised target m.device
Step-IsRaised target (boots l prior w) v r =
    boot-IsRaised target prior w l.device.stored v.sound.stored_fits r.durable
Step-IsRaised target (allocates l w c d e) v r =
    (alloc_counter-IsRaised target w l.device c d e v.sound r).0
Step-IsRaised target (raises l w other h) v r =
    raise_again-IsRaised target w other l.device v.sound r

Reach-IsRaised :
    (target : ℕ) {l m : Life}
    → Reach l m
    → IsSafe l
    → IsRaised target l.device
    → IsRaised target m.device
Reach-IsRaised target here v r = r
Reach-IsRaised target (next p s) v r =
    Step-IsRaised target s (Reach-IsSafe v p) (Reach-IsRaised target p v r)

-- The floor that a device exports is above every counter that it has sent.
floor-Falling :
    (prior : Bool) (w : Write) {l : Life}
    → Reach (first_boot prior w) l
    → Falling (floor l.device.txc) l.sent × (floor l.device.txc ≤ u32_max)
unfolding floor
floor-Falling prior w {l} r =
    let v = Reach-IsSafe (first_boot-IsSafe prior w) r in
    let below = v.sound.counter_fits in
    let limit = v.sound.limit_fits in
    (Falling-mono l.device.txc.counter _ l.sent (omega arith) v.sent_below, omega arith)

-- When an unlocked device has raised itself to the floor that another device exported, and reported
-- success, then every counter that it allocates from there on, through any further writes and
-- power failures, is above every counter that the exporting device had sent.
pub imported_floor-Falling :
    (prior prior' : Bool) (w w' raising allocating : Write) {exporter importer later : Life} (c : ℕ)
    (d : Device)
    → Reach (first_boot prior w) exporter
    → Reach (first_boot prior' w') importer
    → importer.device.txc.locked ≡ false
    → (raise_tx_floor raising (floor exporter.device.txc) importer.device).1 ≡ true
    → Reach
        (record importer {
          device = (raise_tx_floor raising (floor exporter.device.txc) importer.device).0;
        })
        later
    → alloc_counter allocating later.device ≡ some (c, d)
    → Falling c exporter.sent
imported_floor-Falling prior prior' w w' raising allocating {exporter} {importer} {later} c d re ri
      unlocked done rl e =
    let target = floor exporter.device.txc in
    let (sent_below, fits) = floor-Falling prior w re in
    let vi = Reach-IsSafe (first_boot-IsSafe prior' w') ri in
    let raised =
      raise_tx_floor-IsRaised raising target importer.device vi.sound unlocked fits done in
    let vr = Step-IsSafe (raises importer raising target fits) vi in
    let high = Reach-IsRaised target rl vr raised in
    let vl = Reach-IsSafe vr rl in
    let covered = (alloc_counter-IsRaised target allocating later.device c d e vl.sound high).1 in
    Falling-mono target c exporter.sent covered sent_below

-- The lock does not say that the limit is durable: a device whose boot could not write its
-- watermark reports a floor above the stored watermark as reached, and the next boot, once it can
-- write, allocates the stored watermark itself, below that floor.
pub raise_tx_floor-locked_boot :
    (prior : Bool) (w : Write) (stored target : ℕ)
    → 0 < stored
    → stored < target
    → target ≤ stored + 1024
    → stored + 1024 ≤ u32_max
    → let (d, done) = raise_tx_floor w target (boot prior refused (some stored)) in
      (done ≡ true)
      × (d.stored ≡ some stored)
      × (e : Device) × (alloc_counter wrote (boot prior wrote d.stored) ≡ some (stored, e))
unfolding raise_tx_floor boot alloc_counter
raise_tx_floor-locked_boot prior w stored target h low high fits = (
  ground arith,
  ground arith,
  record {
    txc = record { counter = stored + 1; reserve_limit = stored + 1024; locked = false };
    stored = some (stored + 1024);
  },
  ground arith,
)
