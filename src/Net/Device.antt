-- ===== src/Net/Device.antt =====
-- firmware/src/radio/net/mod.rs: how `Net` runs the TX-counter kernel against the watermark record
-- of the EEPROM. A device is the kernel and the stored watermark; a `Write` is what the EEPROM
-- makes of one attempt to write the record.

pub mod NonceSafety
pub mod KeyExport
mod Tests
use tower.Prelude.{
  ℕ, ◌≤◌, ◌≡◌, Bool, true, false, ◌&&◌, Option, none, some, List, [], ◌∷◌, ◌==◌, u32_max,
  if◌then◌else◌,
}
use tower.Net.TxCounter.{TxCounter, resume, alloc, raise_to, reserve_persisted, lock}

-- `wrote`: accepted and durable. `refused`: an error, and the old record stands. `torn`: an error,
-- and yet the new record reads back.
pub data Write : Type 0 where
  wrote refused torn : Write

-- the record after the attempt, and whether `set_bytes` returned `Ok`
abbrev pub set_bytes : Write → ℕ → Option ℕ → Option ℕ × Bool
set_bytes wrote v stored = (some v, true)
set_bytes refused v stored = (stored, false)
set_bytes torn v stored = (some v, false)

abbrev pub reads : Option ℕ → ℕ → Bool
reads none v = false
reads (some u) v = u == v

-- written and read back
abbrev pub set_verified : Write → ℕ → Option ℕ → Option ℕ × Bool
set_verified w v stored =
    let (stored', accepted) = set_bytes w v stored in (stored', accepted && reads stored' v)

pub record Device : Type 0 where
  pub txc : TxCounter
  pub stored : Option ℕ

boot_persist : Write → TxCounter → Option ℕ → Option ℕ → Device
boot_persist w t none stored = record { txc = t; stored = stored }
boot_persist w t (some watermark) stored =
    let (stored', persisted) = set_verified w watermark stored in
    record { txc = if persisted then t else lock t; stored = stored' }

-- The part of `Net::new` that resumes the counter; `prior_use` is what the other records say.
pub boot : Bool → Write → Option ℕ → Device
unfolding resume lock boot_persist
boot prior_use w stored =
    let (t, watermark) = resume stored prior_use in boot_persist w t watermark stored

alloc_persist : Write → TxCounter → Option ℕ → Option ℕ → Device
alloc_persist w t none stored = record { txc = t; stored = stored }
alloc_persist w t (some next) stored =
    let (stored', accepted) = set_bytes w next stored in
    record { txc = if accepted then reserve_persisted t next else lock t; stored = stored' }

-- `Net::alloc_counter`
pub alloc_counter : Write → Device → Option (ℕ × Device)
unfolding alloc reserve_persisted lock alloc_persist
alloc_counter w d = elim (alloc d.txc) [
  | none ↦ none
  | some (counter, persist, t) ↦ some (counter, alloc_persist w t persist d.stored)
]

-- `Net::raise_tx_floor`
pub raise_tx_floor : Write → ℕ → Device → Device × Bool
unfolding raise_to
raise_tx_floor w target d =
    let (t, done, stored') = raise_to (set_verified w) d.txc target d.stored in
    (record { txc = t; stored = stored' }, done)

-- A device with every counter that it has sent, the newest first.
pub record Life : Type 0 where
  pub device : Device
  pub sent : List ℕ

-- Power may fail, and the device boot again, between any two of its steps.
pub data Step : Life → Life → Type 0 where
  boots :
      (l : Life) (prior_use : Bool) (w : Write)
      → Step l (record l { device = boot prior_use w l.device.stored })
  allocates :
      (l : Life) (w : Write) (c : ℕ) (d : Device)
      → alloc_counter w l.device ≡ some (c, d)
      → Step l (record { device = d; sent = c ∷ l.sent })
  raises :
      (l : Life) (w : Write) (target : ℕ)
      → target ≤ u32_max
      → Step l (record l { device = (raise_tx_floor w target l.device).0 })

pub data Reach (start : Life) : Life → Type 0 where
  here : Reach start start
  next : {l m : Life} → Reach start l → Step l m → Reach start m

-- The first boot of a device whose store is empty.
abbrev pub first_boot : Bool → Write → Life
first_boot prior_use w = record { device = boot prior_use w none; sent = [] }
