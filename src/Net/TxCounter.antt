-- ===== src/Net/TxCounter.antt =====
-- crates/net/src/txctr.rs: the TX counter and its reserve-ahead watermark. A counter is a `u32`;
-- saturating sums are `sat_add`. `raise_to` takes the closure `persist` as an action on a store.
use tower.Prelude.{
  ℕ, max, Bool, true, false, ◌&&◌, ◌||◌, Option, none, some, ◌==◌, leb, ltb, if◌then◌else◌, u32_max,
  sat_add,
}

abbrev pub reserve : ℕ
reserve = 1024

pub record TxCounter : Type 0 where
  pub counter : ℕ
  pub reserve_limit : ℕ
  pub locked : Bool

abbrev pub is_none : Option ℕ → Bool
is_none none = true
is_none (some w) = false

-- where a boot resumes: `stored_watermark.unwrap_or(1).max(1)`
abbrev pub resume_at : Option ℕ → ℕ
resume_at none = 1
resume_at (some w) = max w 1

-- the kernel, and the watermark to persist
unfoldable pub resume : Option ℕ → Bool → TxCounter × Option ℕ
resume stored prior_use =
    let start = resume_at stored in
    let lost = is_none stored && prior_use in
    let fail_closed = lost || start == u32_max in
    let limit = if lost then u32_max else sat_add start reserve in
    (
      record { counter = start; reserve_limit = limit; locked = fail_closed },
      if fail_closed then none else some limit,
    )

unfoldable pub floor : TxCounter → ℕ
floor t = max t.reserve_limit t.counter

module _ {ℓ} {S : Type ℓ} (persist : ℕ → S → S × Bool) where
  raised : TxCounter → ℕ → ℕ → S × Bool → TxCounter × Bool × S
  raised t target watermark (s, false) = (record t { locked = true }, false, s)
  raised t target watermark (s, true) =
      (record { counter = target; reserve_limit = watermark; locked = target == u32_max }, true, s)

  unfoldable pub raise_to : TxCounter → ℕ → S → TxCounter × Bool × S
  unfolding raised
  raise_to t target s =
      let watermark = sat_add target reserve in
      if t.locked
      then (t, leb target t.reserve_limit, s)
      else if leb target t.counter
      then (t, true, s)
      else if ltb target t.reserve_limit
      then (record t { counter = target }, true, s)
      else raised t target watermark (persist watermark s)

unfoldable pub advance : TxCounter → TxCounter × Option ℕ
advance t =
    let next = sat_add t.counter 1 in
    if next == u32_max
    then (record t { counter = next; locked = true }, none)
    else if leb t.reserve_limit next
    then (record t { counter = next }, some (sat_add t.reserve_limit reserve))
    else (record t { counter = next }, none)

-- the counter to ride, the watermark to persist, and the kernel
unfoldable pub alloc : TxCounter → Option (ℕ × Option ℕ × TxCounter)
unfolding advance
alloc t = let (t', persist) = advance t in if t.locked then none else some (t.counter, persist, t')

unfoldable pub reserve_persisted : TxCounter → ℕ → TxCounter
reserve_persisted t watermark = record t { reserve_limit = watermark }

unfoldable pub lock : TxCounter → TxCounter
lock t = record t { locked = true }
