-- ===== src/Radio/Uplink.antt =====
-- crates/radio/src/lib.rs: the interval between the uplinks of a sleeping node.
use tower.Prelude.{ℕ, zero, suc, ◌+◌, ◌*◌, ◌^◌, ◌≤◌, ◌<◌, ◌≡◌, refl, ap, ◌∙◌, min, max, arith}
use tower.Radio.Duty.{u64_max}

unfoldable pub uplink_backoff_s : ℕ → ℕ → ℕ → ℕ
uplink_backoff_s period_s cap_s misses =
    let period = max period_s 1 in
    let backed_off = min (period * 2 ^ min misses 32) u64_max in min backed_off (max cap_s period)

two_pow_pos : (n : ℕ) → 1 ≤ 2 ^ n
two_pow_pos zero = omega arith
two_pow_pos (suc n) = omega (arith, two_pow_pos n)

le_mul : (a b : ℕ) → 1 ≤ b → a ≤ a * b
le_mul a b h = grind arith

mul_double : (a m : ℕ) → a * 2 ^ (m + 1) ≡ 2 * (a * 2 ^ m)
mul_double a m =
    let next : m + 1 ≡ suc m = omega arith in
    let twice : 2 ^ suc m ≡ 2 * 2 ^ m = omega arith in
    let power : 2 ^ (m + 1) ≡ 2 * 2 ^ m = ap (λ k. 2 ^ k) next ∙ twice in rw power (grind arith)

-- Below 32 misses the shift is by the misses.
shifted :
    (period_s cap_s misses : ℕ)
    → misses ≤ 32
    → uplink_backoff_s period_s cap_s misses
      ≡ min (min (max period_s 1 * 2 ^ misses) u64_max) (max cap_s (max period_s 1))
unfolding uplink_backoff_s
shifted period_s cap_s misses few = let same : min misses 32 ≡ misses = omega arith in rw same refl

-- The interval is never below the period or one second, nor above the larger of the cap and these; with
-- no miss it is the period; and each of the first 32 misses doubles it, up to the cap.
pub uplink_backoff_s_lem :
    (period_s cap_s misses : ℕ)
    → period_s ≤ u64_max
    → misses < 32
    → let period = max period_s 1 in
      (period ≤ uplink_backoff_s period_s cap_s misses)
      × (uplink_backoff_s period_s cap_s misses ≤ max cap_s period)
      × (uplink_backoff_s period_s cap_s 0 ≡ period)
      × (uplink_backoff_s period_s cap_s (misses + 1)
          ≡ min (min (2 * uplink_backoff_s period_s cap_s misses) u64_max) (max cap_s period))
uplink_backoff_s_lem period_s cap_s misses fits few =
    let up = le_mul (max period_s 1) (2 ^ misses) (two_pow_pos misses) in
    let now = shifted period_s cap_s misses (omega arith) in
    let start = shifted period_s cap_s 0 (omega arith) in
    let next = shifted period_s cap_s (misses + 1) (omega arith) in
    let twice = mul_double (max period_s 1) misses in
    (
      omega (arith, now, up),
      omega (arith, now),
      omega (arith, start),
      omega (arith, now, next, twice),
    )
