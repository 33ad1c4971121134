-- ===== src/Radio/Hop.antt =====
-- crates/radio/src/lib.rs: the hopping sequence. The array of the `n` channels is a function of the
-- index; a read outside it, which the code answers with a panic, gives nothing.
use tower.Prelude.{
  ℕ, zero, suc, ◌+◌, ◌*◌, ◌/◌, ◌%◌, ◌^◌, ◌≤◌, ◌<◌, ◌≡◌, sym, ap, ◌∙◌, Option, none, some, ◌==◌, ltb,
  if◌then◌else◌, arith,
}
use Prim.Native.Nat.{bit_xor}

-- One step of xorshift32.
unfoldable pub xorshift32 : ℕ → ℕ
xorshift32 x =
    let a = bit_xor x (x * 2 ^ 13 % 2 ^ 32) in
    let b = bit_xor a (a / 2 ^ 17) in bit_xor b (b * 2 ^ 5 % 2 ^ 32)

abbrev pub Perm : Type 0
Perm = ℕ → ℕ

unfoldable pub swap : Perm → ℕ → ℕ → Perm
swap perm j r k = if k == j then perm r else if k == r then perm j else perm k

-- The loop over `j`, from the last index down to 1.
unfoldable pub shuffle : ℕ → ℕ → Perm → Perm
shuffle zero x perm = perm
shuffle (suc i) x perm =
    let x' = xorshift32 x in shuffle i x' (swap perm (suc i) (x' % (suc i + 1)))

unfoldable pub seeded : ℕ → ℕ
seeded seed = if seed == 0 then 0xA5A5A5A5 else seed

unfoldable pub hop_channel : ℕ → ℕ → ℕ → ℕ → Option ℕ
hop_channel zero seed cycle i = none
hop_channel (suc last) seed cycle i =
    let perm = shuffle last (seeded seed) (λ k. k % 256) in
    if ltb i (suc last) then some (perm i) else none

-- The first `n` entries are the channels below `n`, each in one place.
record IsPerm (n : ℕ) (perm : Perm) : Type 0 where
  below : (k : ℕ) → k < n → perm k < n
  once : (k l : ℕ) → k < n → l < n → perm k ≡ perm l → k ≡ l
  covers : (c : ℕ) → c < n → (k : ℕ) × (k < n) × (perm k ≡ c)

-- The exchange of two indices.
abbrev other : ℕ → ℕ → ℕ → ℕ
other j r k = if k == j then r else if k == r then j else k

swap-other : (perm : Perm) (j r k : ℕ) → swap perm j r k ≡ perm (other j r k)
unfolding swap
swap-other perm j r k = ground arith

other-other : (j r k : ℕ) → other j r (other j r k) ≡ k
other-other j r k = ground arith

other-below : (n j r k : ℕ) → j < n → r < n → k < n → other j r k < n
other-below n j r k hj hr h = ground arith

swap-IsPerm :
    (n : ℕ) (perm : Perm) (j r : ℕ) → j < n → r < n → IsPerm n perm → IsPerm n (swap perm j r)
swap-IsPerm n perm j r hj hr p =
    let at = swap-other perm j r in
    let to = other j r in
    let to_below : (k : ℕ) → k < n → other j r k < n = λ k. other-below n j r k hj hr in
    record {
      below = λ k h. rw (at k) (p.below (to k) (to_below k h));
      once = λ k l h h' e.
          let same = p.once (to k) (to l) (to_below k h) (to_below l h') (sym (at k) ∙ e ∙ at l) in
          sym (other-other j r k) ∙ ap to same ∙ other-other j r l;
      covers = λ c h.
          let (k, hk, e) = p.covers c h in
          (to k, to_below k hk, at (to k) ∙ ap perm (other-other j r k) ∙ e);
    }

shuffle-IsPerm :
    (n last x : ℕ) (perm : Perm) → last < n → IsPerm n perm → IsPerm n (shuffle last x perm)
unfolding shuffle
shuffle-IsPerm n zero x perm h p = p
shuffle-IsPerm n (suc i) x perm h p =
    let r = xorshift32 x % (suc i + 1) in
    shuffle-IsPerm n i (xorshift32 x) (swap perm (suc i) r) (omega arith)
      (swap-IsPerm n perm (suc i) r h (omega arith) p)

start-IsPerm : (n : ℕ) → n ≤ 256 → IsPerm n (λ k. k % 256)
start-IsPerm n h = record {
  below = λ k hk. omega arith;
  once = λ k l hk hl e. omega arith;
  covers = λ c hc. (c, hc, omega arith);
}

hop_channel-IsPerm :
    (last seed : ℕ) → suc last ≤ 256 → IsPerm (suc last) (shuffle last (seeded seed) (λ k. k % 256))
hop_channel-IsPerm last seed h =
    shuffle-IsPerm (suc last) last (seeded seed) (λ k. k % 256) (omega arith)
      (start-IsPerm (suc last) h)

-- For any seed, with at most 256 channels: a channel is visited in one and the same slot of every cycle.
pub hop_channel-one_slot :
    (n seed cycle cycle' i j c : ℕ)
    → n ≤ 256
    → hop_channel n seed cycle i ≡ some c
    → hop_channel n seed cycle' j ≡ some c
    → (i ≡ j) × (c < n)
unfolding hop_channel
hop_channel-one_slot zero seed cycle cycle' i j c h e e' = absurd (cc)
hop_channel-one_slot (suc last) seed cycle cycle' i j c h e e' =
    let p = hop_channel-IsPerm last seed h in
    let hi : i < suc last = ground arith in
    let hj : j < suc last = ground arith in
    (p.once i j hi hj (ground arith), ground (arith, p.below i hi))

-- For any seed, with at most 256 channels: every channel has its slot in each cycle.
pub hop_channel-covers :
    (n seed cycle c : ℕ)
    → n ≤ 256
    → c < n
    → (i : ℕ) × (i < n) × (hop_channel n seed cycle i ≡ some c)
unfolding hop_channel
hop_channel-covers zero seed cycle c h below_n = absurd (omega arith)
hop_channel-covers (suc last) seed cycle c h below_n =
    let (k, hk, e) = (hop_channel-IsPerm last seed h).covers c below_n in (k, hk, ground arith)
