-- ===== src/Protocol/Ring/Bounds.antt =====
-- The ring stays inside its buffer, and `clear` comes to an end.
use tower.Prelude.{
  ℕ, zero, suc, ◌+◌, ◌-◌, ◌%◌, ◌≤◌, ◌<◌, ◌≡◌, ◌⊎◌, refl, min, true, Option, none, some, List, [],
  ◌∷◌, length, ◌==◌, if◌then◌else◌, Bool-cases, Option-cases, inl, inr, arith,
}
use native.Mathlib.Nat.{mod-lt}
use tower.Protocol.Frame.{MsgType, from_u8, max_payload}
use tower.Protocol.Ring.{
  PayloadRing, room, fits, push, peek, parsed, skip, popped, clear, read_at, record_overhead,
}

-- The oldest record starts in the buffer, and the bytes in use are no more than it has.
pub record IsValid (n : ℕ) (r : PayloadRing) : Type 0 where
  pub inside : r.head < n
  pub bounded : r.len ≤ n

module _ (n : ℕ) (some_bytes : 0 < n) where
  below : (m : ℕ) → m % n < n
  below m = mod-lt m some_bytes

  skip-IsValid : (r : PayloadRing) (k : ℕ) → IsValid n r → IsValid n (skip n r k)
  unfolding skip
  skip-IsValid r k v = record {
    inside = ground (arith, below (r.head + min (record_overhead + k) r.len));
    bounded = omega (arith, v.bounded);
  }

  parsed-IsValid : (r : PayloadRing) (l : List ℕ) → IsValid n r → IsValid n (parsed n r l).0
  parsed-IsValid r (t ∷ k ∷ []) v = elim (Option-cases (from_u8 t)) [
    | inl e ↦ rw (e, parsed) (record { inside = some_bytes; bounded = omega arith })
    | inr (m, e) ↦ rw (e, parsed) v
  ]
  parsed-IsValid r _ v = record { inside = some_bytes; bounded = omega arith }

  peek-IsValid : (r : PayloadRing) → IsValid n r → IsValid n (peek n r).0
  unfolding peek
  peek-IsValid r v = elim (Bool-cases (r.len == 0)) [
    | inl e ↦ rw (e, peek) v
    | inr e ↦ rw (e, peek) (parsed-IsValid r (read_at n r.buf r.head record_overhead) v)
  ]

  popped-IsValid :
      (out_len : ℕ) (q : PayloadRing × Option (MsgType × ℕ))
      → IsValid n q.0
      → IsValid n (popped n out_len q).0
  popped-IsValid out_len (r, none) v = v
  popped-IsValid out_len (r, some (m, k)) v = skip-IsValid r k v

  pub fits-le :
      (r : PayloadRing) (k : ℕ)
      → fits n r k ≡ true
      → (k ≤ max_payload) × (record_overhead + k ≤ n - r.len)
  unfolding fits
  fits-le r k h = ground arith

  -- A record is pushed onto a valid ring exactly if it fits, and then takes its payload and two bytes
  -- more of the room; or else the room stays as it is. The ring stays valid.
  pub push-IsValid :
      (r : PayloadRing) (t : MsgType) (payload : List ℕ)
      → IsValid n r
      → let (r', done) = push n r t payload in
        IsValid n r'
        × (done ≡ fits n r (length payload))
        × (room n r' + (if done then record_overhead + length payload else 0) ≡ room n r)
  unfolding push room
  push-IsValid r t payload v = elim (Bool-cases (fits n r (length payload))) [
    | inl h ↦
        let (small, within) = fits-le r (length payload) h in
        rw (h, push)
          (
            record { inside = v.inside; bounded = omega (arith, within, v.bounded) },
            refl,
            omega (arith, within, v.bounded),
          )
    | inr h ↦ rw (h, push) (v, refl, omega arith)
  ]

  -- What `peek` finds: nothing, in a ring that is empty from then on, or a record of the ring as it was.
  abbrev Peeked : PayloadRing → PayloadRing × Option (MsgType × ℕ) → Type 0
  Peeked r (r', out) =
      ((out ≡ none) × (r'.len ≡ 0))
      ⊎ ((found : MsgType × ℕ) × (out ≡ some found) × (r' ≡ r) × (1 ≤ r.len))

  parsed-Peeked : (r : PayloadRing) (l : List ℕ) → 1 ≤ r.len → Peeked r (parsed n r l)
  parsed-Peeked r (t ∷ k ∷ []) h = elim (Option-cases (from_u8 t)) [
    | inl e ↦ rw (e, parsed) (inl (refl, refl))
    | inr (m, e) ↦ rw (e, parsed) (inr ((m, k), refl, refl, h))
  ]
  parsed-Peeked r _ h = inl (refl, refl)

  peek-Peeked : (r : PayloadRing) → Peeked r (peek n r)
  unfolding peek
  peek-Peeked r = elim (Bool-cases (r.len == 0)) [
    | inl e ↦ rw (e, peek) (inl (refl, ground arith))
    | inr e ↦ rw (e, peek) (parsed-Peeked r (read_at n r.buf r.head record_overhead) (ground arith))
  ]

  skip-len : (r : PayloadRing) (k : ℕ) → 1 ≤ r.len → (skip n r k).len + 1 ≤ r.len
  unfolding skip
  skip-len r k h = omega arith

  -- With at least as much fuel as bytes are in use, `clear` leaves a valid ring valid and empty.
  pub clear-IsValid :
      (fuel : ℕ) (r : PayloadRing)
      → IsValid n r
      → r.len ≤ fuel
      → IsValid n (clear n fuel r).0 × ((clear n fuel r).0.len ≡ 0)
  unfolding clear
  clear-IsValid zero r v h = (v, omega arith)
  clear-IsValid (suc fuel) r v h = elim (peek-Peeked r) [
    | inl (e, empty) ↦ rw (e, clear) (peek-IsValid r v, empty)
    | inr ((m, k), e, same, pos) ↦
        rw (e, clear, same)
          (clear-IsValid fuel (skip n r k) (skip-IsValid r k v) (omega (arith, skip-len r k pos)))
  ]
