-- ===== src/Protocol/Ring.antt =====
-- crates/protocol/src/ring.rs: the queue of encoded payloads. The buffer of `n` bytes is a function of
-- the index; `copy_in` and `copy_out` are the two copies that a wrapped access is made of.
pub mod Bounds
pub mod Bytes
pub mod Fifo
mod Tests
use tower.Prelude.{
  ℕ, zero, suc, ◌+◌, ◌-◌, ◌*◌, ◌%◌, ◌≤◌, ◌<◌, min, Bool, true, false, ◌&&◌, Option, none, some,
  List, [], ◌∷◌, ◌++◌, length, take, drop, ◌==◌, leb, if◌then◌else◌,
}
use tower.Protocol.Frame.{MsgType, as_u8, from_u8, max_payload}

abbrev pub record_overhead : ℕ
record_overhead = 2

abbrev pub Buf : Type 0
Buf = ℕ → ℕ

pub record PayloadRing : Type 0 where
  pub buf : Buf
  pub head : ℕ
  pub len : ℕ

unfoldable pub new : PayloadRing
new = record { buf = λ i. 0; head = 0; len = 0 }

unfoldable pub copy_in : Buf → ℕ → List ℕ → Buf
copy_in buf at [] = buf
copy_in buf at (b ∷ bs) = copy_in (λ i. if i == at then b else buf i) (at + 1) bs

unfoldable pub copy_out : Buf → ℕ → ℕ → List ℕ
copy_out buf at zero = []
copy_out buf at (suc k) = buf at ∷ copy_out buf (at + 1) k

module _ (n : ℕ) where
  unfoldable pub room : PayloadRing → ℕ
  room r = n - r.len

  unfoldable pub fits : PayloadRing → ℕ → Bool
  fits r payload_len =
      leb payload_len max_payload && leb (record_overhead + payload_len) (n - r.len)

  unfoldable pub write_at : Buf → ℕ → List ℕ → Buf
  write_at buf at bytes =
      let first = min (length bytes) (n - at) in
      copy_in (copy_in buf at (take first bytes)) 0 (drop first bytes)

  unfoldable pub read_at : Buf → ℕ → ℕ → List ℕ
  read_at buf at k =
      let first = min k (n - at) in copy_out buf at first ++ copy_out buf 0 (k - first)

  unfoldable pub push : PayloadRing → MsgType → List ℕ → PayloadRing × Bool
  push r msg_type payload =
      let at = (r.head + r.len) % n in
      let buf = write_at r.buf at (as_u8 msg_type ∷ length payload ∷ []) in
      if fits r (length payload)
      then (
        record r {
          buf = write_at buf ((at + record_overhead) % n) payload;
          len = r.len + (record_overhead + length payload);
        },
        true,
      )
      else (r, false)

  -- The header that was read has two bytes: the last clause is never met.
  abbrev pub parsed : PayloadRing → List ℕ → PayloadRing × Option (MsgType × ℕ)
  parsed r (t ∷ k ∷ []) = elim (from_u8 t) [
    | none ↦ (record r { head = 0; len = 0 }, none)
    | some msg_type ↦ (r, some (msg_type, k))
  ]
  parsed r _ = (record r { head = 0; len = 0 }, none)

  unfoldable pub peek : PayloadRing → PayloadRing × Option (MsgType × ℕ)
  peek r = if r.len == 0 then (r, none) else parsed r (read_at r.buf r.head record_overhead)

  unfoldable pub skip : PayloadRing → ℕ → PayloadRing
  skip r payload_len =
      let used = min (record_overhead + payload_len) r.len in
      record r { head = if r.len - used == 0 then 0 else (r.head + used) % n; len = r.len - used }

  -- `out_len` is the length of `out`; the bytes copied to it stand with the type.
  abbrev pub popped :
      ℕ → PayloadRing × Option (MsgType × ℕ) → PayloadRing × Option (MsgType × List ℕ)
  popped out_len (r, none) = (r, none)
  popped out_len (r, some (msg_type, k)) =
      (skip r k, some (msg_type, read_at r.buf ((r.head + record_overhead) % n) (min k out_len)))

  unfoldable pub pop : ℕ → PayloadRing → PayloadRing × Option (MsgType × List ℕ)
  pop out_len r = popped out_len (peek r)

  unfoldable pub is_empty : PayloadRing → Bool
  is_empty r = r.len == 0

  -- on fuel: a record takes a byte at least
  unfoldable pub clear : ℕ → PayloadRing → PayloadRing × ℕ
  clear zero r = (r, 0)
  clear (suc fuel) r =
      let (r', first) = peek r in
      elim first [
        | none ↦ (r', 0)
        | some (msg_type, k) ↦ let (r2, count) = clear fuel (skip r' k) in (r2, count + 1)
      ]
