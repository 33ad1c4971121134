-- ===== src/Protocol/Frame/RoundTrip.antt =====
-- What the deframer makes of the bytes of a frame, and the decoder of what it delivers.
use tower.Prelude.{
  ℕ, ◌+◌, ◌-◌, ◌≤◌, ◌<◌, ◌≡◌, refl, sym, ap, ◌∙◌, false, Option, none, some, List, [], ◌∷◌, ◌++◌,
  length, length-append, take, take-append, drop, drop-append, All, ltb, Bool-cases, inl, inr,
  le_bytes, from_le-le_bytes, arith,
}
use tower.Protocol.Crc.{crc32_ieee, crc32_ieee-le}
use tower.Protocol.Frame.{
  Cobs, Bytes, MsgType, hello, log, print, event, shell_response, shell_completions, dropped,
  mgmt_response, uplink, radio_stat, shell_command, shell_complete, mgmt_request, as_u8, from_u8,
  ok, header, sealed, checked, decode_frame, FrameDecoder, new, push, feed, seal,
  encode_frame_bytes, hdr, crc_len, max_frame, max_wire, max_payload,
}

pub from_u8-as_u8 : (t : MsgType) → from_u8 (as_u8 t) ≡ some t
unfolding from_u8 as_u8
from_u8-as_u8 hello = refl
from_u8-as_u8 log = refl
from_u8-as_u8 print = refl
from_u8-as_u8 event = refl
from_u8-as_u8 shell_response = refl
from_u8-as_u8 shell_completions = refl
from_u8-as_u8 dropped = refl
from_u8-as_u8 mgmt_response = refl
from_u8-as_u8 uplink = refl
from_u8-as_u8 radio_stat = refl
from_u8-as_u8 shell_command = refl
from_u8-as_u8 shell_complete = refl
from_u8-as_u8 mgmt_request = refl

as_u8-lt : (t : MsgType) → as_u8 t < 256
unfolding as_u8
as_u8-lt t = grind arith

-- The header and the CRC come back from a sealed body.
checked-header :
    (tag seq : ℕ) (t : MsgType) (payload : List ℕ)
    → tag < 65536
    → seq < 65536
    → checked tag
        (header tag t seq ++ payload)
        (le_bytes (crc32_ieee (header tag t seq ++ payload)))
      ≡ ok (t, seq, payload)
unfolding checked header
checked-header tag seq t payload small_tag small_seq = ground (
  arith,
  from_u8-as_u8 t,
  from_le-le_bytes (crc32_ieee (header tag t seq ++ payload)) (crc32_ieee-le _),
)

decode_frame-body :
    (tag : ℕ) (body : List ℕ)
    → hdr ≤ length body
    → length body + crc_len ≤ max_frame
    → decode_frame tag (sealed body) ≡ checked tag body (le_bytes (crc32_ieee body))
unfolding decode_frame sealed
decode_frame-body tag body long short =
    let crc = le_bytes (crc32_ieee body) in
    let size : length (body ++ crc) ≡ length body + 4 = length-append body crc in
    let cut : length (body ++ crc) - crc_len ≡ length body = omega arith in
    let front : take (length (body ++ crc) - crc_len) (body ++ crc) ≡ body =
      ap (λ k. take k (body ++ crc)) cut ∙ take-append body crc in
    let back : drop (length (body ++ crc) - crc_len) (body ++ crc) ≡ crc =
      ap (λ k. drop k (body ++ crc)) cut ∙ drop-append body crc in
    elim (Bool-cases (ltb (length (body ++ crc)) (hdr + crc_len))) [
      | inl tiny ↦ absurd (ground (arith, size))
      | inr t ↦ elim (Bool-cases (ltb max_frame (length (body ++ crc)))) [
        | inl huge ↦ absurd (ground (arith, size))
        | inr h ↦ rw (t, h, front, back) refl
      ]
    ]

decode_frame-sealed :
    (tag seq : ℕ) (t : MsgType) (payload : List ℕ)
    → tag < 65536
    → seq < 65536
    → length payload ≤ max_payload
    → decode_frame tag (sealed (header tag t seq ++ payload)) ≡ ok (t, seq, payload)
unfolding header
decode_frame-sealed tag seq t payload small_tag small_seq fits =
    decode_frame-body tag (header tag t seq ++ payload) (omega arith) (omega arith)
    ∙ checked-header tag seq t payload small_tag small_seq

append_nil : (l : List ℕ) → l ++ [] ≡ l
append_nil [] = refl
append_nil (x ∷ l) = ap (◌∷◌ x) (append_nil l)

append_one : (k : List ℕ) (b : ℕ) (l : List ℕ) → (k ++ (b ∷ [])) ++ l ≡ k ++ (b ∷ l)
append_one [] b l = refl
append_one (x ∷ k) b l = ap (◌∷◌ x) (append_one k b l)

Bytes-append : (k l : List ℕ) → Bytes k → Bytes l → Bytes (k ++ l)
Bytes-append [] l hk hl = hl
Bytes-append (x ∷ k) l hk hl = (hk.0, Bytes-append k l hk.1 hl)

le_bytes-Bytes : (n : ℕ) → Bytes (le_bytes n)
le_bytes-Bytes n = (omega arith, (omega arith, (omega arith, (omega arith, tt))))

header-Bytes : (tag seq : ℕ) (t : MsgType) → Bytes (header tag t seq)
unfolding header
header-Bytes tag seq t =
    (as_u8-lt t, (omega arith, (omega arith, (omega arith, (omega arith, tt)))))

sealed-Bytes : (body : List ℕ) → Bytes body → Bytes (sealed body)
unfolding sealed
sealed-Bytes body h = Bytes-append body (le_bytes (crc32_ieee body)) h (le_bytes-Bytes _)

pub length-sealed : (body : List ℕ) → length (sealed body) ≡ length body + 4
unfolding sealed
length-sealed body = length-append body (le_bytes (crc32_ieee body))

pub length-header :
    (tag seq : ℕ) (t : MsgType) (l : List ℕ) → length (header tag t seq ++ l) ≡ length l + 5
unfolding header
length-header tag seq t l = omega arith

module _ (cobs : Cobs) where
  encode_frame_bytes-ok :
      (room tag seq : ℕ) (t : MsgType) (payload wire : List ℕ)
      → encode_frame_bytes cobs room tag t seq payload ≡ ok wire
      → (length payload ≤ max_payload)
        × (cobs.encode (sealed (header tag t seq ++ payload)) ++ (0 ∷ []) ≡ wire)
  unfolding encode_frame_bytes seal
  encode_frame_bytes-ok room tag seq t payload wire e = ground arith

  push_nonzero :
      (d : FrameDecoder) (b : ℕ)
      → 1 ≤ b
      → length d.buf < max_wire
      → push cobs d b ≡ (record d { buf = d.buf ++ (b ∷ []) }, none)
  unfolding push
  push_nonzero d b nz room = ground arith

  abbrev delivered : List ℕ → FrameDecoder × Option (List ℕ) → FrameDecoder × List (List ℕ)
  delivered bs (d, none) = feed cobs d bs
  delivered bs (d, some inner) = ((feed cobs d bs).0, inner ∷ (feed cobs d bs).1)

  delivered_lem :
      (bs : List ℕ) (q : FrameDecoder × Option (List ℕ))
      → (
        (feed cobs q.0 bs).0,
        elim q.1 as (λ o. List (List ℕ)) [
          | none ↦ (feed cobs q.0 bs).1
          | some inner ↦ inner ∷ (feed cobs q.0 bs).1
        ],
      )
        ≡ delivered bs q
  delivered_lem bs (d, none) = refl
  delivered_lem bs (d, some inner) = refl

  feed_step :
      (d : FrameDecoder) (b : ℕ) (bs : List ℕ) → feed cobs d (b ∷ bs) ≡ delivered bs (push cobs d b)
  unfolding feed
  feed_step d b bs = delivered_lem bs (push cobs d b)

  feed-none :
      (d d1 : FrameDecoder) (b : ℕ) (bs : List ℕ)
      → push cobs d b ≡ (d1, none)
      → feed cobs d (b ∷ bs) ≡ feed cobs d1 bs
  feed-none d d1 b bs e = feed_step d b bs ∙ ap (delivered bs) e

  -- Nonzero bytes that fit are kept.
  feed_nonzero :
      (l : List ℕ) (d : FrameDecoder) (rest : List ℕ)
      → All (λ b. 1 ≤ b) l
      → length d.buf + length l ≤ max_wire
      → feed cobs d (l ++ rest) ≡ feed cobs (record d { buf = d.buf ++ l }) rest
  feed_nonzero [] d rest nz fits =
      ap (λ x. feed cobs (record d { buf = x }) rest) (sym (append_nil d.buf))
  feed_nonzero (b ∷ l) d rest nz fits =
      feed-none d (record d { buf = d.buf ++ (b ∷ []) }) b (l ++ rest)
        (push_nonzero d b nz.0 (omega arith))
      ∙ feed_nonzero l (record d { buf = d.buf ++ (b ∷ []) }) rest nz.1
          (omega (arith, length-append d.buf (b ∷ [])))
      ∙ ap (λ x. feed cobs (record d { buf = x }) rest) (append_one d.buf b l)

  -- A zero byte after the encoding of something delivers it.
  feed_end :
      (l inner rest : List ℕ)
      → 1 ≤ length l
      → cobs.decode l ≡ some inner
      → feed cobs (record { buf = l; overflowed = false }) (0 ∷ rest)
        ≡ ((feed cobs new rest).0, inner ∷ (feed cobs new rest).1)
  unfolding push
  feed_end l inner rest some_bytes e =
      let last : push cobs (record { buf = l; overflowed = false }) 0 ≡ (new, some inner) =
        ground arith in
      feed_step (record { buf = l; overflowed = false }) 0 rest ∙ ap (delivered rest) last

  feed-new :
      (l inner rest : List ℕ)
      → 1 ≤ length l
      → cobs.decode l ≡ some inner
      → feed cobs (record new { buf = new.buf ++ l }) (0 ∷ rest)
        ≡ ((feed cobs new rest).0, inner ∷ (feed cobs new rest).1)
  unfolding new
  feed-new l inner rest some_bytes e = feed_end l inner rest some_bytes e

  -- Whatever came before, a zero byte leaves the deframer at a frame boundary.
  pub push_zero : (d : FrameDecoder) → (push cobs d 0).0 ≡ new
  unfolding push
  push_zero d = refl

  -- The bytes of a frame that the encoder accepts, fed to a deframer at a frame boundary, deliver one
  -- frame, at its last byte, which leaves the deframer at a boundary again; and that frame decodes to
  -- the type, the sequence number and the payload that were encoded.
  pub encode_frame_bytes-decode :
      (room tag seq : ℕ) (t : MsgType) (payload wire rest : List ℕ)
      → tag < 65536
      → seq < 65536
      → Bytes payload
      → encode_frame_bytes cobs room tag t seq payload ≡ ok wire
      → (inner : List ℕ) × (feed cobs new (wire ++ rest)
          ≡ ((feed cobs new rest).0, inner ∷ (feed cobs new rest).1))
        × (decode_frame tag inner ≡ ok (t, seq, payload))
  encode_frame_bytes-decode room tag seq t payload wire rest small_tag small_seq bytes e =
      let body = header tag t seq ++ payload in
      let (fits, made) = encode_frame_bytes-ok room tag seq t payload wire e in
      let encoded = cobs.encode (sealed body) in
      let proper =
        sealed-Bytes body
          (Bytes-append (header tag t seq) payload (header-Bytes tag seq t) bytes) in
      let size = cobs.short (sealed body) in
      let most = cobs.bound (length (sealed body)) in
      let least = cobs.longer (sealed body) in
      let room_for : length new.buf + length encoded ≤ max_wire =
        unfold new in
        omega (arith, size, most, length-sealed body, length-header tag seq t payload) in
      (
        sealed body,
        ap (λ w. feed cobs new (w ++ rest)) (sym made)
            ∙ ap (feed cobs new) (append_one encoded 0 rest)
            ∙ feed_nonzero encoded new (0 ∷ rest) (cobs.nonzero (sealed body) proper) room_for
            ∙ feed-new encoded (sealed body) rest (omega (arith, least))
                (cobs.round_trip (sealed body) proper),
        decode_frame-sealed tag seq t payload small_tag small_seq fits,
      )
