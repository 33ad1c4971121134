-- ===== src/Protocol/Frame.antt =====
-- crates/protocol/src/lib.rs: frames and the byte-fed deframer. The COBS codec is the parameter `cobs`;
-- a payload stands as the bytes that `postcard` made of it. The schema tag is an argument.
pub mod RoundTrip
pub mod Canonical
mod Tests
use tower.Prelude.{
  ℕ, zero, suc, ◌+◌, ◌-◌, ◌*◌, ◌/◌, ◌%◌, ◌≤◌, ◌<◌, ◌≡◌, Bool, true, false, ◌||◌, Option, none, some,
  List, [], ◌∷◌, ◌++◌, length, take, drop, All, ◌==◌, leb, ltb, if◌then◌else◌, le_bytes, from_le,
}
use tower.Protocol.Crc.{crc32_ieee}

abbrev pub max_frame : ℕ
max_frame = 256

abbrev pub max_wire : ℕ
max_wire = 272

abbrev pub hdr : ℕ
hdr = 5

abbrev pub crc_len : ℕ
crc_len = 4

abbrev pub max_payload : ℕ
max_payload = 247

pub data MsgType : Type 0 where
  hello log print event shell_response shell_completions dropped : MsgType
  mgmt_response uplink radio_stat shell_command shell_complete mgmt_request : MsgType

-- `as u8`
unfoldable pub as_u8 : MsgType → ℕ
as_u8 hello = 0
as_u8 log = 1
as_u8 print = 2
as_u8 event = 3
as_u8 shell_response = 4
as_u8 shell_completions = 5
as_u8 dropped = 6
as_u8 mgmt_response = 7
as_u8 uplink = 8
as_u8 radio_stat = 9
as_u8 shell_command = 16
as_u8 shell_complete = 17
as_u8 mgmt_request = 18

unfoldable pub from_u8 : ℕ → Option MsgType
from_u8 v =
    if v == 0
    then some hello
    else if v == 1
    then some log
    else if v == 2
    then some print
    else if v == 3
    then some event
    else if v == 4
    then some shell_response
    else if v == 5
    then some shell_completions
    else if v == 6
    then some dropped
    else if v == 7
    then some mgmt_response
    else if v == 8
    then some uplink
    else if v == 9
    then some radio_stat
    else if v == 16
    then some shell_command
    else if v == 17
    then some shell_complete
    else if v == 18
    then some mgmt_request
    else none

pub data Error : Type 0 where
  encode overflow too_short too_long bad_crc bad_type : Error
  schema_mismatch : ℕ → Error

pub data Result {ℓ} (A : Type ℓ) : Type ℓ where
  ok : A → Result A
  err : Error → Result A

abbrev pub Bytes : List ℕ → Type 0
Bytes l = All (λ b. b < 256) l

-- The COBS crate, and what framing relies on: an encoding has no zero byte, more bytes than what is
-- encoded and no more than the bound that the crate documents, and decodes to what was encoded.
pub record Cobs : Type 0 where
  pub max_encoding_length : ℕ → ℕ
  pub encode : List ℕ → List ℕ
  pub decode : List ℕ → Option (List ℕ)
  pub bound : (n : ℕ) → max_encoding_length n ≤ n + n / 254 + 1
  pub nonzero : (l : List ℕ) → Bytes l → All (λ b. 1 ≤ b) (encode l)
  pub longer : (l : List ℕ) → length l < length (encode l)
  pub short : (l : List ℕ) → length (encode l) ≤ max_encoding_length (length l)
  pub round_trip : (l : List ℕ) → Bytes l → decode (encode l) ≡ some l

unfoldable pub header : ℕ → MsgType → ℕ → List ℕ
header tag msg_type seq =
    as_u8 msg_type ∷ (tag % 256) ∷ (tag / 256 % 256) ∷ (seq % 256) ∷ (seq / 256 % 256) ∷ []

-- the body with its CRC
unfoldable pub sealed : List ℕ → List ℕ
sealed body = body ++ le_bytes (crc32_ieee body)

-- A frame's body and the stored CRC, taken apart.
unfoldable pub checked : ℕ → List ℕ → List ℕ → Result (MsgType × ℕ × List ℕ)
checked tag (t ∷ a ∷ b ∷ c ∷ d ∷ payload) (w ∷ x ∷ y ∷ z ∷ []) =
    if crc32_ieee (t ∷ a ∷ b ∷ c ∷ d ∷ payload) == from_le w x y z
    then if a + 256 * b == tag
      then elim (from_u8 t) [
        | none ↦ err bad_type
        | some msg_type ↦ ok (msg_type, c + 256 * d, payload)
      ]
      else err (schema_mismatch (a + 256 * b))
    else err bad_crc
checked tag _ _ = err too_short

unfoldable pub decode_frame : ℕ → List ℕ → Result (MsgType × ℕ × List ℕ)
decode_frame tag inner =
    if ltb (length inner) (hdr + crc_len)
    then err too_short
    else if ltb max_frame (length inner)
    then err too_long
    else checked tag (take (length inner - crc_len) inner) (drop (length inner - crc_len) inner)

-- `len` is the length of `buf`.
pub record FrameDecoder : Type 0 where
  pub buf : List ℕ
  pub overflowed : Bool

unfoldable pub new : FrameDecoder
new = record { buf = []; overflowed = false }

unfoldable pub reset : FrameDecoder → FrameDecoder
reset d = new

module _ (cobs : Cobs) where
  unfoldable pub seal : ℕ → List ℕ → Result (List ℕ)
  seal room body =
      if ltb room (cobs.max_encoding_length (length (sealed body)) + 1)
      then err overflow
      else ok (cobs.encode (sealed body) ++ (0 ∷ []))

  unfoldable pub encode_frame_bytes : ℕ → ℕ → MsgType → ℕ → List ℕ → Result (List ℕ)
  encode_frame_bytes room tag msg_type seq payload =
      if ltb max_payload (length payload)
      then err encode
      else seal room (header tag msg_type seq ++ payload)

  unfoldable pub push : FrameDecoder → ℕ → FrameDecoder × Option (List ℕ)
  push d b =
      if b == 0
      then (new, if length d.buf == 0 || d.overflowed then none else cobs.decode d.buf)
      else if ltb (length d.buf) max_wire
      then (record d { buf = d.buf ++ (b ∷ []) }, none)
      else (record d { overflowed = true }, none)

  -- What comes of a stream of bytes: the decoder, and the frames in order.
  unfoldable pub feed : FrameDecoder → List ℕ → FrameDecoder × List (List ℕ)
  feed d [] = (d, [])
  feed d (b ∷ bs) =
      let (d1, out) = push d b in
      let (d', rest) = feed d1 bs in (d', elim out [ none ↦ rest | some inner ↦ inner ∷ rest ])
