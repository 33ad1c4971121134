-- ===== src/Protocol/Frame/Tests.antt =====
-- A log frame on the wire, under a codec that shifts every byte.
use tower.Prelude.{
  ℕ, suc, ◌+◌, ◌-◌, ◌/◌, ◌≤◌, ◌<◌, ◌≡◌, refl, ap, ap₂, Option, none, some, List, [], ◌∷◌, ◌++◌,
  length, All, arith,
}
use tower.Protocol.Frame.{
  Cobs, Bytes, log, ok, decode_frame, new, feed, encode_frame_bytes, seal, sealed, header, as_u8,
  from_u8, checked, max_payload,
}
use tower.Protocol.Frame.RoundTrip.{encode_frame_bytes-decode}
use tower.Protocol.Frame.Canonical.{decode_frame-canonical}
use tower.Protocol.Crc.{crc32_ieee, crc32_update, crc_rounds}

abbrev shift : List ℕ → List ℕ
shift [] = []
shift (b ∷ l) = suc b ∷ shift l

abbrev back : List ℕ → List ℕ
back [] = []
back (b ∷ l) = (b - 1) ∷ back l

abbrev unshift : List ℕ → Option (List ℕ)
unshift [] = none
unshift (b ∷ l) = some (back l)

back-shift : (l : List ℕ) → back (shift l) ≡ l
back-shift [] = refl
back-shift (b ∷ l) = ap₂ (λ x y. x ∷ y) (omega arith) (back-shift l)

shift-nonzero : (l : List ℕ) → All (λ b. 1 ≤ b) (shift l)
shift-nonzero [] = tt
shift-nonzero (b ∷ l) = (omega arith, shift-nonzero l)

length-shift : (l : List ℕ) → length (shift l) ≡ length l
length-shift [] = refl
length-shift (b ∷ l) = ap suc (length-shift l)

shift-longer : (l : List ℕ) → length l < suc (length (shift l))
shift-longer l = omega (arith, length-shift l)

shift-short : (l : List ℕ) → suc (length (shift l)) ≤ length l + length l / 254 + 1
shift-short l = omega (arith, length-shift l)

le_same : (n : ℕ) → n ≤ n
le_same n = omega arith

one_nonzero : 1 ≤ 1
one_nonzero = omega arith

abbrev cobs : Cobs
cobs = record {
  max_encoding_length = λ n. n + n / 254 + 1;
  encode = λ l. 1 ∷ shift l;
  decode = unshift;
  bound = λ n. le_same (n + n / 254 + 1);
  nonzero = λ l h. (one_nonzero, shift-nonzero l);
  longer = shift-longer;
  short = shift-short;
  round_trip = λ l h. ap some (back-shift l);
}

abbrev wire : List ℕ
wire = cobs.encode (sealed (header 0x1234 log 7 ++ (104 ∷ 105 ∷ []))) ++ (0 ∷ [])

wire_lem : encode_frame_bytes cobs 272 0x1234 log 7 (104 ∷ 105 ∷ []) ≡ ok wire
unfolding encode_frame_bytes seal sealed header as_u8
wire_lem = refl

encode_frame_bytes-decode_example :
    (inner : List ℕ) × (feed cobs new (wire ++ (3 ∷ []))
      ≡ ((feed cobs new (3 ∷ [])).0, inner ∷ (feed cobs new (3 ∷ [])).1))
    × (decode_frame 0x1234 inner ≡ ok (log, 7, 104 ∷ 105 ∷ []))
encode_frame_bytes-decode_example =
    encode_frame_bytes-decode cobs 272 0x1234 7 log (104 ∷ 105 ∷ []) wire (3 ∷ []) (omega arith)
      (omega arith) (omega arith, (omega arith, tt)) wire_lem

abbrev hi : List ℕ
hi = 104 ∷ 105 ∷ []

abbrev inner : List ℕ
inner = sealed (header 0x1234 log 7 ++ (104 ∷ 105 ∷ []))

inner_accepted : decode_frame 0x1234 inner ≡ ok (log, 7, 104 ∷ 105 ∷ [])
unfolding decode_frame sealed header as_u8 checked from_u8 crc32_ieee crc32_update crc_rounds
inner_accepted = refl

inner-Bytes : Bytes inner
unfolding sealed header as_u8 crc32_ieee crc32_update crc_rounds
inner-Bytes = (
  omega arith,
  (
    omega arith,
    (
      omega arith,
      (
        omega arith,
        (
          omega arith,
          (
            omega arith,
            (omega arith, (omega arith, (omega arith, (omega arith, (omega arith, tt))))),
          ),
        ),
      ),
    ),
  ),
)

decode_frame-canonical_example :
    (inner ≡ sealed (header 0x1234 log 7 ++ (104 ∷ 105 ∷ []))) × (length hi ≤ max_payload)
decode_frame-canonical_example =
    decode_frame-canonical 0x1234 7 log (104 ∷ 105 ∷ []) inner inner-Bytes inner_accepted
