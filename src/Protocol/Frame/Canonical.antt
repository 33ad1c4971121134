-- ===== src/Protocol/Frame/Canonical.antt =====
-- The deframed bytes that the decoder accepts are exactly those that the encoder makes.
use tower.Prelude.{
  ℕ, zero, suc, ◌+◌, ◌-◌, ◌*◌, ◌≤◌, from_le, ◌≡◌, refl, sym, ap, ap₂, ◌∙◌, List, [], ◌∷◌, ◌++◌,
  length, take, drop, ltb, Bool-cases, some, Option-cases, inl, inr, le_bytes, arith,
}
use tower.Protocol.Crc.{crc32_ieee}
use tower.Protocol.Frame.{
  Bytes, MsgType, as_u8, from_u8, ok, header, sealed, checked, decode_frame, hdr, crc_len,
  max_frame, max_payload,
}
use tower.Protocol.Frame.RoundTrip.{length-sealed, length-header}

from_u8-some : (v : ℕ) (t : MsgType) → from_u8 v ≡ some t → as_u8 t ≡ v
unfolding from_u8 as_u8
from_u8-some v t e = ground arith

-- What `checked` has compared when it accepts.
abbrev Compared : ℕ → ℕ → MsgType → List ℕ → List ℕ → List ℕ → Type 0
Compared tag seq t payload (m ∷ a ∷ b ∷ c ∷ d ∷ l) (w ∷ x ∷ y ∷ z ∷ []) =
    (m ≡ as_u8 t)
    × (a + 256 * b ≡ tag)
    × (c + 256 * d ≡ seq)
    × (l ≡ payload)
    × (crc32_ieee (m ∷ a ∷ b ∷ c ∷ d ∷ l) ≡ from_le w x y z)
Compared tag seq t payload _ _ = ⊥

checked-Compared :
    (tag seq : ℕ) (t : MsgType) (payload body crc : List ℕ)
    → checked tag body crc ≡ ok (t, seq, payload)
    → Compared tag seq t payload body crc
unfolding checked
checked-Compared tag seq t payload (m ∷ a ∷ b ∷ c ∷ d ∷ l) (w ∷ x ∷ y ∷ z ∷ []) e =
    elim (Option-cases (from_u8 m)) [
      | inl n ↦ absurd (ground arith)
      | inr (t', h) ↦
          let same : t' ≡ t = ground arith in
          let code : m ≡ as_u8 t = sym (from_u8-some m t (h ∙ ap some same)) in ground (arith, code)
    ]
checked-Compared tag seq t payload _ _ e = absurd (cc)

take-drop : (n : ℕ) (l : List ℕ) → take n l ++ drop n l ≡ l
take-drop zero l = refl
take-drop (suc n) [] = refl
take-drop (suc n) (x ∷ l) = ap (◌∷◌ x) (take-drop n l)

take-Bytes : (n : ℕ) (l : List ℕ) → Bytes l → Bytes (take n l)
take-Bytes zero l h = tt
take-Bytes (suc n) [] h = tt
take-Bytes (suc n) (x ∷ l) h = (h.0, take-Bytes n l h.1)

drop-Bytes : (n : ℕ) (l : List ℕ) → Bytes l → Bytes (drop n l)
drop-Bytes zero l h = h
drop-Bytes (suc n) [] h = tt
drop-Bytes (suc n) (x ∷ l) h = drop-Bytes n l h.1

-- Lists that start with equal elements.
cons_four :
    {a a' b b' c c' d d' : ℕ} {l l' : List ℕ}
    → a ≡ a'
    → b ≡ b'
    → c ≡ c'
    → d ≡ d'
    → l ≡ l'
    → (a ∷ b ∷ c ∷ d ∷ l) ≡ (a' ∷ b' ∷ c' ∷ d' ∷ l')
cons_four p q r s t = cc

Compared-canonical :
    (tag seq : ℕ) (t : MsgType) (payload body crc : List ℕ)
    → Bytes body
    → Bytes crc
    → Compared tag seq t payload body crc
    → (body ≡ header tag t seq ++ payload) × (crc ≡ le_bytes (crc32_ieee body))
unfolding header
Compared-canonical tag seq t payload (m ∷ a ∷ b ∷ c ∷ d ∷ l) (w ∷ x ∷ y ∷ z ∷ []) hb hc h =
    let (code, tags, seqs, same, sum) = h in
    let (hm, (ha, (hb2, (hc2, (hd, hl))))) = hb in
    let (hw, (hx, (hy, (hz, done)))) = hc in
    (
      cons_four code (omega arith) (omega arith) (omega arith)
          (ap₂ (λ x y. x ∷ y) (omega arith) same),
      cons_four (omega arith) (omega arith) (omega arith) (omega arith) refl,
    )
Compared-canonical tag seq t payload _ _ hb hc h = absurd h

-- Bytes that the decoder accepts are the very bytes that the encoder seals for the type, the number and
-- the payload that it gives back, under its own schema tag and with the right CRC; the payload fits.
pub decode_frame-canonical :
    (tag seq : ℕ) (t : MsgType) (payload inner : List ℕ)
    → Bytes inner
    → decode_frame tag inner ≡ ok (t, seq, payload)
    → (inner ≡ sealed (header tag t seq ++ payload)) × (length payload ≤ max_payload)
unfolding decode_frame sealed
decode_frame-canonical tag seq t payload inner h e =
    let cut = length inner - crc_len in
    elim (Bool-cases (ltb (length inner) (hdr + crc_len))) [
      | inl tiny ↦ absurd (ground arith)
      | inr t1 ↦ elim (Bool-cases (ltb max_frame (length inner))) [
        | inl huge ↦ absurd (ground arith)
        | inr t2 ↦
            let met : checked tag (take cut inner) (drop cut inner) ≡ ok (t, seq, payload) =
              ground arith in
            let (body, crc) =
              Compared-canonical tag seq t payload (take cut inner) (drop cut inner)
                (take-Bytes cut inner h) (drop-Bytes cut inner h)
                (checked-Compared tag seq t payload (take cut inner) (drop cut inner) met) in
            let whole : inner ≡ sealed (header tag t seq ++ payload) =
              sym (take-drop cut inner)
              ∙ ap₂ (λ b c. b ++ c) body (crc ∙ ap (λ b. le_bytes (crc32_ieee b)) body) in
            let size : length inner ≡ length (sealed (header tag t seq ++ payload)) =
              ap length whole in
            let fits : length inner ≤ max_frame = ground arith in
            (
              whole,
              omega (
                arith,
                size,
                fits,
                length-sealed (header tag t seq ++ payload),
                length-header tag seq t payload,
              ),
            )
      ]
    ]
