-- ===== src/Radio/Ccm/Unambiguous.antt =====
-- No two frames have the same formatted message.
use tower.Prelude.{
  ℕ, ◌<◌, ◌≡◌, refl, sym, ap, ◌∙◌, List, [], ◌∷◌, ◌++◌, length, drop, take, replicate,
  length-append, length-replicate, arith,
}
use tower.Radio.Ccm.{first_block, prefixed}
use tower.Radio.Ccm.Bytewise.{nth}
use tower.Radio.Ccm.Inputs.{append-injective, be_u16-injective}
use tower.Radio.Ccm.Formatted.{missing, padded, aad_part, formatted, first_block-length}

padded-injective : (l l' : List ℕ) → length l ≡ length l' → padded l ≡ padded l' → l ≡ l'
padded-injective l l' len e = (append-injective l _ l' _ len e).0

length-padded : (l l' : List ℕ) → length l ≡ length l' → length (padded l) ≡ length (padded l')
length-padded l l' len =
    let size = length-append l (replicate (missing l) 0) in
    let size' = length-append l' (replicate (missing l') 0) in
    let zeros = length-replicate {A = ℕ} (missing l) 0 in
    let zeros' = length-replicate {A = ℕ} (missing l') 0 in
    omega (arith, len, size, size', zeros, zeros')

-- Equal first blocks have equal nonces and lengths, and associated data in both or in neither.
first_block-fields :
    (nonce nonce' aad aad' message message' : List ℕ)
    → length nonce ≡ length nonce'
    → length message < 65536
    → length message' < 65536
    → first_block nonce aad message ≡ first_block nonce' aad' message'
    → (nonce ≡ nonce') × (length message ≡ length message')
unfolding first_block
first_block-fields nonce nonce' aad aad' message message' len m m' e =
    let (same, lengths) = append-injective nonce _ nonce' _ len (ap (drop 1) e) in
    (same, be_u16-injective (length message) (length message') m m' lengths)

parts-injective :
    (nonce nonce' aad aad' message message' : List ℕ)
    → length message ≡ length message'
    → length aad < 65536
    → length aad' < 65536
    → first_block nonce aad message ≡ first_block nonce' aad' message'
    → aad_part aad ++ padded message ≡ aad_part aad' ++ padded message'
    → (aad ≡ aad') × (message ≡ message')
unfolding first_block
parts-injective nonce nonce' [] [] message message' len a a' e rest =
    (refl, padded-injective message message' len rest)
parts-injective nonce nonce' [] (c ∷ aad') message message' len a a' e rest =
    absurd (omega (arith, ap (λ l. nth l 0) e))
parts-injective nonce nonce' (b ∷ aad) [] message message' len a a' e rest =
    absurd (omega (arith, ap (λ l. nth l 0) e))
parts-injective nonce nonce' (b ∷ aad) (c ∷ aad') message message' len a a' e rest =
    let lengths = be_u16-injective (length (b ∷ aad)) (length (c ∷ aad')) a a' (ap (take 2) rest) in
    let sizes : length (prefixed (b ∷ aad)) ≡ length (prefixed (c ∷ aad')) =
      omega (arith, lengths) in
    let (front, back) =
      append-injective (padded (prefixed (b ∷ aad))) (padded message) (padded (prefixed (c ∷ aad')))
        (padded message') (length-padded (prefixed (b ∷ aad)) (prefixed (c ∷ aad')) sizes) rest in
    (
      ap (drop 2) (padded-injective (prefixed (b ∷ aad)) (prefixed (c ∷ aad')) sizes front),
      padded-injective message message' len back,
    )

-- Two frames with nonces of 13 bytes and lengths of 16 bits that give the same formatted message have
-- the same nonce, the same associated data and the same message.
pub formatted-injective :
    (nonce nonce' aad aad' message message' : List ℕ)
    → length nonce ≡ 13
    → length nonce' ≡ 13
    → length aad < 65536
    → length aad' < 65536
    → length message < 65536
    → length message' < 65536
    → formatted nonce aad message ≡ formatted nonce' aad' message'
    → (nonce ≡ nonce') × (aad ≡ aad') × (message ≡ message')
formatted-injective nonce nonce' aad aad' message message' n n' a a' m m' e =
    let (first, rest) =
      append-injective (first_block nonce aad message) _ (first_block nonce' aad' message') _
        (first_block-length nonce aad message n ∙ sym (first_block-length nonce' aad' message' n'))
        e in
    let (same, len) =
      first_block-fields nonce nonce' aad aad' message message' (n ∙ sym n') m m' first in
    let (aads, messages) =
      parts-injective nonce nonce' aad aad' message message' len a a' first rest in
    (same, aads, messages)
