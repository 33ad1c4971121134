-- ===== src/Radio/Ccm/Formatted.antt =====
-- The tag chain as the standard has it: over one message of whole blocks, in which the nonce, the
-- lengths, the associated data and the payload stand, each part padded with zeros.
use Prim.Native.Nat.{bit_xor}
use mathlib.Core.List.{append_assoc}
use tower.Prelude.{
  ℕ, zero, suc, ◌-◌, ◌*◌, ◌/◌, ◌%◌, ◌≤◌, ◌<◌, ◌≡◌, inl, inr, refl, sym, ap, ap₂, ◌∙◌, false, none,
  some, List, [], ◌∷◌, ◌++◌, length, take, drop, replicate, take-append, drop-append, length-append,
  length-take, length-drop, take-append_drop, leb, leb→le, Bool-cases, length-replicate, ltb,
  if◌then◌else◌, arith, xor_zero,
}
use tower.Radio.Ccm.{
  AesBlock, be_u16, xor_into, chunks_by, chunks, first_block, prefixed, zero_block, mac_chunks,
  mac_stream, cbc_mac, max_aad, block_xor,
}

abbrev pub missing : List ℕ → ℕ
missing l = (16 - length l % 16) % 16

abbrev pub padded : List ℕ → List ℕ
padded l = l ++ replicate (missing l) 0

abbrev pub aad_part : List ℕ → List ℕ
aad_part [] = []
aad_part (b ∷ aad) = padded (prefixed (b ∷ aad))

abbrev pub formatted : List ℕ → List ℕ → List ℕ → List ℕ
formatted nonce aad message = first_block nonce aad message ++ (aad_part aad ++ padded message)

chunks_by-fuel :
    (n m : ℕ) (l : List ℕ) → length l ≤ n → length l ≤ m → chunks_by n l ≡ chunks_by m l
unfolding chunks_by
chunks_by-fuel zero zero l p q = refl
chunks_by-fuel zero (suc m) [] p q = refl
chunks_by-fuel zero (suc m) (b ∷ l) p q = absurd (omega arith)
chunks_by-fuel (suc n) zero [] p q = refl
chunks_by-fuel (suc n) zero (b ∷ l) p q = absurd (omega arith)
chunks_by-fuel (suc n) (suc m) [] p q = refl
chunks_by-fuel (suc n) (suc m) (b ∷ l) p q =
    let small = length-drop 15 l in
    ap (◌∷◌ (b ∷ take 15 l)) (chunks_by-fuel n m (drop 15 l) (omega arith) (omega arith))

chunks-block :
    (block rest : List ℕ) → length block ≡ 16 → chunks (block ++ rest) ≡ block ∷ chunks rest
unfolding chunks_by
chunks-block [] rest p = absurd (omega arith)
chunks-block (b ∷ l) rest p =
    let e : length l ≡ 15 = omega arith in
    let front : take 15 (l ++ rest) ≡ l =
      ap (λ n. take n (l ++ rest)) (sym e) ∙ take-append l rest in
    let back : drop 15 (l ++ rest) ≡ rest =
      ap (λ n. drop n (l ++ rest)) (sym e) ∙ drop-append l rest in
    ap₂ (◌∷◌) (ap (◌∷◌ b) front) (
      ap (chunks_by (length (l ++ rest))) back
      ∙ chunks_by-fuel _ _ rest (omega (arith, length-append l rest)) (omega arith))

take-all : (n : ℕ) (l : List ℕ) → length l ≤ n → (take n l ≡ l) × (drop n l ≡ [])
take-all zero [] p = (refl, refl)
take-all zero (b ∷ l) p = absurd (omega arith)
take-all (suc n) [] p = (refl, refl)
take-all (suc n) (b ∷ l) p =
    let (front, back) = take-all n l (omega arith) in (ap (◌∷◌ b) front, back)

chunks_by-[] : (n : ℕ) → chunks_by n [] ≡ []
unfolding chunks_by
chunks_by-[] zero = refl
chunks_by-[] (suc n) = refl

chunks-short : (l : List ℕ) → 0 < length l → length l ≤ 16 → chunks l ≡ l ∷ []
unfolding chunks_by
chunks-short [] p q = absurd (omega arith)
chunks-short (b ∷ l) p q =
    let (front, back) = take-all 15 l (omega arith) in
    ap₂ (◌∷◌) (ap (◌∷◌ b) front) (ap (chunks_by (length l)) back ∙ chunks_by-[] (length l))

xor_into-[] : (x : List ℕ) → xor_into x [] ≡ x
unfolding xor_into
xor_into-[] [] = refl
xor_into-[] (b ∷ x) = refl

xor_into-zeros : (x l : List ℕ) (n : ℕ) → xor_into x (l ++ replicate n 0) ≡ xor_into x l
unfolding xor_into
xor_into-zeros [] l n = refl
xor_into-zeros (b ∷ x) [] zero = refl
xor_into-zeros (b ∷ x) [] (suc n) = ap₂ (◌∷◌) (xor_zero b) (xor_into-zeros x [] n ∙ xor_into-[] x)
xor_into-zeros (b ∷ x) (k ∷ l) n = ap (◌∷◌ (bit_xor b k)) (xor_into-zeros x l n)

pub first_block-length :
    (nonce aad message : List ℕ) → length nonce ≡ 13 → length (first_block nonce aad message) ≡ 16
unfolding first_block
first_block-length nonce aad message len =
    omega (arith, length-append nonce (be_u16 (length message)), len)

module _ (aes : AesBlock) (key : List ℕ) where
  mac_stream-block :
      (x block rest : List ℕ)
      → length block ≡ 16
      → mac_stream aes key x (block ++ rest)
        ≡ mac_stream aes key (aes.encrypt_block key (xor_into x block)) rest
  unfolding mac_chunks
  mac_stream-block x block rest p = ap (mac_chunks aes key x) (chunks-block block rest p)

  -- Whole blocks first, then the rest.
  mac_stream-append :
      (n : ℕ) (x a b : List ℕ)
      → length a ≡ 16 * n
      → mac_stream aes key x (a ++ b) ≡ mac_stream aes key (mac_stream aes key x a) b
  unfolding mac_chunks chunks_by
  mac_stream-append zero x [] b p = refl
  mac_stream-append zero x (y ∷ a) b p = absurd (omega arith)
  mac_stream-append (suc n) x a b p =
      let size : length (take 16 a) ≡ 16 = omega (arith, length-take 16 a) in
      let x' = aes.encrypt_block key (xor_into x (take 16 a)) in
      let whole = take-append_drop 16 a in
      ap (λ l. mac_stream aes key x (l ++ b)) (sym whole)
      ∙ ap (mac_stream aes key x) (append_assoc (take 16 a) (drop 16 a) b)
      ∙ mac_stream-block x (take 16 a) (drop 16 a ++ b) size
      ∙ mac_stream-append n x' (drop 16 a) b (omega (arith, length-drop 16 a))
      ∙ ap (λ y. mac_stream aes key y b)
          (sym (mac_stream-block x (take 16 a) (drop 16 a) size) ∙ ap (mac_stream aes key x) whole)

  mac_stream-padded :
      (n : ℕ) (x l : List ℕ)
      → length l ≤ 16 * n
      → mac_stream aes key x (padded l) ≡ mac_stream aes key x l
  unfolding mac_chunks
  mac_stream-padded zero x [] p = refl
  mac_stream-padded zero x (b ∷ l) p = absurd (omega arith)
  mac_stream-padded (suc n) x [] p = refl
  mac_stream-padded (suc n) x (b ∷ l) p = elim (Bool-cases (leb 16 (length (b ∷ l)))) [
    | inl many ↦
        (let size : 16 ≤ length (b ∷ l) = leb→le _ _ many in
          let front = take 16 (b ∷ l) in
          let back = drop 16 (b ∷ l) in
          let front_size : length front ≡ 16 = omega (arith, size, length-take 16 (b ∷ l)) in
          let back_size = length-drop 16 (b ∷ l) in
          let x' = aes.encrypt_block key (xor_into x front) in
          let whole = take-append_drop 16 (b ∷ l) in
          let same : missing (b ∷ l) ≡ missing back = omega (arith, size, back_size) in
          ap (mac_stream aes key x)
            (ap₂ (λ t k. t ++ replicate k 0) (sym whole) same ∙ append_assoc front back _)
          ∙ mac_stream-block x front (padded back) front_size
          ∙ mac_stream-padded n x' back (omega (arith, p, size, back_size))
          ∙ sym (mac_stream-block x front back front_size)
          ∙ ap (mac_stream aes key x) whole)
    | inr few ↦
        (let small : length (b ∷ l) < 16 = ground (arith, few) in
          let all_size = length-append (b ∷ l) (replicate (missing (b ∷ l)) 0) in
          let zeros = length-replicate {A = ℕ} (missing (b ∷ l)) 0 in
          ap (mac_chunks aes key x) (
            chunks-short (padded (b ∷ l)) (omega (arith, small, all_size, zeros))
              (omega (arith, small, all_size, zeros)))
          ∙ ap (λ y. aes.encrypt_block key y) (xor_into-zeros x (b ∷ l) _)
          ∙ sym (
              ap (mac_chunks aes key x)
                (chunks-short (b ∷ l) (omega arith) (omega (arith, small)))))
  ]

  mac_stream-parts :
      (x aad message : List ℕ)
      → mac_stream aes key x (padded aad ++ padded message)
        ≡ mac_stream aes key (mac_stream aes key x aad) message
  mac_stream-parts x aad message =
      let size = length-append aad (replicate (missing aad) 0) in
      let zeros = length-replicate {A = ℕ} (missing aad) 0 in
      mac_stream-append (length (padded aad) / 16) x (padded aad) (padded message)
        (omega (arith, size, zeros))
      ∙ mac_stream-padded (length message) _ message (omega arith)
      ∙ ap (λ y. mac_stream aes key y message) (mac_stream-padded (length aad) x aad (omega arith))

  -- For associated data that the buffer has room for, `cbc_mac` is the chain of the cipher over the
  -- formatted message, from the zero block.
  pub cbc_mac-formatted :
      (nonce aad message : List ℕ)
      → length nonce ≡ 13
      → length aad ≤ max_aad
      → cbc_mac aes key nonce aad message
        ≡ some (mac_stream aes key zero_block (formatted nonce aad message))
  unfolding cbc_mac
  cbc_mac-formatted nonce [] message len p = ap some (
      sym (
        mac_stream-block zero_block _ (padded message) (first_block-length nonce [] message len)
        ∙ mac_stream-padded (length message) _ message (omega arith)))
  cbc_mac-formatted nonce (b ∷ aad) message len p =
      let fits : ltb max_aad (length (b ∷ aad)) ≡ false = ground arith in
      let x = aes.encrypt_block key (block_xor zero_block (first_block nonce (b ∷ aad) message)) in
      ap
        (λ t.
          if t
          then none
          else some (mac_stream aes key (mac_stream aes key x (prefixed (b ∷ aad))) message))
        fits
      ∙ ap some (
          sym (
            mac_stream-block zero_block _ _ (first_block-length nonce (b ∷ aad) message len)
            ∙ mac_stream-parts x (prefixed (b ∷ aad)) message))
