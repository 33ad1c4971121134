-- ===== src/Radio/Ccm/Bytewise.antt =====
-- The counter mode by bytes, without chunks: each byte is masked by its own byte of the keystream.
use Prim.Native.Nat.{bit_xor}
use tower.Prelude.{
  ℕ, zero, suc, ◌+◌, ◌*◌, ◌/◌, ◌%◌, ◌≤◌, ◌<◌, ◌≡◌, refl, ap, ap₂, ◌∙◌, List, [], ◌∷◌, ◌++◌, length,
  take, drop, length-append, length-take, length-drop, arith, bit_xor-cancel,
}
use tower.Radio.Ccm.{
  AesBlock, be_u16, counter_block, xor_into, ctr_chunks, ctr_apply, ctr_keystream, chunks_by,
}

abbrev pub nth : List ℕ → ℕ → ℕ
nth [] i = 0
nth (b ∷ bs) zero = b
nth (b ∷ bs) (suc i) = nth bs i

-- Byte `j` and those after it, masked from byte `j` of the keystream on.
abbrev pub masked : (ℕ → ℕ) → ℕ → List ℕ → List ℕ
masked s j [] = []
masked s j (b ∷ d) = bit_xor b (s j) ∷ masked s (suc j) d

pub length-masked : (s : ℕ → ℕ) (j : ℕ) (d : List ℕ) → length (masked s j d) ≡ length d
length-masked s j [] = refl
length-masked s j (b ∷ d) = ap suc (length-masked s (suc j) d)

pub masked-masked : (s : ℕ → ℕ) (j : ℕ) (d : List ℕ) → masked s j (masked s j d) ≡ d
masked-masked s j [] = refl
masked-masked s j (b ∷ d) = ap₂ (◌∷◌) (bit_xor-cancel b (s j)) (masked-masked s (suc j) d)

masked-split :
    (s : ℕ → ℕ) (n j m : ℕ) (d : List ℕ)
    → m ≡ j + n
    → masked s j (take n d) ++ masked s m (drop n d) ≡ masked s j d
masked-split s zero j m d e = ap (λ i. masked s i d) (omega (arith, e))
masked-split s (suc n) j m [] e = refl
masked-split s (suc n) j m (b ∷ d) e =
    ap (◌∷◌ (bit_xor b (s j))) (masked-split s n (suc j) m d (omega (arith, e)))

xor_into-masked :
    (s : ℕ → ℕ) (j : ℕ) (d block : List ℕ)
    → length d ≤ length block
    → ((t : ℕ) → t < length block → nth block t ≡ s (j + t))
    → xor_into d block ≡ masked s j d
unfolding xor_into
xor_into-masked s j [] block p e = refl
xor_into-masked s j (b ∷ d) [] p e = absurd (omega arith)
xor_into-masked s j (b ∷ d) (k ∷ block) p e =
    let first : k ≡ s j = e 0 (omega arith) ∙ ap s (omega arith) in
    let rest =
      xor_into-masked s (suc j) d block (omega arith)
        (λ t q. e (suc t) (omega arith) ∙ ap s (omega arith)) in
    ap₂ (◌∷◌) (ap (bit_xor b) first) rest

counter_block-length :
    (nonce : List ℕ) (i : ℕ) → length nonce ≡ 13 → length (counter_block nonce i) ≡ 16
unfolding counter_block
counter_block-length nonce i len = omega (arith, length-append nonce (be_u16 i), len)

module _ (aes : AesBlock) (key nonce : List ℕ) where
  abbrev pub stream_byte : ℕ → ℕ
  stream_byte j = nth (ctr_keystream aes key nonce (j / 16 + 1)) (j % 16)

  ctr_chunks-masked :
      length nonce ≡ 13
      → (n i j : ℕ) (d : List ℕ) → length d ≤ n
      → j ≡ 16 * i
      → ctr_chunks aes key nonce i (chunks_by n d) ≡ masked stream_byte j d
  unfolding ctr_chunks chunks_by
  ctr_chunks-masked len zero i j [] p e = refl
  ctr_chunks-masked len zero i j (b ∷ d) p e = absurd (omega arith)
  ctr_chunks-masked len (suc n) i j [] p e = refl
  ctr_chunks-masked len (suc n) i j (b ∷ d) p e =
      let block = ctr_keystream aes key nonce (i + 1) in
      let size =
        aes.encrypt_block-length key (counter_block nonce (i + 1))
          (counter_block-length nonce (i + 1) len) in
      let one =
        xor_into-masked stream_byte j (b ∷ take 15 d) block (omega (arith, length-take 15 d, size))
          (λ t q.
            ap₂ (λ x y. nth (ctr_keystream aes key nonce x) y) (omega (arith, size))
              (omega (arith, size))) in
      let rest =
        ctr_chunks-masked len n (i + 1) (16 + j) (drop 15 d) (omega (arith, length-drop 15 d))
          (omega arith) in
      ap₂ (◌++◌) one rest ∙ masked-split stream_byte 16 j (16 + j) (b ∷ d) (omega arith)

  -- In counter mode byte `j` of the message is masked by byte `j % 16` of keystream block
  -- `j / 16 + 1`, at every length of the message.
  pub ctr_apply-masked :
      length nonce ≡ 13
      → (message : List ℕ) → ctr_apply aes key nonce message ≡ masked stream_byte 0 message
  ctr_apply-masked len message =
      ctr_chunks-masked len (length message) 0 0 message (omega arith) (omega arith)
