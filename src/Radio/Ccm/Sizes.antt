-- ===== src/Radio/Ccm/Sizes.antt =====
-- What comes back from `seal`: a ciphertext as long as the message and a tag of 8 bytes, or the panic.
use mathlib.Core.Option
use tower.Prelude.{
  ℕ, suc, ◌<◌, ◌≡◌, ◌⊎◌, inl, inr, refl, ap, ◌∙◌, none, some, List, [], ◌∷◌, length, take, ltb,
  ltb→lt, if◌then◌else◌, length-take, Bool-cases, arith,
}
use tower.Radio.Ccm.{
  AesBlock, xor_into, chunks, first_block, prefixed, zero_block, block_xor, mac_chunks, mac_stream,
  cbc_mac, ctr_apply, tag_from, tag_len, seal, max_aad,
}
use tower.Radio.Ccm.Bytewise.{ctr_apply-masked, length-masked, stream_byte}

pub length-xor_into : (x l : List ℕ) → length (xor_into x l) ≡ length x
unfolding xor_into
length-xor_into [] l = refl
length-xor_into (b ∷ x) [] = refl
length-xor_into (b ∷ x) (k ∷ l) = ap suc (length-xor_into x l)

module _ (aes : AesBlock) (key : List ℕ) where
  encrypted-length :
      (x l : List ℕ) → length x ≡ 16 → length (aes.encrypt_block key (xor_into x l)) ≡ 16
  encrypted-length x l e = aes.encrypt_block-length key _ (length-xor_into x l ∙ e)

  mac_chunks-length :
      (x : List ℕ) (cs : List (List ℕ)) → length x ≡ 16 → length (mac_chunks aes key x cs) ≡ 16
  unfolding mac_chunks
  mac_chunks-length x [] e = e
  mac_chunks-length x (c ∷ cs) e =
      mac_chunks-length (aes.encrypt_block key (xor_into x c)) cs (encrypted-length x c e)

  pub cbc_mac-Outcome :
      (nonce aad message : List ℕ)
      → ((mac : List ℕ) × (cbc_mac aes key nonce aad message ≡ some mac) × (length mac ≡ 16))
        ⊎ ((max_aad < length aad) × (cbc_mac aes key nonce aad message ≡ none))
  unfolding cbc_mac
  cbc_mac-Outcome nonce [] message = inl (
    _,
    refl,
    mac_chunks-length _ (chunks message)
        (encrypted-length zero_block (first_block nonce [] message) refl),
  )
  cbc_mac-Outcome nonce (b ∷ aad) message =
      let x = aes.encrypt_block key (block_xor zero_block (first_block nonce (b ∷ aad) message)) in
      let mac = mac_stream aes key (mac_stream aes key x (prefixed (b ∷ aad))) message in
      let start = encrypted-length zero_block (first_block nonce (b ∷ aad) message) refl in
      elim (Bool-cases (ltb max_aad (length (b ∷ aad)))) [
        | inl long ↦ inr (ltb→lt _ _ long, ap (λ t. if t then none else some mac) long)
        | inr fits ↦ inl (
          mac,
          ap (λ t. if t then none else some mac) fits,
          mac_chunks-length _ (chunks message)
              (mac_chunks-length x (chunks (prefixed (b ∷ aad))) start),
        )
      ]

  -- `seal` gives a ciphertext as long as the message and a tag of 8 bytes, or panics, and that only on
  -- more than 32 bytes of associated data.
  pub seal-Outcome :
      (nonce aad message : List ℕ)
      → length nonce ≡ 13
      → ((sealed : List ℕ) × (tag : List ℕ) × (seal aes key nonce aad message ≡ some (sealed, tag))
          × (length sealed ≡ length message)
          × (length tag ≡ tag_len))
        ⊎ ((max_aad < length aad) × (seal aes key nonce aad message ≡ none))
  unfolding seal
  seal-Outcome nonce aad message len = elim (cbc_mac-Outcome nonce aad message) [
    | inl (mac, has_mac, size) ↦ inl (
      ctr_apply aes key nonce message,
      tag_from aes key nonce mac,
      ap (Option.map _) has_mac,
      ap length (ctr_apply-masked aes key nonce len message)
          ∙ length-masked (stream_byte aes key nonce) 0 message,
      length-xor_into (take tag_len mac) _ ∙ omega (arith, size, length-take tag_len mac),
    )
    | inr (long, no_mac) ↦ inr (long, ap (Option.map _) no_mac)
  ]
