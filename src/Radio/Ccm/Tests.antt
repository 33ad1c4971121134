-- ===== src/Radio/Ccm/Tests.antt =====
-- A toy cipher, which adds the key, and a frame of 20 bytes with 3 of associated data.
use tower.Prelude.{
  ℕ, ◌<◌, ◌≡◌, ◌≢◌, ◌↔◌, ◌⊎◌, refl, ◌∙◌, true, false, none, some, List, [], ◌∷◌, ◌++◌, length,
  replicate, arith,
}
use tower.Radio.Ccm.{
  AesBlock, xor_into, chunks_by, diff_of, ct_eq, first_block, counter_block, mac_chunks, mac_stream,
  cbc_mac, ctr_chunks, ctr_apply, seal, open_, key_check, zero_block, max_aad, tag_len,
}
use tower.Radio.Ccm.Authentic.{open_iff}
use tower.Radio.Ccm.Bytewise.{ctr_apply-masked, masked, stream_byte}
use tower.Radio.Ccm.Formatted.{formatted, cbc_mac-formatted}
use tower.Radio.Ccm.Inputs.{inputs_apart}
use tower.Radio.Ccm.Sizes.{length-xor_into, seal-Outcome}
use tower.Radio.Ccm.Unambiguous.{formatted-injective}

abbrev toy : AesBlock
toy = record {
  encrypt_block = λ key block. xor_into block key;
  encrypt_block-length = λ key block e. length-xor_into block key ∙ e;
}

abbrev key : List ℕ
key = 1 ∷ 2 ∷ 3 ∷ 4 ∷ 5 ∷ 6 ∷ 7 ∷ 8 ∷ 9 ∷ 10 ∷ 11 ∷ 12 ∷ 13 ∷ 14 ∷ 15 ∷ 16 ∷ []

abbrev nonce : List ℕ
nonce = 0xA0 ∷ replicate 12 7

abbrev aad : List ℕ
aad = 1 ∷ 2 ∷ 3 ∷ []

abbrev message : List ℕ
message = replicate 16 65 ++ (66 ∷ 67 ∷ 68 ∷ 69 ∷ [])

abbrev ciphertext : List ℕ
ciphertext =
    65 ∷ 227 ∷ 69 ∷ 66 ∷ 67 ∷ 64 ∷ 65 ∷ 78 ∷ 79 ∷ 76 ∷ 77 ∷ 74 ∷ 75 ∷ 72 ∷ 78 ∷ 80 ∷ 66 ∷ 225 ∷ 64
    ∷ 70 ∷ []

abbrev tag : List ℕ
tag = 90 ∷ 3 ∷ 7 ∷ 2 ∷ 71 ∷ 71 ∷ 70 ∷ 73 ∷ []

seals : seal toy key nonce aad message ≡ some (ciphertext, tag)
unfolding seal cbc_mac ctr_chunks mac_chunks chunks_by xor_into first_block counter_block
seals = refl

opens : open_ toy key nonce aad ciphertext tag ≡ some (true, message)
opens = (open_iff toy key nonce aad message ciphertext tag refl).1 seals

tampered :
    open_ toy key nonce aad ciphertext (91 ∷ 3 ∷ 7 ∷ 2 ∷ 71 ∷ 71 ∷ 70 ∷ 73 ∷ [])
    ≡ some (false, message)
unfolding open_ ct_eq diff_of cbc_mac ctr_chunks mac_chunks chunks_by xor_into first_block
    counter_block
tampered = refl

fingerprint : key_check toy key ≡ 0x04030201
unfolding key_check xor_into
fingerprint = refl

too_long : seal toy key nonce (replicate 33 1) message ≡ none
unfolding seal cbc_mac
too_long = refl

open_iff_example :
    (open_ toy key nonce aad ciphertext tag ≡ some (true, message))
    ↔ (seal toy key nonce aad message ≡ some (ciphertext, tag))
open_iff_example = open_iff toy key nonce aad message ciphertext tag refl

cbc_mac-formatted_example :
    cbc_mac toy key nonce aad message
    ≡ some (mac_stream toy key zero_block (formatted nonce aad message))
cbc_mac-formatted_example = cbc_mac-formatted toy key nonce aad message refl (omega arith)

formatted-injective_example : (nonce ≡ nonce) × (aad ≡ aad) × (message ≡ message)
formatted-injective_example =
    formatted-injective nonce nonce aad aad message message refl refl (omega arith) (omega arith)
      (omega arith) (omega arith) refl

inputs_apart_example :
    ((counter_block nonce 1 ≡ counter_block nonce 2) ↔ ((nonce ≡ nonce) × (◌≡◌ {A = ℕ} 1 2)))
    × (first_block nonce aad message ≢ counter_block nonce 2)
    × (first_block nonce aad message ≢ zero_block)
    × (counter_block nonce 2 ≢ zero_block)
inputs_apart_example =
    inputs_apart nonce nonce aad message 1 2 refl refl (omega arith) (omega arith)

seal-Outcome_example :
    ((c : List ℕ) × (t : List ℕ) × (seal toy key nonce aad message ≡ some (c, t))
      × (length c ≡ length message)
      × (length t ≡ tag_len))
    ⊎ ((max_aad < length aad) × (seal toy key nonce aad message ≡ none))
seal-Outcome_example = seal-Outcome toy key nonce aad message refl

ctr_apply-masked_example :
    ctr_apply toy key nonce message ≡ masked (stream_byte toy key nonce) 0 message
ctr_apply-masked_example = ctr_apply-masked toy key nonce refl message
