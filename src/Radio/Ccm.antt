-- ===== src/Radio/Ccm.antt =====
-- crates/radio/src/ccm.rs: AES-128-CCM over a block cipher, with a nonce of 13 bytes and a tag of 8.
-- The result `none` stands for the panic on associated data that its buffer has no room for.
pub mod Bytewise
pub mod Authentic
pub mod Inputs
pub mod Formatted
pub mod Unambiguous
pub mod Sizes
mod Tests
use Prim.Native.Nat.{bit_or, bit_xor}
use mathlib.Core.Option
use mathlib.Core.Option.{Option}
use tower.Prelude.{
  ℕ, zero, suc, ◌+◌, ◌-◌, ◌*◌, ◌/◌, ◌%◌, ◌^◌, ◌≡◌, Bool, true, false, not, none, some, List, [],
  ◌∷◌, ◌++◌, length, take, drop, replicate, ltb, ◌==◌, if◌then◌else◌, from_le,
}

-- the constant `L` of the source
abbrev pub length_size : ℕ
length_size = 2

abbrev pub nonce_len : ℕ
nonce_len = 13

abbrev pub tag_len : ℕ
tag_len = 8

abbrev pub max_aad : ℕ
max_aad = 32

-- The cipher on one block, a function of the key and the block: what an engine keeps between two
-- calls does not show in its answers.
pub record AesBlock : Type 0 where
  pub encrypt_block : List ℕ → List ℕ → List ℕ
  pub encrypt_block-length :
      (key block : List ℕ) → length block ≡ 16 → length (encrypt_block key block) ≡ 16

-- `u16::to_be_bytes` of `n as u16`
abbrev pub be_u16 : ℕ → List ℕ
be_u16 n = (n % 2 ^ 16 / 256) ∷ (n % 256) ∷ []

-- Exclusive or into the first bytes, as many as both have.
unfoldable pub xor_into : List ℕ → List ℕ → List ℕ
xor_into [] src = []
xor_into (b ∷ dst) [] = b ∷ dst
xor_into (b ∷ dst) (k ∷ src) = bit_xor b k ∷ xor_into dst src

-- A slice of another length than 16 does not occur.
abbrev pub block_xor : List ℕ → List ℕ → List ℕ
block_xor dst src = xor_into dst src

-- `[T]::chunks`, on fuel: every chunk but the last has 16 elements.
unfoldable pub chunks_by : ℕ → List ℕ → List (List ℕ)
chunks_by zero l = []
chunks_by (suc n) [] = []
chunks_by (suc n) (b ∷ l) = (b ∷ take 15 l) ∷ chunks_by n (drop 15 l)

abbrev pub chunks : List ℕ → List (List ℕ)
chunks l = chunks_by (length l) l

unfoldable pub diff_of : ℕ → List ℕ → List ℕ → ℕ
diff_of diff [] b = diff
diff_of diff (x ∷ a) [] = diff
diff_of diff (x ∷ a) (y ∷ b) = diff_of (bit_or diff (bit_xor x y)) a b

unfoldable pub ct_eq : List ℕ → List ℕ → Bool
ct_eq a b = if not (length a == length b) then false else (diff_of 0 a b == 0)

abbrev pub has_aad : List ℕ → Bool
has_aad [] = false
has_aad (b ∷ aad) = true

-- `u32::from_le_bytes` of the first four bytes
abbrev pub first_u32 : List ℕ → ℕ
first_u32 (a ∷ b ∷ c ∷ d ∷ rest) = from_le a b c d
first_u32 block = 0

-- B₀: the flags, the nonce and the length of the message
unfoldable pub first_block : List ℕ → List ℕ → List ℕ → List ℕ
first_block nonce aad message =
    let adata = if has_aad aad then 0x40 else 0 in
    bit_or (bit_or adata ((tag_len - 2) / 2 * 2 ^ 3)) (length_size - 1)
    ∷ (nonce ++ be_u16 (length message))

-- Aᵢ
unfoldable pub counter_block : List ℕ → ℕ → List ℕ
counter_block nonce counter = (length_size - 1) ∷ (nonce ++ be_u16 counter)

-- the associated data in the buffer, behind their length
abbrev pub prefixed : List ℕ → List ℕ
prefixed aad = be_u16 (length aad) ++ aad

abbrev pub zero_block : List ℕ
zero_block = replicate 16 0

module _ (aes : AesBlock) (key : List ℕ) where
  unfoldable pub mac_chunks : List ℕ → List (List ℕ) → List ℕ
  mac_chunks x [] = x
  mac_chunks x (chunk ∷ stream) = mac_chunks (aes.encrypt_block key (xor_into x chunk)) stream

  abbrev pub mac_stream : List ℕ → List ℕ → List ℕ
  mac_stream x stream = mac_chunks x (chunks stream)

  unfoldable pub cbc_mac : List ℕ → List ℕ → List ℕ → Option (List ℕ)
  cbc_mac nonce aad message =
      let x = aes.encrypt_block key (block_xor zero_block (first_block nonce aad message)) in
      if has_aad aad
      then (if ltb max_aad (length aad)
          then none
          else some (mac_stream (mac_stream x (prefixed aad)) message))
      else some (mac_stream x message)

  abbrev pub ctr_keystream : List ℕ → ℕ → List ℕ
  ctr_keystream nonce counter = aes.encrypt_block key (counter_block nonce counter)

  -- The counter is `(i + 1) as u16`, as its two bytes are.
  unfoldable pub ctr_chunks : List ℕ → ℕ → List (List ℕ) → List ℕ
  ctr_chunks nonce i [] = []
  ctr_chunks nonce i (chunk ∷ rest) =
      xor_into chunk (ctr_keystream nonce (i + 1)) ++ ctr_chunks nonce (i + 1) rest

  abbrev pub ctr_apply : List ℕ → List ℕ → List ℕ
  ctr_apply nonce message = ctr_chunks nonce 0 (chunks message)

  abbrev pub tag_from : List ℕ → List ℕ → List ℕ
  tag_from nonce mac = xor_into (take tag_len mac) (take tag_len (ctr_keystream nonce 0))

  -- The buffer after the call and the tag.
  unfoldable pub seal : List ℕ → List ℕ → List ℕ → Option (List ℕ × List ℕ)
  seal nonce aad message =
      Option.map (λ mac. (ctr_apply nonce message, tag_from nonce mac)) (cbc_mac nonce aad message)

  -- The verdict and the buffer after the call.
  unfoldable pub open_ : List ℕ → List ℕ → List ℕ → List ℕ → Option (Bool × List ℕ)
  open_ nonce aad sealed tag =
      let message = ctr_apply nonce sealed in
      Option.map (λ mac. (ct_eq (tag_from nonce mac) tag, message)) (cbc_mac nonce aad message)

  unfoldable pub key_check : ℕ
  key_check = first_u32 (aes.encrypt_block key zero_block)
