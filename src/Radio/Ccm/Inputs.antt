-- ===== src/Radio/Ccm/Inputs.antt =====
-- The blocks that the cipher is asked for: none of the counter mode comes twice, and none is the first
-- block of a message or the block of the key check.
use tower.Prelude.{
  ℕ, ◌/◌, ◌%◌, ◌^◌, ◌<◌, ◌≡◌, ◌≢◌, ◌↔◌, sym, ap, ap₂, ◌∙◌, List, [], ◌∷◌, ◌++◌, length, take, drop,
  take-append, drop-append, arith,
}
use tower.Radio.Ccm.{be_u16, first_block, counter_block, zero_block}
use tower.Radio.Ccm.Bytewise.{nth}

pub be_u16-injective : (i j : ℕ) → i < 65536 → j < 65536 → be_u16 i ≡ be_u16 j → i ≡ j
be_u16-injective i j p q e =
    let high : i % 2 ^ 16 / 256 ≡ j % 2 ^ 16 / 256 = ap (λ l. nth l 0) e in
    let low : i % 256 ≡ j % 256 = ap (λ l. nth l 1) e in omega (arith, high, low)

pub append-injective :
    (a b c d : List ℕ) → length a ≡ length c → a ++ b ≡ c ++ d → (a ≡ c) × (b ≡ d)
append-injective a b c d len e = (
  sym (take-append a b)
      ∙ ap (λ l. take (length a) l) e
      ∙ ap (λ n. take n (c ++ d)) len
      ∙ take-append c d,
  sym (drop-append a b)
      ∙ ap (λ l. drop (length a) l) e
      ∙ ap (λ n. drop n (c ++ d)) len
      ∙ drop-append c d,
)

counter_block-injective :
    (nonce nonce' : List ℕ) (i j : ℕ)
    → length nonce ≡ 13
    → length nonce' ≡ 13
    → i < 65536
    → j < 65536
    → counter_block nonce i ≡ counter_block nonce' j
    → (nonce ≡ nonce') × (i ≡ j)
unfolding counter_block
counter_block-injective nonce nonce' i j len len' p q e =
    let (same, counters) =
      append-injective nonce (be_u16 i) nonce' (be_u16 j) (len ∙ sym len') (ap (drop 1) e) in
    (same, be_u16-injective i j p q counters)

first_block-apart :
    (nonce aad message nonce' : List ℕ) (i : ℕ)
    → (first_block nonce aad message ≢ counter_block nonce' i)
      × (first_block nonce aad message ≢ zero_block)
      × (counter_block nonce' i ≢ zero_block)
unfolding first_block counter_block
first_block-apart nonce [] message nonce' i = (
  λ e. omega (arith, ap (λ l. nth l 0) e),
  λ e. omega (arith, ap (λ l. nth l 0) e),
  λ e. omega (arith, ap (λ l. nth l 0) e),
)
first_block-apart nonce (b ∷ aad) message nonce' i = (
  λ e. omega (arith, ap (λ l. nth l 0) e),
  λ e. omega (arith, ap (λ l. nth l 0) e),
  λ e. omega (arith, ap (λ l. nth l 0) e),
)

-- The blocks that the cipher is asked for: with nonces of 13 bytes and counters of 16 bits, two counter
-- blocks are equal exactly when nonces and counters are; the first block of a message is no counter
-- block; and neither of them is the zero block, which the key check encrypts.
pub inputs_apart :
    (nonce nonce' aad message : List ℕ) (i j : ℕ)
    → length nonce ≡ 13
    → length nonce' ≡ 13
    → i < 65536
    → j < 65536
    → ((counter_block nonce i ≡ counter_block nonce' j) ↔ ((nonce ≡ nonce') × (i ≡ j)))
      × (first_block nonce aad message ≢ counter_block nonce' j)
      × (first_block nonce aad message ≢ zero_block)
      × (counter_block nonce' j ≢ zero_block)
inputs_apart nonce nonce' aad message i j len len' p q =
    let (not_counter, first_not_zero, counter_not_zero) =
      first_block-apart nonce aad message nonce' j in
    (
      (
        counter_block-injective nonce nonce' i j len len' p q,
        λ same. ap₂ counter_block same.0 same.1,
      ),
      not_counter,
      first_not_zero,
      counter_not_zero,
    )
