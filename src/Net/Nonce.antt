-- ===== src/Net/Nonce.antt =====
-- crates/net/src/nonce.rs: the CCM nonce of a frame, a list of 13 bytes.
use tower.Prelude.{ℕ, ◌≡◌, ◌≤◌, ◌<◌, List, [], ◌∷◌, ◌++◌, take, length, le_bytes, u32_max, arith}

abbrev pub nonce_len : ℕ
nonce_len = 13

unfoldable pub nonce_for : ℕ → ℕ → ℕ → List ℕ
nonce_for src counter bulk_index =
    le_bytes src ++ (le_bytes counter ++ (take 3 (le_bytes bulk_index) ++ (0 ∷ 0 ∷ [])))

length-nonce_for : (src counter bulk : ℕ) → length (nonce_for src counter bulk) ≡ nonce_len
unfolding nonce_for
length-nonce_for src counter bulk = omega arith

-- Two frames with one nonce have the same sender, the same counter and the same chunk index (of
-- 24 bits, as transmitted), and a nonce is 13 bytes long.
pub nonce_for-injective :
    (s c b s' c' b' : ℕ)
    → s ≤ u32_max
    → c ≤ u32_max
    → b < 16777216
    → s' ≤ u32_max
    → c' ≤ u32_max
    → b' < 16777216
    → nonce_for s c b ≡ nonce_for s' c' b'
    → (s ≡ s') × (c ≡ c') × (b ≡ b') × (length (nonce_for s c b) ≡ nonce_len)
unfolding nonce_for
nonce_for-injective s c b s' c' b' hs hc hb hs' hc' hb' e = ground arith
