-- ===== src/Kv/Memory.antt =====
-- crates/kv/src/lib.rs: the bytes of the region, and the errors.
use tower.Prelude.{ℕ, zero, suc, ◌+◌, List, [], ◌∷◌}

-- The bytes of the region by offset.
abbrev pub Mem : Type 0
Mem = ℕ → ℕ

unfoldable pub read : Mem → ℕ → ℕ → List ℕ
read m off zero = []
read m off (suc n) = m off ∷ read m (off + 1) n

-- The element at an index, 0 past the end.
abbrev pub nth : List ℕ → ℕ → ℕ
nth [] i = 0
nth (b ∷ bs) zero = b
nth (b ∷ bs) (suc i) = nth bs i

pub data KvError : Type 0 where
  backend value_too_large full invalid_key too_many_keys stale : KvError

pub data Result {ℓ} (A : Type ℓ) : Type ℓ where
  ok : A → Result A
  err : KvError → Result A
