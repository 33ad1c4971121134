-- ===== src/Prelude/Xor.antt =====
-- Exclusive or and inclusive or of native numbers, one binary digit at a time.
use Prim.Native.Nat.{
  ℕ, zero, suc, ◌+◌, ◌*◌, ◌/◌, ◌%◌, ◌≤◌, ◌<◌, max, digits, differ, bit_or, bit_xor, bit_or-bitwise,
  bit_xor-bitwise,
}
use mathlib.Core.Path.{◌≡◌, refl, sym, ap, ◌∙◌}
use native.Mathlib.Nat.{le_refl}
use mathlib.Core.Logic.{inl, inr}
use native.Mathlib.Omega.{arith}
use tower.Prelude.Tests.{leb, leb→le, Bool-cases}

-- Rounds beyond the digits of the first number change nothing: one round, then any number of them.
module _ (on_digits : ℕ → ℕ → ℕ) where
  abbrev rounds : ℕ → ℕ → ℕ → ℕ
  rounds = digits (λ rest. rest) on_digits

  spare_round : (n x y : ℕ) → x ≤ n → rounds (suc n) x y ≡ rounds n x y
  spare_round zero zero y h = refl
  spare_round zero (suc x) y h = absurd (omega arith)
  spare_round (suc n) zero y h = refl
  spare_round (suc n) (suc x) y h =
      ap (λ high. high * 2 + on_digits (suc x % 2) (y % 2))
        (spare_round n (suc x / 2) (y / 2) (omega arith))

  spare_rounds : (n k x y : ℕ) → x ≤ k → k ≤ n → rounds n x y ≡ rounds k x y
  spare_rounds zero k x y h le =
      let none_left : 0 ≡ k = omega arith in ap (λ r. rounds r x y) none_left
  spare_rounds (suc n) k x y h le = elim (Bool-cases (leb k n)) [
    | inl below ↦
        (let k_le : k ≤ n = leb→le k n below in
          spare_round n x y (omega (arith, k_le)) ∙ spare_rounds n k x y h k_le)
    | inr top ↦ (let equal : suc n ≡ k = ground (arith, top) in ap (λ r. rounds r x y) equal)
  ]

  lowest_digit :
      (x y : ℕ)
      → rounds (suc x) (suc x) y
        ≡ rounds (suc x / 2) (suc x / 2) (y / 2) * 2 + on_digits (suc x % 2) (y % 2)
  lowest_digit x y =
      ap (λ high. high * 2 + on_digits (suc x % 2) (y % 2))
        (spare_rounds x (suc x / 2) (suc x / 2) (y / 2) (omega arith) (omega arith))

bit_or_halves : (x y : ℕ) → bit_or x y ≡ bit_or (x / 2) (y / 2) * 2 + max (x % 2) (y % 2)
bit_or_halves zero y = simp bit_or-bitwise (omega arith)
bit_or_halves (suc x) y = simp bit_or-bitwise (lowest_digit max x y)

-- `differ` of two digits is their sum without the carry.
differ-digit : (a b : ℕ) → a < 2 → b < 2 → differ a b ≡ (a + b) % 2
differ-digit zero zero p q = refl
differ-digit zero (suc zero) p q = refl
differ-digit (suc zero) zero p q = refl
differ-digit (suc zero) (suc zero) p q = refl
differ-digit (suc (suc a)) b p q = absurd (omega arith)
differ-digit a (suc (suc b)) p q = absurd (omega arith)

pub bit_xor_halves : (a b : ℕ) → bit_xor a b ≡ bit_xor (a / 2) (b / 2) * 2 + (a % 2 + b % 2) % 2
bit_xor_halves zero b = simp bit_xor-bitwise (omega arith)
bit_xor_halves (suc a) b =
    let e = differ-digit (suc a % 2) (b % 2) (omega arith) (omega arith) in
    simp bit_xor-bitwise (omega (arith, e, lowest_digit differ a b))

bit_xor-zero : (b : ℕ) → bit_xor 0 b ≡ b
bit_xor-zero b = simp bit_xor-bitwise refl

-- What is put in by exclusive or comes out by it.
pub bit_xor-cancel : (a k : ℕ) → bit_xor (bit_xor a k) k ≡ a
bit_xor-cancel a k = by_size (a + k) a k (le_refl _)
  where
    by_size : (n a k : ℕ) → a + k ≤ n → bit_xor (bit_xor a k) k ≡ a
    by_size zero zero zero p = refl
    by_size zero zero (suc k) p = absurd (omega arith)
    by_size zero (suc a) k p = absurd (omega arith)
    by_size (suc n) a k p =
        let ih = by_size n (a / 2) (k / 2) (omega arith) in
        let lower = bit_xor_halves a k in
        let half : bit_xor a k / 2 ≡ bit_xor (a / 2) (k / 2) = omega (arith, lower) in
        omega (arith, lower, ih, ap (λ t. bit_xor t (k / 2)) half, bit_xor_halves (bit_xor a k) k)

pub xor_zero : (a : ℕ) → bit_xor a 0 ≡ a
xor_zero a = by_size a a (le_refl _)
  where
    by_size : (n a : ℕ) → a ≤ n → bit_xor a 0 ≡ a
    by_size zero zero p = refl
    by_size zero (suc a) p = absurd (omega arith)
    by_size (suc n) zero p = refl
    by_size (suc n) (suc a) p =
        omega (arith, bit_xor_halves (suc a) 0, by_size n (suc a / 2) (omega arith))

pub bit_xor_self : (a : ℕ) → bit_xor a a ≡ 0
bit_xor_self a = ap (λ t. bit_xor t a) (sym (bit_xor-zero a)) ∙ bit_xor-cancel 0 a

pub bit_xor-zero→eq : (a b : ℕ) → bit_xor a b ≡ 0 → a ≡ b
bit_xor-zero→eq a b e = sym (bit_xor-cancel a b) ∙ ap (λ t. bit_xor t b) e ∙ bit_xor-zero b

pub bit_or-zero→zero : (a b : ℕ) → bit_or a b ≡ 0 → (a ≡ 0) × (b ≡ 0)
bit_or-zero→zero a b e = by_size (a + b) a b (le_refl _) e
  where
    by_size : (n a b : ℕ) → a + b ≤ n → bit_or a b ≡ 0 → (a ≡ 0) × (b ≡ 0)
    by_size zero a b p e = (omega arith, omega arith)
    by_size (suc n) a b p e =
        let lower = bit_or_halves a b in
        let ih = by_size n (a / 2) (b / 2) (omega arith) (omega (arith, lower)) in
        let last_digits : max (a % 2) (b % 2) ≡ 0 = omega (arith, lower) in
        (omega (arith, ih.0, last_digits), omega (arith, ih.1, last_digits))
