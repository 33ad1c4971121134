-- ===== src/Protocol/Ring/Bytes.antt =====
-- The bytes of the ring: what a wrapped write leaves at each place, and what a wrapped read finds.
use tower.Prelude.{
  ℕ, zero, suc, ◌+◌, ◌-◌, ◌%◌, ◌≤◌, ◌<◌, ◌≡◌, ◌⊎◌, inl, inr, refl, sym, ap, ◌∙◌, min, List, [], ◌∷◌,
  ◌++◌, length, take, drop, length-append, length-take, length-drop, true, false, ltb, ltb→lt,
  Bool-cases, ◌==◌, if◌then◌else◌, arith,
}
use native.Mathlib.Nat.{mod-eq_of_lt, mod-eq-sub-mod}
use tower.Protocol.Ring.{Buf, copy_in, copy_out, write_at, read_at}

abbrev pub nth : List ℕ → ℕ → ℕ
nth [] i = 0
nth (b ∷ bs) zero = b
nth (b ∷ bs) (suc i) = nth bs i

copy_in-outside :
    (buf : Buf) (at : ℕ) (d : List ℕ) (x : ℕ)
    → (x < at) ⊎ (at + length d ≤ x)
    → copy_in buf at d x ≡ buf x
unfolding copy_in
copy_in-outside buf at [] x h = refl
copy_in-outside buf at (b ∷ d) x h =
    copy_in-outside (λ i. if i == at then b else buf i) (at + 1) d x (ground arith) ∙ ground arith

copy_in-inside :
    (buf : Buf) (at : ℕ) (d : List ℕ) (x i : ℕ)
    → i < length d
    → x ≡ at + i
    → copy_in buf at d x ≡ nth d i
unfolding copy_in
copy_in-inside buf at [] x i h e = absurd (omega arith)
copy_in-inside buf at (b ∷ d) x zero h e =
    copy_in-outside (λ i. if i == at then b else buf i) (at + 1) d x (inl (omega arith))
    ∙ ground arith
copy_in-inside buf at (b ∷ d) x (suc i) h e =
    copy_in-inside (λ i. if i == at then b else buf i) (at + 1) d x i (omega arith) (omega arith)

length-copy_out : (buf : Buf) (at k : ℕ) → length (copy_out buf at k) ≡ k
unfolding copy_out
length-copy_out buf at zero = refl
length-copy_out buf at (suc k) = ap suc (length-copy_out buf (at + 1) k)

nth-copy_out : (buf : Buf) (at k i : ℕ) → i < k → nth (copy_out buf at k) i ≡ buf (at + i)
unfolding copy_out
nth-copy_out buf at zero i h = absurd (omega arith)
nth-copy_out buf at (suc k) zero h = ap buf (omega arith)
nth-copy_out buf at (suc k) (suc i) h =
    nth-copy_out buf (at + 1) k i (omega arith) ∙ ap buf (omega arith)

pub nth-append :
    (a b : List ℕ) (i : ℕ)
    → nth (a ++ b) i ≡ (if ltb i (length a) then nth a i else nth b (i - length a))
nth-append [] b i = ground arith
nth-append (x ∷ a) b zero = ground arith
nth-append (x ∷ a) b (suc i) = ground (arith, nth-append a b i)

pub nth-take : (k : ℕ) (d : List ℕ) (i : ℕ) → i < k → nth (take k d) i ≡ nth d i
nth-take zero d i h = absurd (omega arith)
nth-take (suc k) [] i h = refl
nth-take (suc k) (x ∷ d) zero h = refl
nth-take (suc k) (x ∷ d) (suc i) h = nth-take k d i (omega arith)

nth-drop : (k : ℕ) (d : List ℕ) (i m : ℕ) → m ≡ k + i → nth (drop k d) i ≡ nth d m
nth-drop zero d i m e = ap (nth d) (omega arith)
nth-drop (suc k) [] i m e = refl
nth-drop (suc k) (x ∷ d) i zero e = absurd (omega arith)
nth-drop (suc k) (x ∷ d) i (suc m) e = nth-drop k d i m (omega arith)

module _ (n : ℕ) where
  -- A place that goes at most once round.
  pub wrap : (x : ℕ) → 0 < n → x < n + n → (x % n) ≡ (if ltb x n then x else x - n)
  wrap x pos h = elim (Bool-cases (ltb x n)) [
    | inl low ↦ rw (low) (mod-eq_of_lt (ltb→lt x n low))
    | inr high ↦
        let le : n ≤ x = ground arith in rw (high) (mod-eq-sub-mod le ∙ mod-eq_of_lt (omega arith))
  ]

  module _ (buf : Buf) (at : ℕ) (at_in : at < n) where
    pub write_at-inside :
        (d : List ℕ) (j : ℕ)
        → length d ≤ n
        → j < length d
        → write_at n buf at d ((at + j) % n) ≡ nth d j
    unfolding write_at
    write_at-inside d j fit h =
        let first = min (length d) (n - at) in
        let lt = length-take first d in
        let ld = length-drop first d in
        let buf' = copy_in buf at (take first d) in
        elim (Bool-cases (ltb (at + j) n)) [
          | inl low ↦
              let here : (at + j) % n ≡ at + j =
                wrap (at + j) (omega arith) (omega arith) ∙ ground (arith, low) in
              let small : j < first = ground (arith, low) in
              ap (copy_in buf' 0 (drop first d)) here
              ∙ copy_in-outside buf' 0 (drop first d) (at + j) (inr (omega (arith, ld)))
              ∙ copy_in-inside buf at (take first d) (at + j) j (omega (arith, lt)) refl
              ∙ nth-take first d j small
          | inr high ↦
              let le : n ≤ at + j = ground (arith, high) in
              let here : (at + j) % n ≡ at + j - n =
                wrap (at + j) (omega arith) (omega arith) ∙ ground (arith, high) in
              ap (copy_in buf' 0 (drop first d)) here
              ∙ copy_in-inside buf' 0 (drop first d) (at + j - n) (at + j - n) (omega (arith, ld))
                  (omega arith)
              ∙ nth-drop first d (at + j - n) j (omega arith)
        ]

    pub write_at-outside :
        (d : List ℕ) (j : ℕ)
        → length d ≤ n
        → length d ≤ j
        → j < n
        → write_at n buf at d ((at + j) % n) ≡ buf ((at + j) % n)
    unfolding write_at
    write_at-outside d j fit past h =
        let first = min (length d) (n - at) in
        let lt = length-take first d in
        let ld = length-drop first d in
        let buf' = copy_in buf at (take first d) in
        elim (Bool-cases (ltb (at + j) n)) [
          | inl low ↦
              let here : (at + j) % n ≡ at + j =
                wrap (at + j) (omega arith) (omega arith) ∙ ground (arith, low) in
              ap (copy_in buf' 0 (drop first d)) here
              ∙ copy_in-outside buf' 0 (drop first d) (at + j) (inr (omega (arith, ld)))
              ∙ copy_in-outside buf at (take first d) (at + j) (inr (omega (arith, lt)))
              ∙ ap buf (sym here)
          | inr high ↦
              let le : n ≤ at + j = ground (arith, high) in
              let here : (at + j) % n ≡ at + j - n =
                wrap (at + j) (omega arith) (omega arith) ∙ ground (arith, high) in
              ap (copy_in buf' 0 (drop first d)) here
              ∙ copy_in-outside buf' 0 (drop first d) (at + j - n) (inr (omega (arith, ld)))
              ∙ copy_in-outside buf at (take first d) (at + j - n) (inl (omega arith))
              ∙ ap buf (sym here)
        ]

    pub length-read_at : (k : ℕ) → length (read_at n buf at k) ≡ k
    unfolding read_at
    length-read_at k =
        let first = min k (n - at) in
        omega (
          arith,
          length-append (copy_out buf at first) (copy_out buf 0 (k - first)),
          length-copy_out buf at first,
          length-copy_out buf 0 (k - first),
        )

    pub nth-read_at : (k j : ℕ) → k ≤ n → j < k → nth (read_at n buf at k) j ≡ buf ((at + j) % n)
    unfolding read_at
    nth-read_at k j fit h =
        let first = min k (n - at) in
        let lc = length-copy_out buf at first in
        nth-append (copy_out buf at first) (copy_out buf 0 (k - first)) j
        ∙ (elim (Bool-cases (ltb (at + j) n)) [
          | inl low ↦
              let here : (at + j) % n ≡ at + j =
                wrap (at + j) (omega arith) (omega arith) ∙ ground (arith, low) in
              let side : ltb j (length (copy_out buf at first)) ≡ true = ground (arith, lc, low) in
              rw (side) (nth-copy_out buf at first j (ground (arith, low)) ∙ ap buf (sym here))
          | inr high ↦
              let le : n ≤ at + j = ground (arith, high) in
              let here : (at + j) % n ≡ at + j - n =
                wrap (at + j) (omega arith) (omega arith) ∙ ground (arith, high) in
              let side : ltb j (length (copy_out buf at first)) ≡ false =
                ground (arith, lc, high) in
              rw (side) (
                nth-copy_out buf 0 (k - first) (j - length (copy_out buf at first))
                  (omega (arith, lc))
                ∙ ap buf (omega (arith, lc, here)))
        ])
