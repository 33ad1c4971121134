-- ===== src/Kv/Steps.antt =====
-- How a chain of fallible steps on the region is reasoned about: what holds where it ends in success,
-- and what holds where it ends in an error.
use tower.Prelude.{
  ℕ, zero, suc, ◌+◌, ◌≤◌, ◌<◌, ◌≡◌, refl, ap₂, subst, ◌∙◌, ◌⊎◌, inl, inr, Bool-cases, List, [], ◌∷◌,
  ◌++◌, length, arith,
}
use tower.Kv.Eeprom.{Mem, Eeprom, M, Result, ok, err, Torn, nth, read, put, then_do}

-- `Q` of the value and the state of a success, `E` of the state that a failure leaves.
abbrev pub Leaves : {S A : Type 0} → (A → S → Type 0) → (S → Type 0) → S × Result A → Type 0
Leaves Q E (s, ok a) = Q a s
Leaves Q E (s, err e) = E s

-- The bytes `d` stand at `off`.
abbrev pub At : Mem → ℕ → List ℕ → Type 0
At m off d = (i : ℕ) → i < length d → m (off + i) ≡ nth d i

-- No byte outside `lo` up to `hi` has changed.
abbrev pub Kept : Mem → Mem → ℕ → ℕ → Type 0
Kept m m' lo hi = (i : ℕ) → (i < lo) ⊎ (hi ≤ i) → m' i ≡ m i

pub Leaves-then_do :
    {S A B : Type 0} (Q : A → S → Type 0) (E : S → Type 0) (Q' : B → S → Type 0) (E' : S → Type 0)
    → (k : A → M S B) (p : S × Result A) → Leaves Q E p
    → ((a : A) (s : S) → Q a s → Leaves Q' E' (k a s))
    → ((s : S) → E s → E' s)
    → Leaves Q' E' (then_do k p)
Leaves-then_do Q E Q' E' k (s, ok a) q f e = f a s q
Leaves-then_do Q E Q' E' k (s, err x) q f e = e s q

pub Leaves-weaken :
    {S A : Type 0} (Q : A → S → Type 0) (E : S → Type 0) (Q' : A → S → Type 0) (E' : S → Type 0)
    → (p : S × Result A) → Leaves Q E p
    → ((a : A) (s : S) → Q a s → Q' a s)
    → ((s : S) → E s → E' s)
    → Leaves Q' E' p
Leaves-weaken Q E Q' E' (s, ok a) q f e = f a s q
Leaves-weaken Q E Q' E' (s, err x) q f e = e s q

pub Kept-Kept :
    {m m' m'' : Mem} {lo hi : ℕ} → Kept m m' lo hi → Kept m' m'' lo hi → Kept m m'' lo hi
Kept-Kept f g i h = g i h ∙ f i h

pub Kept-widen :
    {m m' : Mem} (lo hi : ℕ) {lo' hi' : ℕ}
    → Kept m m' lo hi
    → lo' ≤ lo
    → hi ≤ hi'
    → Kept m m' lo' hi'
Kept-widen lo hi f a b i h = f i (ground arith)

At-cons : (m : Mem) (off x : ℕ) (d : List ℕ) → m off ≡ x → At m (off + 1) d → At m off (x ∷ d)
At-cons m off x d e h zero b = subst (λ z. m z ≡ x) (omega arith) e
At-cons m off x d e h (suc i) b = subst (λ z. m z ≡ nth d i) (omega arith) (h i (omega arith))

At-tail : (m : Mem) (off x : ℕ) (d : List ℕ) → At m off (x ∷ d) → At m (off + 1) d
At-tail m off x d h i b = subst (λ z. m z ≡ nth d i) (omega arith) (h (suc i) (omega arith))

pub At-append :
    (m : Mem) (off : ℕ) (d e : List ℕ) → At m off (d ++ e) → At m off d × At m (off + length d) e
At-append m off [] e h =
    ((λ i b. absurd (omega arith)), λ i b. subst (λ z. m z ≡ nth e i) (omega arith) (h i b))
At-append m off (x ∷ d) e h =
    let (hd, he) = At-append m (off + 1) d e (At-tail m off x (d ++ e) h) in
    (
      At-cons m off x d (subst (λ z. m z ≡ x) (omega arith) (h 0 (omega arith))) hd,
      λ i b. subst (λ z. m z ≡ nth e i) (omega arith) (he i b),
    )

pub read-At : (m : Mem) (off : ℕ) (d : List ℕ) → At m off d → read m off (length d) ≡ d
unfolding read
read-At m off [] h = refl
read-At m off (x ∷ d) h =
    ap₂ (λ a b. a ∷ b) (subst (λ z. m z ≡ x) (omega arith) (h 0 (omega arith)))
      (read-At m (off + 1) d (At-tail m off x d h))

module _ {S : Type 0} (ee : Eeprom S) where
  -- A write that succeeds, and one that fails.
  abbrev pub Wrote : S → ℕ → List ℕ → Unit {0} → S → Type 0
  Wrote s off d u s' = Kept (ee.bytes s) (ee.bytes s') off (off + length d) × At (ee.bytes s') off d

  abbrev pub Tore : S → ℕ → List ℕ → S → Type 0
  Tore s off d s' =
      Kept (ee.bytes s) (ee.bytes s') off (off + length d) × Torn (ee.bytes s) (ee.bytes s') off d

  pub put-Leaves :
      (off : ℕ) (d : List ℕ) (s : S) → Leaves (Wrote s off d) (Tore s off d) (put ee off d s)
  unfolding put
  put-Leaves off d s =
      let kept : Kept (ee.bytes s) (ee.bytes (ee.write s off d).0) off (off + length d) =
        λ i h. elim h [ inl b ↦ ee.below s off d i b | inr a ↦ ee.above s off d i a ] in
      elim (Bool-cases (ee.write s off d).1) [
        | inl t ↦ rw (t) (kept, λ i b. ee.written s off d i t b)
        | inr f ↦ rw (f) (kept, ee.torn s off d f)
      ]
