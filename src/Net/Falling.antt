-- ===== src/Net/Falling.antt =====
-- Lists of numbers that fall strictly, under a bound.
use tower.Prelude.{ℕ, zero, suc, ◌≤◌, ◌<◌, ◌≡◌, refl, ap, some, List, [], ◌∷◌, get_elem?, arith}

abbrev pub Falling : ℕ → List ℕ → Type 0
Falling n [] = Unit {0}
Falling n (c ∷ cs) = (c < n) × Falling c cs

pub Falling-mono : (m n : ℕ) (cs : List ℕ) → m ≤ n → Falling m cs → Falling n cs
Falling-mono m n [] h f = tt
Falling-mono m n (c ∷ cs) h f = (omega arith, f.1)

pub Falling-get_elem? :
    (n : ℕ) (cs : List ℕ) (p c : ℕ) → Falling n cs → get_elem? cs p ≡ some c → c < n
Falling-get_elem? n [] p c f e = absurd (cc)
Falling-get_elem? n (x ∷ cs) zero c f e = let same : x ≡ c = ground arith in omega (arith, f.0)
Falling-get_elem? n (x ∷ cs) (suc p) c f e = omega (arith, f.0, Falling-get_elem? x cs p c f.1 e)

-- A number stands at one place only.
pub Falling-places :
    (n : ℕ) (cs : List ℕ) (p q c d : ℕ)
    → Falling n cs
    → get_elem? cs p ≡ some c
    → get_elem? cs q ≡ some d
    → c ≡ d
    → p ≡ q
Falling-places n [] p q c d f e e' same = absurd (cc)
Falling-places n (x ∷ cs) zero zero c d f e e' same = refl
Falling-places n (x ∷ cs) zero (suc q) c d f e e' same =
    let first : x ≡ c = ground arith in absurd (omega (arith, Falling-get_elem? x cs q d f.1 e'))
Falling-places n (x ∷ cs) (suc p) zero c d f e e' same =
    let first : x ≡ d = ground arith in absurd (omega (arith, Falling-get_elem? x cs p c f.1 e))
Falling-places n (x ∷ cs) (suc p) (suc q) c d f e e' same =
    ap (λ i. suc i) (Falling-places x cs p q c d f.1 e e' same)
