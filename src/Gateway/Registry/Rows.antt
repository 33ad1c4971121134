-- ===== src/Gateway/Registry/Rows.antt =====
-- Buckets in a row, and a record that is put in.
use tower.Prelude.{
  ℕ, suc, ◌+◌, ◌≡◌, refl, ap, none, some, [], ◌∷◌, ◌++◌, length, ◌==◌, if◌then◌else◌, arith,
}
use tower.Gateway.Registry.{NodeRecord, Bucket, find_in}
use tower.Gateway.Registry.Buckets.{occurs, Changed, Removed}

-- A record is put in somewhere.
pub data Inserted (x : NodeRecord) : Bucket → Bucket → Type 0 where
  here : {b : Bucket} → Inserted x b (x ∷ b)
  there : {r : NodeRecord} {b b' : Bucket} → Inserted x b b' → Inserted x (r ∷ b) (r ∷ b')

pub Inserted-find_in :
    {x : NodeRecord} {b b' : Bucket} (a : ℕ)
    → Inserted x b b'
    → find_in x.addr b ≡ none
    → find_in a b' ≡ (if a == x.addr then some x else find_in a b)
unfolding find_in
Inserted-find_in {x} a (here {b}) none_of = ground arith
Inserted-find_in {x} a (there {r} {b} {b'} p) none_of = ground (arith, Inserted-find_in a p)

pub Inserted-occurs :
    {x : NodeRecord} {b b' : Bucket} (a : ℕ)
    → Inserted x b b'
    → occurs a b' ≡ (if x.addr == a then 1 else 0) + occurs a b
unfolding occurs
Inserted-occurs a here = refl
Inserted-occurs {x} a (there {r} p) = omega (arith, Inserted-occurs a p)

pub Inserted-length :
    {x : NodeRecord} {b b' : Bucket} → Inserted x b b' → length b' ≡ suc (length b)
Inserted-length here = refl
Inserted-length (there p) = ap suc (Inserted-length p)

pub occurs-find_in : (a : ℕ) (b : Bucket) → find_in a b ≡ none → occurs a b ≡ 0
unfolding find_in occurs
occurs-find_in a [] e = refl
occurs-find_in a (r ∷ b) e = ground (arith, occurs-find_in a b)

-- On two buckets in a row.
pub find_in-append_none :
    (a : ℕ) (b c : Bucket) → find_in a b ≡ none → find_in a (b ++ c) ≡ find_in a c
unfolding find_in
find_in-append_none a [] c e = refl
find_in-append_none a (r ∷ b) c e = ground (arith, find_in-append_none a b c)

pub find_in-append_some :
    (a : ℕ) (b c : Bucket) (r : NodeRecord) → find_in a b ≡ some r → find_in a (b ++ c) ≡ some r
unfolding find_in
find_in-append_some a [] c r e = absurd (cc)
find_in-append_some a (x ∷ b) c r e = ground (arith, find_in-append_some a b c r)

pub Changed-left :
    {addr : ℕ} {f : NodeRecord → NodeRecord} {b b' : Bucket} (c : Bucket)
    → Changed addr f b b'
    → Changed addr f (b ++ c) (b' ++ c)
Changed-left c (Changed.here h) = Changed.here h
Changed-left c (Changed.there h p) = Changed.there h (Changed-left c p)

pub Changed-right :
    {addr : ℕ} {f : NodeRecord → NodeRecord} {c c' : Bucket} (b : Bucket)
    → find_in addr b ≡ none
    → Changed addr f c c'
    → Changed addr f (b ++ c) (b ++ c')
unfolding find_in
Changed-right [] e p = p
Changed-right (r ∷ b) e p = Changed.there (ground arith) (Changed-right b (ground arith) p)

pub Removed-left :
    {addr : ℕ} {b b' : Bucket} (c : Bucket) → Removed addr b b' → Removed addr (b ++ c) (b' ++ c)
Removed-left c (Removed.here h) = Removed.here h
Removed-left c (Removed.there h p) = Removed.there h (Removed-left c p)

pub Removed-right :
    {addr : ℕ} {c c' : Bucket} (b : Bucket)
    → find_in addr b ≡ none
    → Removed addr c c'
    → Removed addr (b ++ c) (b ++ c')
unfolding find_in
Removed-right [] e p = p
Removed-right (r ∷ b) e p = Removed.there (ground arith) (Removed-right b (ground arith) p)

pub Inserted-left : {x : NodeRecord} (b c : Bucket) → Inserted x (b ++ c) ((b ++ (x ∷ [])) ++ c)
Inserted-left [] c = here
Inserted-left (r ∷ b) c = there (Inserted-left b c)

pub Inserted-right :
    {x : NodeRecord} {c c' : Bucket} (b : Bucket) → Inserted x c c' → Inserted x (b ++ c) (b ++ c')
Inserted-right [] p = p
Inserted-right (r ∷ b) p = there (Inserted-right b p)
