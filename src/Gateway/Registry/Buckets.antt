-- ===== src/Gateway/Registry/Buckets.antt =====
-- The scans of one bucket.
use tower.Prelude.{
  ℕ, suc, ◌+◌, ◌≤◌, ◌≡◌, refl, ap, subst, false, Option, none, some, [], ◌∷◌, length, ◌==◌,
  if◌then◌else◌, Option-cases, Bool-cases, inl, inr, arith,
}
use tower.Gateway.Registry.{NodeRecord, Bucket, find_in, change_in, remove_in}

-- How many records of a bucket have the address.
unfoldable pub occurs : ℕ → Bucket → ℕ
occurs addr [] = 0
occurs addr (r ∷ b) = (if r.addr == addr then 1 else 0) + occurs addr b

pub find_in-occurs : (addr : ℕ) (b : Bucket) → occurs addr b ≡ 0 → find_in addr b ≡ none
unfolding find_in occurs
find_in-occurs addr [] h = refl
find_in-occurs addr (r ∷ b) h = ground (arith, find_in-occurs addr b)

pub find_in-addr :
    (addr : ℕ) (b : Bucket) (r : NodeRecord) → find_in addr b ≡ some r → r.addr ≡ addr
unfolding find_in
find_in-addr addr [] r e = absurd (cc)
find_in-addr addr (x ∷ b) r e = ground (arith, find_in-addr addr b r)

pub change_in-none :
    (addr : ℕ) (f : NodeRecord → NodeRecord) (b : Bucket)
    → change_in addr f b ≡ none
    → find_in addr b ≡ none
unfolding change_in find_in
change_in-none addr f [] e = refl
change_in-none addr f (r ∷ b) e = elim (Option-cases (change_in addr f b)) [
  | inl e' ↦ ground (arith, change_in-none addr f b e')
  | inr (y, e') ↦ absurd (ground arith)
]

pub remove_in-none : (addr : ℕ) (b : Bucket) → remove_in addr b ≡ none → find_in addr b ≡ none
unfolding remove_in find_in
remove_in-none addr [] e = refl
remove_in-none addr (r ∷ b) e = elim (Option-cases (remove_in addr b)) [
  | inl e' ↦ ground (arith, remove_in-none addr b e')
  | inr (y, e') ↦ absurd (ground arith)
]

abbrev pub mapped : (NodeRecord → NodeRecord) → Option NodeRecord → Option NodeRecord
mapped f none = none
mapped f (some r) = some (f r)

-- The first record of the address is changed, no other.
pub data Changed (addr : ℕ) (f : NodeRecord → NodeRecord) : Bucket → Bucket → Type 0 where
  here : {r : NodeRecord} {b : Bucket} → r.addr ≡ addr → Changed addr f (r ∷ b) (f r ∷ b)
  there :
      {r : NodeRecord} {b b' : Bucket}
      → (r.addr == addr) ≡ false
      → Changed addr f b b'
      → Changed addr f (r ∷ b) (r ∷ b')

pub change_in-Changed :
    (addr : ℕ) (f : NodeRecord → NodeRecord) (b b' : Bucket)
    → change_in addr f b ≡ some b'
    → Changed addr f b b'
unfolding change_in
change_in-Changed addr f [] b' e = absurd (cc)
change_in-Changed addr f (r ∷ b) b' e = elim (Bool-cases (r.addr == addr)) [
  | inl h ↦ subst (Changed addr f (r ∷ b)) (ground arith) (here (ground arith))
  | inr h ↦ elim (Option-cases (change_in addr f b)) [
    | inl n ↦ absurd (ground arith)
    | inr (t, p) ↦
        subst (Changed addr f (r ∷ b)) (ground arith) (there h (change_in-Changed addr f b t p))
  ]
]

module _ {addr : ℕ} {f : NodeRecord → NodeRecord}
    (same : (r : NodeRecord) → r.addr ≡ addr → (f r).addr ≡ addr) where
  pub Changed-find_in :
      {b b' : Bucket} (a : ℕ)
      → Changed addr f b b'
      → find_in a b' ≡ (if a == addr then mapped f (find_in addr b) else find_in a b)
  unfolding find_in
  Changed-find_in a (here {r} {b} h) = ground (arith, same r h)
  Changed-find_in a (there {r} {b} {b'} h p) = elim (Option-cases (find_in addr b)) [
    | inl e ↦ ground (arith, Changed-find_in a p)
    | inr (y, e) ↦ ground (arith, Changed-find_in a p)
  ]

  pub Changed-occurs : {b b' : Bucket} (a : ℕ) → Changed addr f b b' → occurs a b' ≡ occurs a b
  unfolding occurs
  Changed-occurs a (here {r} {b} h) = ground (arith, same r h)
  Changed-occurs a (there {r} {b} {b'} h p) = ground (arith, Changed-occurs a p)

  pub Changed-length : {b b' : Bucket} → Changed addr f b b' → length b' ≡ length b
  Changed-length (here {r} {b} h) = refl
  Changed-length (there {r} {b} {b'} h p) = ap suc (Changed-length p)

pub Changed-found :
    {addr : ℕ} {f : NodeRecord → NodeRecord} {b b' : Bucket}
    → Changed addr f b b'
    → (r : NodeRecord) × (find_in addr b ≡ some r)
unfolding find_in
Changed-found (here {r} {b} h) = (r, ground arith)
Changed-found (there {r} {b} {b'} h p) = let (x, e) = Changed-found p in (x, ground arith)

-- The first record of the address is removed, no other.
pub data Removed (addr : ℕ) : Bucket → Bucket → Type 0 where
  here : {r : NodeRecord} {b : Bucket} → r.addr ≡ addr → Removed addr (r ∷ b) b
  there :
      {r : NodeRecord} {b b' : Bucket}
      → (r.addr == addr) ≡ false
      → Removed addr b b'
      → Removed addr (r ∷ b) (r ∷ b')

pub remove_in-Removed : (addr : ℕ) (b b' : Bucket) → remove_in addr b ≡ some b' → Removed addr b b'
unfolding remove_in
remove_in-Removed addr [] b' e = absurd (cc)
remove_in-Removed addr (r ∷ b) b' e = elim (Bool-cases (r.addr == addr)) [
  | inl h ↦ subst (Removed addr (r ∷ b)) (ground arith) (here (ground arith))
  | inr h ↦ elim (Option-cases (remove_in addr b)) [
    | inl n ↦ absurd (ground arith)
    | inr (t, p) ↦
        subst (Removed addr (r ∷ b)) (ground arith) (there h (remove_in-Removed addr b t p))
  ]
]

pub Removed-find_in :
    {addr : ℕ} {b b' : Bucket} (a : ℕ)
    → Removed addr b b'
    → occurs addr b ≤ 1
    → find_in a b' ≡ (if a == addr then none else find_in a b)
unfolding find_in occurs
Removed-find_in {addr} a (here {r} {b} h) few = ground (arith, find_in-occurs addr b)
Removed-find_in {addr} a (there {r} {b} {b'} h p) few = ground (arith, Removed-find_in a p)

pub Removed-occurs :
    {addr : ℕ} {b b' : Bucket} (a : ℕ)
    → Removed addr b b'
    → (if a == addr then 1 else 0) + occurs a b' ≡ occurs a b
unfolding occurs
Removed-occurs {addr} a (here {r} {b} h) = ground arith
Removed-occurs {addr} a (there {r} {b} {b'} h p) = ground (arith, Removed-occurs a p)

pub Removed-length : {addr : ℕ} {b b' : Bucket} → Removed addr b b' → suc (length b') ≡ length b
Removed-length (here {r} {b} h) = refl
Removed-length (there {r} {b} {b'} h p) = ap suc (Removed-length p)

pub Removed-found :
    {addr : ℕ} {b b' : Bucket} → Removed addr b b' → (r : NodeRecord) × (find_in addr b ≡ some r)
unfolding find_in
Removed-found (here {r} {b} h) = (r, ground arith)
Removed-found (there {r} {b} {b'} h p) = let (x, e) = Removed-found p in (x, ground arith)
