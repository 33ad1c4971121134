-- ===== src/Gateway/Queue/Slots.antt =====
-- The pool of slots as a finite map from ids to items.
use tower.Prelude.{
  ℕ, suc, ◌+◌, ◌≤◌, ◌≡◌, refl, ap, subst, ◌↔◌, Option-cases, Bool, false, ◌||◌, Option, none, some,
  [], ◌∷◌, ◌==◌, length, if◌then◌else◌, Bool-cases, inl, inr, arith,
}
use tower.Gateway.Queue.{Item, Slots, has_id, count_slots, len_slots, put, take_id, clear}

pub len_slots-le : (s : Slots) → len_slots s ≤ length s
unfolding len_slots
len_slots-le [] = omega arith
len_slots-le (none ∷ s) = omega (arith, len_slots-le s)
len_slots-le (some x ∷ s) = omega (arith, len_slots-le s)

-- The item with an id.
unfoldable pub item_of : ℕ → Slots → Option Item
item_of id [] = none
item_of id (none ∷ s) = item_of id s
item_of id (some it ∷ s) = if it.id == id then some it else item_of id s

-- No two items share an id.
abbrev pub Distinct : Slots → Type 0
Distinct [] = Unit {0}
Distinct (none ∷ s) = Distinct s
Distinct (some it ∷ s) = (has_id it.id s ≡ false) × Distinct s

pub item_of-none : (id : ℕ) (s : Slots) → has_id id s ≡ false → item_of id s ≡ none
unfolding item_of has_id
item_of-none id [] h = refl
item_of-none id (none ∷ s) h = item_of-none id s h
item_of-none id (some it ∷ s) h = ground (arith, item_of-none id s)

-- The first empty slot takes the item.
pub data Put (it : Item) : Slots → Slots → Type 0 where
  here : {s : Slots} → Put it (none ∷ s) (some it ∷ s)
  there : {x : Item} {s t : Slots} → Put it s t → Put it (some x ∷ s) (some x ∷ t)

pub put-Put : (it : Item) (s s' : Slots) → put it s ≡ some s' → Put it s s'
unfolding put
put-Put it [] s' e = absurd (cc)
put-Put it (none ∷ s) s' e = subst (Put it (none ∷ s)) (ground arith) here
put-Put it (some x ∷ s) s' e = elim (Option-cases (put it s)) [
  | inl n ↦ absurd (ground arith)
  | inr (t, p) ↦ subst (Put it (some x ∷ s)) (ground arith) (there (put-Put it s t p))
]

-- It finds one unless every slot is taken.
pub put-none_iff : (it : Item) (s : Slots) → (put it s ≡ none) ↔ (length s ≤ len_slots s)
unfolding put len_slots
put-none_iff it [] = ground arith
put-none_iff it (none ∷ s) = ground (arith, len_slots-le s)
put-none_iff it (some x ∷ s) = ground (arith, put-none_iff it s)

pub Put-item_of :
    {it : Item} {s s' : Slots} (j : ℕ)
    → Put it s s'
    → has_id it.id s ≡ false
    → item_of j s' ≡ (if it.id == j then some it else item_of j s)
unfolding item_of has_id
Put-item_of {it} j (here {s}) h = ground arith
Put-item_of {it} j (there {x} {s} {t} p) h = ground (arith, Put-item_of j p)

pub Put-has_id :
    {it : Item} {s s' : Slots} (j : ℕ) → Put it s s' → has_id j s' ≡ (it.id == j || has_id j s)
unfolding has_id
Put-has_id {it} j (here {s}) = refl
Put-has_id {it} j (there {x} {s} {t} p) = ground (arith, Put-has_id j p)

pub Put-Distinct :
    {it : Item} {s s' : Slots} → Put it s s' → has_id it.id s ≡ false → Distinct s → Distinct s'
unfolding has_id
Put-Distinct {it} (here {s}) h d = (h, d)
Put-Distinct {it} (there {x} {s} {t} p) h d =
    (ground (arith, Put-has_id x.id p), Put-Distinct p (ground arith) d.1)

pub Put-count_slots :
    {it : Item} {s s' : Slots} (n : ℕ)
    → Put it s s'
    → count_slots n s' ≡ (if it.node_addr == n then 1 else 0) + count_slots n s
unfolding count_slots
Put-count_slots {it} n (here {s}) = refl
Put-count_slots {it} n (there {x} {s} {t} p) = omega (arith, Put-count_slots n p)

pub Put-length : {it : Item} {s s' : Slots} → Put it s s' → length s' ≡ length s
Put-length here = refl
Put-length (there p) = ap suc (Put-length p)

-- The slots without the item of one id, or without all that satisfy a test.
pub take_id-item_of :
    (id : ℕ) (s : Slots)
    → Distinct s
    → let (s', out) = take_id id s in (out ≡ item_of id s) × (length s' ≡ length s)
unfolding take_id item_of
take_id-item_of id [] d = (refl, refl)
take_id-item_of id (none ∷ s) d = ground (arith, take_id-item_of id s d)
take_id-item_of id (some it ∷ s) d = ground (arith, take_id-item_of id s d.1)

pub item_of-take_id :
    (id j : ℕ) (s : Slots)
    → Distinct s
    → item_of j (take_id id s).0 ≡ (if id == j then none else item_of j s)
unfolding take_id item_of
item_of-take_id id j [] d = ground arith
item_of-take_id id j (none ∷ s) d = item_of-take_id id j s d
item_of-take_id id j (some it ∷ s) d =
    ground (arith, item_of-take_id id j s d.1, item_of-none it.id s d.0)

pub has_id-take_id : (id j : ℕ) (s : Slots) → has_id j s ≡ false → has_id j (take_id id s).0 ≡ false
unfolding take_id has_id
has_id-take_id id j [] h = refl
has_id-take_id id j (none ∷ s) h = has_id-take_id id j s h
has_id-take_id id j (some it ∷ s) h = ground (arith, has_id-take_id id j s)

pub take_id-Distinct : (id : ℕ) (s : Slots) → Distinct s → Distinct (take_id id s).0
unfolding take_id
take_id-Distinct id [] d = tt
take_id-Distinct id (none ∷ s) d = take_id-Distinct id s d
take_id-Distinct id (some it ∷ s) d = elim (Bool-cases (it.id == id)) [
  | inl e ↦ rw (e, take_id) d.1
  | inr e ↦ rw (e, take_id) (has_id-take_id id it.id s d.0, take_id-Distinct id s d.1)
]

pub count-take_id-le : (id n : ℕ) (s : Slots) → count_slots n (take_id id s).0 ≤ count_slots n s
unfolding take_id count_slots
count-take_id-le id n [] = omega arith
count-take_id-le id n (none ∷ s) = count-take_id-le id n s
count-take_id-le id n (some it ∷ s) = ground (arith, count-take_id-le id n s)

-- An item that satisfies the test is gone.
abbrev pub kept : (Item → Bool) → Option Item → Option Item
kept gone none = none
kept gone (some it) = if gone it then none else some it

module _ (gone : Item → Bool) where
  pub has_id-clear : (j : ℕ) (s : Slots) → has_id j s ≡ false → has_id j (clear gone s) ≡ false
  unfolding clear has_id
  has_id-clear j [] h = refl
  has_id-clear j (none ∷ s) h = has_id-clear j s h
  has_id-clear j (some it ∷ s) h = ground (arith, has_id-clear j s)

  pub item_of-clear :
      (j : ℕ) (s : Slots) → Distinct s → item_of j (clear gone s) ≡ kept gone (item_of j s)
  unfolding clear item_of
  item_of-clear j [] d = refl
  item_of-clear j (none ∷ s) d = item_of-clear j s d
  item_of-clear j (some it ∷ s) d = ground (arith, item_of-clear j s d.1, item_of-none it.id s d.0)

  pub clear-Distinct : (s : Slots) → Distinct s → Distinct (clear gone s)
  unfolding clear
  clear-Distinct [] d = tt
  clear-Distinct (none ∷ s) d = clear-Distinct s d
  clear-Distinct (some it ∷ s) d = elim (Bool-cases (gone it)) [
    | inl e ↦ rw (e, clear) (clear-Distinct s d.1)
    | inr e ↦ rw (e, clear) (has_id-clear it.id s d.0, clear-Distinct s d.1)
  ]

  pub count-clear-le : (n : ℕ) (s : Slots) → count_slots n (clear gone s) ≤ count_slots n s
  unfolding clear count_slots
  count-clear-le n [] = omega arith
  count-clear-le n (none ∷ s) = count-clear-le n s
  count-clear-le n (some it ∷ s) = ground (arith, count-clear-le n s)

  pub length-clear : (s : Slots) → length (clear gone s) ≡ length s
  unfolding clear
  length-clear [] = refl
  length-clear (none ∷ s) = ap suc (length-clear s)
  length-clear (some it ∷ s) = ap suc (length-clear s)
