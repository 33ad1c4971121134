-- ===== src/Gateway/Queue/Ids.antt =====
-- The search for a free item id ends: more ids than items are tried, and they differ.
use tower.Prelude.{
  ℕ, zero, suc, ◌+◌, ◌-◌, ◌%◌, ◌≤◌, ◌<◌, ◌≡◌, ◌≢◌, ap, sym, ◌∙◌, true, false, none, some, [], ◌∷◌,
  ◌==◌, if◌then◌else◌, Bool-cases, inl, inr, arith,
}
use tower.Gateway.Queue.{Slots, has_id, len_slots, next_id_after, free_id}

abbrev pub IsId : ℕ → Type 0
IsId id = (1 ≤ id) × (id ≤ 65535)

-- The id that is tried `k` steps after `id`.
tried : ℕ → ℕ → ℕ
tried id k = (id - 1 + k) % 65535 + 1

pub next_id_after-IsId : (id : ℕ) → IsId id → IsId (next_id_after id)
unfolding next_id_after
next_id_after-IsId id h = ground arith

tried_next : (id k : ℕ) → IsId id → tried (next_id_after id) k ≡ tried id (k + 1)
unfolding tried next_id_after
tried_next id k h = ground arith

tried-injective : (id i j : ℕ) → i < 65535 → j < 65535 → tried id i ≡ tried id j → i ≡ j
unfolding tried
tried-injective id i j hi hj e = omega arith

-- Empties the first slot with that id.
without : ℕ → Slots → Slots
without id [] = []
without id (none ∷ s) = none ∷ without id s
without id (some it ∷ s) = if it.id == id then none ∷ s else some it ∷ without id s

len_slots-without :
    (id : ℕ) (s : Slots) → has_id id s ≡ true → len_slots (without id s) + 1 ≡ len_slots s
unfolding without has_id len_slots
len_slots-without id [] h = absurd (cc)
len_slots-without id (none ∷ s) h = len_slots-without id s h
len_slots-without id (some it ∷ s) h = ground (arith, len_slots-without id s)

has_id-without :
    (id j : ℕ) (s : Slots) → j ≢ id → has_id j s ≡ true → has_id j (without id s) ≡ true
unfolding without has_id
has_id-without id j [] ne h = h
has_id-without id j (none ∷ s) ne h = has_id-without id j s ne h
has_id-without id j (some it ∷ s) ne h = ground (arith, has_id-without id j s ne)

-- If `n` different ids are all taken, there are `n` items.
pigeonhole :
    (n : ℕ) (f : ℕ → ℕ) (s : Slots)
    → ((i j : ℕ) → i < n → j < n → f i ≡ f j → i ≡ j)
    → ((i : ℕ) → i < n → has_id (f i) s ≡ true)
    → n ≤ len_slots s
pigeonhole zero f s inj all = omega arith
pigeonhole (suc n) f s inj all =
    let fewer =
      pigeonhole n f (without (f n) s) (λ i j hi hj. inj i j (omega arith) (omega arith))
        (λ i h.
          has_id-without (f n) (f i) s
            (λ e. absurd (omega (arith, inj i n (omega arith) (omega arith) e)))
            (all i (omega arith))) in
    omega (arith, len_slots-without (f n) s (all n (omega arith)))

free_id-IsId : (fuel : ℕ) (s : Slots) (id : ℕ) → IsId id → IsId (free_id fuel s id)
unfolding free_id
free_id-IsId zero s id h = h
free_id-IsId (suc fuel) s id h =
    ground (arith, free_id-IsId fuel s (next_id_after id), next_id_after-IsId id h)

tried_zero : (id : ℕ) → IsId id → tried id 0 ≡ id
unfolding tried
tried_zero id h = omega arith

free_id-start :
    (fuel : ℕ) (s : Slots) (id : ℕ) → has_id (free_id fuel s id) s ≡ true → has_id id s ≡ true
unfolding free_id
free_id-start zero s id h = h
free_id-start (suc fuel) s id h = elim (Bool-cases (has_id id s)) [
  | inl taken ↦ taken
  | inr open_id ↦ ground arith
]

-- If the search gives back a taken id, all that it tried are taken.
free_id-taken :
    (fuel : ℕ) (s : Slots) (id k : ℕ)
    → IsId id
    → has_id (free_id fuel s id) s ≡ true
    → k < suc fuel
    → has_id (tried id k) s ≡ true
unfolding free_id
free_id-taken fuel s id zero v h low = rw (tried_zero id v) (free_id-start fuel s id h)
free_id-taken zero s id (suc k) v h low = absurd (omega arith)
free_id-taken (suc fuel) s id (suc k) v h low =
    let taken = free_id-start (suc fuel) s id h in
    let later =
      free_id-taken fuel s (next_id_after id) k (next_id_after-IsId id v) (ground arith)
        (omega arith) in
    let same : tried id (suc k) ≡ tried (next_id_after id) k =
      ap (tried id) (omega arith) ∙ sym (tried_next id k v) in
    rw same later

-- With at least as much fuel as there are items, the search for an id ends at a valid id that no
-- queued item has.
pub free_id_lem :
    (fuel : ℕ) (s : Slots) (id : ℕ)
    → len_slots s ≤ fuel
    → fuel < 65535
    → IsId id
    → IsId (free_id fuel s id) × (has_id (free_id fuel s id) s ≡ false)
free_id_lem fuel s id few small v = elim (Bool-cases (has_id (free_id fuel s id) s)) [
  | inl taken ↦
      let many =
        pigeonhole (suc fuel) (tried id) s
          (λ i j hi hj e. tried-injective id i j (omega arith) (omega arith) e)
          (λ k low. free_id-taken fuel s id k v taken low) in
      absurd (omega arith)
  | inr unused ↦ (free_id-IsId fuel s id v, unused)
]
