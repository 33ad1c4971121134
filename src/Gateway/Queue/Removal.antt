-- ===== src/Gateway/Queue/Removal.antt =====
-- The removals of many items at once: expiry, and the items of a removed node.
use tower.Prelude.{
  ℕ, ◌+◌, ◌≡◌, ◌⊎◌, ◌↔◌, inl, inr, refl, ap, ◌∙◌, Bool, true, false, none, some, List, [], ◌∷◌,
  ◌==◌, if◌then◌else◌, Bool-cases, arith,
}
use tower.Gateway.Queue.{
  Item, Slots, Queue, has_id, count_slots, count_for, len, len_slots, clear, drop_node, expired,
  expire, reports,
}
use tower.Gateway.Queue.Slots.{
  item_of, Distinct, kept, item_of-clear, clear-Distinct, count-clear-le, length-clear,
}
use tower.Gateway.Queue.Contents.{IsValid}

clear-IsValid :
    (gone : Item → Bool) (q : Queue) → IsValid q → IsValid (record q { slots = clear gone q.slots })
unfolding count_for
clear-IsValid gone q v = record {
  room = length-clear gone q.slots ∙ v.room;
  distinct = clear-Distinct gone q.slots v.distinct;
  next_fits = v.next_fits;
  fair = λ n. omega (arith, count-clear-le gone n q.slots, v.fair n);
}

item_of-has_id : (id : ℕ) (s : Slots) (it : Item) → item_of id s ≡ some it → has_id id s ≡ true
unfolding item_of has_id
item_of-has_id id [] it e = absurd (cc)
item_of-has_id id (none ∷ s) it e = item_of-has_id id s it e
item_of-has_id id (some x ∷ s) it e = ground (arith, item_of-has_id id s it)

-- An entry of the reports on expired items.
abbrev pub Reported : ℕ × ℕ → List (ℕ × ℕ) → Type 0
Reported r [] = ⊥
Reported r (x ∷ xs) = (r ≡ x) ⊎ Reported r xs

-- There is an expired item with that id and node.
abbrev pub Expired : ℕ → Slots → ℕ → ℕ → Type 0
Expired now_ms s id node =
    (it : Item) × (item_of id s ≡ some it) × (it.node_addr ≡ node) × (expired it now_ms ≡ true)

Expired-later :
    (now_ms id node : ℕ) (x : Item) (s : Slots)
    → has_id x.id s ≡ false
    → Expired now_ms s id node
    → Expired now_ms (some x ∷ s) id node
unfolding item_of
Expired-later now_ms id node x s d (it, at, n, e) =
    (it, ground (arith, item_of-has_id id s it at), n, e)

Reported-if :
    (r x : ℕ × ℕ) (l : List (ℕ × ℕ)) (b : Bool)
    → Reported r (if b then x ∷ l else l) ↔ ((b ≡ true) × (r ≡ x)) ⊎ Reported r l
Reported-if r x l true = (
  λ h. elim h [ inl e ↦ inl (refl, e) | inr l ↦ inr l ],
  λ h. elim h [ inl (t, e) ↦ inl e | inr l ↦ inr l ],
)
Reported-if r x l false = (λ h. inr h, λ h. elim h [ inl (t, e) ↦ absurd (cc) | inr l ↦ l ])

reports-item_of :
    (now_ms id node : ℕ) (s : Slots)
    → Distinct s
    → Reported (id, node) (reports now_ms s)
    → Expired now_ms s id node
unfolding reports item_of
reports-item_of now_ms id node [] d h = absurd h
reports-item_of now_ms id node (none ∷ s) d h = reports-item_of now_ms id node s d h
reports-item_of now_ms id node (some x ∷ s) d h =
    elim ((Reported-if _ _ _ (expired x now_ms)).0 h) [
      | inl (e, same) ↦
          let same_id : id ≡ x.id = ap (λ r. r.0) same in
          let same_node : node ≡ x.node_addr = ap (λ r. r.1) same in
          (x, ground arith, ground arith, e)
      | inr later ↦
          Expired-later now_ms id node x s d.0 (reports-item_of now_ms id node s d.1 later)
    ]

item_of-reports :
    (now_ms id node : ℕ) (s : Slots)
    → Expired now_ms s id node
    → Reported (id, node) (reports now_ms s)
unfolding reports item_of
item_of-reports now_ms id node [] (it, at, n, e) = absurd (cc)
item_of-reports now_ms id node (none ∷ s) (it, at, n, e) =
    item_of-reports now_ms id node s (it, at, n, e)
item_of-reports now_ms id node (some x ∷ s) (it, at, n, e) =
    (Reported-if _ _ _ (expired x now_ms)).1 (elim (Bool-cases (x.id == id)) [
      | inl here ↦ let same : x ≡ it = ground arith in inl (cc, ground (arith, same, n))
      | inr ne ↦ inr (item_of-reports now_ms id node s (it, ground arith, n, e))
    ])

-- From a valid queue, `expire` removes exactly the items whose time is up, changes no other, and
-- reports the id and node of a removed item and of no other.
pub expire_lem :
    (q : Queue) (now_ms : ℕ)
    → IsValid q
    → let (q', told) = expire q now_ms in
      IsValid q'
      × ((id : ℕ) → item_of id q'.slots ≡ kept (λ it. expired it now_ms) (item_of id q.slots))
      × ((id node : ℕ) → Reported (id, node) told ↔ Expired now_ms q.slots id node)
unfolding expire
expire_lem q now_ms v = (
  clear-IsValid (λ it. expired it now_ms) q v,
  λ id. item_of-clear (λ it. expired it now_ms) id q.slots v.distinct,
  λ id node.
      (reports-item_of now_ms id node q.slots v.distinct, item_of-reports now_ms id node q.slots),
)

count-clear :
    (node n : ℕ) (s : Slots)
    → count_slots n (clear (λ it. it.node_addr == node) s)
      ≡ (if n == node then 0 else count_slots n s)
unfolding clear count_slots
count-clear node n [] = ground arith
count-clear node n (none ∷ s) = count-clear node n s
count-clear node n (some it ∷ s) = ground (arith, count-clear node n s)

len_slots-clear :
    (node : ℕ) (s : Slots)
    → len_slots (clear (λ it. it.node_addr == node) s) + count_slots node s ≡ len_slots s
unfolding clear count_slots len_slots
len_slots-clear node [] = refl
len_slots-clear node (none ∷ s) = len_slots-clear node s
len_slots-clear node (some it ∷ s) = ground (arith, len_slots-clear node s)

-- From a valid queue, `drop_node` removes exactly the items of the node and returns how many they
-- were; each other node keeps its count.
pub drop_node_lem :
    (q : Queue) (node : ℕ)
    → IsValid q
    → let (q', dropped) = drop_node q node in
      IsValid q'
      × ((id : ℕ) → item_of id q'.slots ≡ kept (λ it. it.node_addr == node) (item_of id q.slots))
      × ((n : ℕ) → count_for q' n ≡ (if n == node then 0 else count_for q n))
      × (len q' + dropped ≡ len q)
unfolding drop_node count_for len
drop_node_lem q node v = (
  clear-IsValid (λ it. it.node_addr == node) q v,
  λ id. item_of-clear (λ it. it.node_addr == node) id q.slots v.distinct,
  λ n. count-clear node n q.slots,
  len_slots-clear node q.slots,
)
