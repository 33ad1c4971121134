-- ===== src/Gateway/Queue/Fifo.antt =====
-- The order in which a node is offered its items: oldest first, by the stamps of `push`.
use tower.Prelude.{
  ℕ, ◌+◌, ◌%◌, ◌^◌, ◌≤◌, ◌<◌, ◌≡◌, inl, inr, Bool, true, Option, none, some, List, [], ◌∷◌, ◌==◌,
  leb, ltb, ◌&&◌, ◌||◌, not, if◌then◌else◌, Bool-cases, Option-cases, length, arith,
}
use tower.Gateway.Queue.{
  Item, Slots, Queue, has_id, count_for, per_node_cap, max_item, ok, free_id, id_fuel, put, push,
  expired, peek_slots, peek_for,
}
use tower.Gateway.Queue.Contents.{pushed}
use tower.Gateway.Queue.Slots.{item_of, Distinct, Put, put-Put}

-- Every queued item was stamped before `n`.
abbrev pub Before : ℕ → Slots → Type 0
Before n [] = Unit {0}
Before n (none ∷ s) = Before n s
Before n (some it ∷ s) = (it.order < n) × Before n s

-- An item that a node can be offered.
abbrev pub pending : ℕ → ℕ → Item → Bool
pending node now_ms it = it.node_addr == node && not (expired it now_ms)

peek_slots-Before :
    (node now_ms n : ℕ) (s : Slots) (it : Item)
    → Before n s
    → peek_slots node now_ms s ≡ some it
    → (it.order < n) × (pending node now_ms it ≡ true)
unfolding peek_slots
peek_slots-Before node now_ms n [] it b e = absurd (cc)
peek_slots-Before node now_ms n (none ∷ s) it b e = peek_slots-Before node now_ms n s it b e
peek_slots-Before node now_ms n (some x ∷ s) it b e =
    elim (Option-cases (peek_slots node now_ms s)) [
      | inl e' ↦ ground (arith, b.0)
      | inr (y, e') ↦ ground (arith, b.0, peek_slots-Before node now_ms n s y b.1 e')
    ]

peek_slots-pending :
    (node now_ms : ℕ) (s : Slots) (it : Item)
    → peek_slots node now_ms s ≡ some it
    → pending node now_ms it ≡ true
unfolding peek_slots
peek_slots-pending node now_ms [] it e = absurd (cc)
peek_slots-pending node now_ms (none ∷ s) it e = peek_slots-pending node now_ms s it e
peek_slots-pending node now_ms (some x ∷ s) it e = elim (Option-cases (peek_slots node now_ms s)) [
  | inl e' ↦ ground arith
  | inr (y, e') ↦ ground (arith, peek_slots-pending node now_ms s y e')
]

-- The offer after a push of `it`: it comes after all that is pending.
abbrev pub appended : Option Item → Bool → Item → Option Item
appended (some x) mine it = some x
appended none mine it = if mine then some it else none

Put-peek_slots :
    {it : Item} {s s' : Slots} (node now_ms : ℕ)
    → Put it s s'
    → Before it.order s
    → peek_slots node now_ms s' ≡ appended (peek_slots node now_ms s) (pending node now_ms it) it
unfolding peek_slots
Put-peek_slots {it} node now_ms (Put.here {s}) b = elim (Option-cases (peek_slots node now_ms s)) [
  | inl e ↦ rw e (ground arith)
  | inr (y, e) ↦ rw e (ground (arith, peek_slots-Before node now_ms it.order s y b e))
]
Put-peek_slots {it} node now_ms (Put.there {x} {s} {t} p) b =
    let rest = Put-peek_slots node now_ms p b.1 in
    elim (Option-cases (peek_slots node now_ms s)) [
      | inl e ↦ rw (rest, e) (ground (arith, b.0))
      | inr (y, e) ↦ rw (rest, e) (ground arith)
    ]

-- A push that answers with an id has stored its item in the first empty slot.
push-put :
    (q q' : Queue) (node ttl : ℕ) (bytes : List ℕ) (now_ms id : ℕ)
    → push q node ttl bytes now_ms ≡ (q', ok id)
    → (put (pushed q node ttl bytes now_ms id) q.slots ≡ some q'.slots)
      × (q'.next_order ≡ (q.next_order + 1) % 2 ^ 32)
unfolding push
push-put q q' node ttl bytes now_ms id e =
    elim (Bool-cases (length bytes == 0 || ltb max_item (length bytes))) [
      | inl bad ↦ absurd (ground arith)
      | inr good ↦ elim (Bool-cases (leb per_node_cap (count_for q node))) [
        | inl many ↦ absurd (ground arith)
        | inr few ↦
            elim (Option-cases
              (put (pushed q node ttl bytes now_ms (free_id id_fuel q.slots q.next_id)) q.slots)) [
                | inl n ↦ absurd (ground arith)
                | inr (s, p) ↦ ground arith
              ]
      ]
    ]

Before-le : (m n : ℕ) (s : Slots) → m ≤ n → Before m s → Before n s
Before-le m n [] h b = tt
Before-le m n (none ∷ s) h b = Before-le m n s h b
Before-le m n (some it ∷ s) h b = (omega (arith, b.0), Before-le m n s h b.1)

Put-Before :
    {it : Item} {s s' : Slots} (n : ℕ)
    → Put it s s'
    → it.order < n
    → Before it.order s
    → Before n s'
Put-Before {it} n (Put.here {s}) h b = (h, Before-le it.order n s (omega arith) b)
Put-Before {it} n (Put.there {x} {s} {t} p) h b = (omega (arith, b.0), Put-Before n p h b.1)

-- While the stamps do not wrap, a node that has something pending is offered the same item before and
-- after a push; a node that has nothing pending is offered the new item, if it is the node's and its
-- time is not up. The stamps stay below the next one.
pub push-peek_for :
    (q q' : Queue) (node ttl : ℕ) (bytes : List ℕ) (now_ms id : ℕ)
    → Before q.next_order q.slots
    → q.next_order + 1 < 2 ^ 32
    → push q node ttl bytes now_ms ≡ (q', ok id)
    → Before q'.next_order q'.slots
      × ((to later_ms : ℕ)
          → let it = pushed q node ttl bytes now_ms id in
            peek_for q' to later_ms ≡ appended (peek_for q to later_ms) (pending to later_ms it) it)
unfolding peek_for
push-peek_for q q' node ttl bytes now_ms id b small e =
    let (stored_at, stamp) = push-put q q' node ttl bytes now_ms id e in
    let p = put-Put (pushed q node ttl bytes now_ms id) q.slots q'.slots stored_at in
    (Put-Before q'.next_order p (omega arith) b, λ to later_ms. Put-peek_slots to later_ms p b)

has_id-item_of : (id : ℕ) (s : Slots) (it : Item) → item_of id s ≡ some it → has_id id s ≡ true
unfolding item_of has_id
has_id-item_of id [] it e = absurd (cc)
has_id-item_of id (none ∷ s) it e = has_id-item_of id s it e
has_id-item_of id (some x ∷ s) it e = ground (arith, has_id-item_of id s it)

peek_slots-item_of :
    (node now_ms : ℕ) (s : Slots) (it : Item)
    → Distinct s
    → peek_slots node now_ms s ≡ some it
    → item_of it.id s ≡ some it
unfolding peek_slots item_of
peek_slots-item_of node now_ms [] it d e = absurd (cc)
peek_slots-item_of node now_ms (none ∷ s) it d e = peek_slots-item_of node now_ms s it d e
peek_slots-item_of node now_ms (some x ∷ s) it d e =
    elim (Option-cases (peek_slots node now_ms s)) [
      | inl e' ↦ ground arith
      | inr (y, e') ↦
          let found = peek_slots-item_of node now_ms s y d.1 e' in
          ground (arith, found, d.0, has_id-item_of y.id s y found)
    ]

peek_slots-oldest :
    (node now_ms id : ℕ) (s : Slots) (x : Item)
    → item_of id s ≡ some x
    → pending node now_ms x ≡ true
    → (it : Item) × (peek_slots node now_ms s ≡ some it) × (it.order ≤ x.order)
unfolding peek_slots item_of
peek_slots-oldest node now_ms id [] x e p = absurd (cc)
peek_slots-oldest node now_ms id (none ∷ s) x e p = peek_slots-oldest node now_ms id s x e p
peek_slots-oldest node now_ms id (some y ∷ s) x e p = elim (Bool-cases (y.id == id)) [
  | inl here ↦
      let same : y ≡ x = ground arith in
      elim (Option-cases (peek_slots node now_ms s)) [
        | inl e' ↦ (y, ground (arith, same), ground (arith, same))
        | inr (z, e') ↦ elim (Bool-cases (leb y.order z.order)) [
          | inl le ↦ (y, ground (arith, same), ground (arith, same))
          | inr gt ↦ (z, ground (arith, same), ground (arith, same))
        ]
      ]
  | inr other ↦
      let (z, e', le) = peek_slots-oldest node now_ms id s x (ground arith) p in
      elim (Bool-cases (pending node now_ms y && leb y.order z.order)) [
        | inl first ↦ (y, ground arith, ground arith)
        | inr later ↦ (z, ground arith, le)
      ]
]

-- When a queued item of a node is pending, the node is offered a queued, pending item of its own, and
-- no pending item was stamped earlier.
pub peek_for-oldest :
    (q : Queue) (node now_ms id : ℕ) (x : Item)
    → Distinct q.slots
    → item_of id q.slots ≡ some x
    → pending node now_ms x ≡ true
    → (it : Item) × (peek_for q node now_ms ≡ some it)
      × (it.order ≤ x.order)
      × (item_of it.id q.slots ≡ some it)
      × (pending node now_ms it ≡ true)
unfolding peek_for
peek_for-oldest q node now_ms id x d e p =
    let (it, found, le) = peek_slots-oldest node now_ms id q.slots x e p in
    (
      it,
      found,
      le,
      peek_slots-item_of node now_ms q.slots it d found,
      peek_slots-pending node now_ms q.slots it found,
    )
