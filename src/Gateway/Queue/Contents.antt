-- ===== src/Gateway/Queue/Contents.antt =====
-- The queue as a bounded map from ids to items: what each operation does to it, on every branch.
use tower.Prelude.{
  ℕ, ◌≤◌, ◌<◌, ◌≡◌, ◌⊎◌, inl, inr, refl, sym, ◌∙◌, false, Option, none, some, List, [], ◌∷◌, ◌==◌,
  leb, ltb, ◌||◌, length, if◌then◌else◌, Bool-cases, arith,
}
use tower.Gateway.Queue.{
  Item, Slots, Queue, queue_cap, per_node_cap, max_item, full, per_node_full, bad_payload, Pushed,
  ok, err, new, has_id, count_slots, count_for, len, len_slots, put, free_id, id_fuel, stored, push,
  pop,
}
use tower.Gateway.Queue.Ids.{IsId, next_id_after-IsId, free_id_lem}
use tower.Gateway.Queue.Slots.{
  item_of, item_of-none, Distinct, put-Put, put-none_iff, len_slots-le, Put-item_of, Put-Distinct,
  Put-count_slots, Put-length, take_id-item_of, item_of-take_id, take_id-Distinct, count-take_id-le,
}

pub record IsValid (q : Queue) : Type 0 where
  pub room : length q.slots ≡ queue_cap
  pub distinct : Distinct q.slots
  pub next_fits : IsId q.next_id
  pub fair : (node : ℕ) → count_for q node ≤ per_node_cap

pub new-IsValid : IsValid new
unfolding new count_for count_slots
new-IsValid = record {
  room = refl;
  distinct = tt;
  next_fits = omega arith;
  fair = λ node. omega arith;
}

-- The items of a node, in the order of the slots.
abbrev pub items_of : ℕ → Slots → List Item
items_of node [] = []
items_of node (none ∷ s) = items_of node s
items_of node (some it ∷ s) =
    let rest = items_of node s in if it.node_addr == node then it ∷ rest else rest

length-items_of : (node : ℕ) (s : Slots) → length (items_of node s) ≡ count_slots node s
unfolding count_slots
length-items_of node [] = refl
length-items_of node (none ∷ s) = length-items_of node s
length-items_of node (some it ∷ s) = elim (Bool-cases (it.node_addr == node)) [
  | inl is ↦ rw (is) (omega (arith, length-items_of node s))
  | inr other ↦ rw (other) (omega (arith, length-items_of node s))
]

count_for-items_of : (q : Queue) (node : ℕ) → count_for q node ≡ length (items_of node q.slots)
unfolding count_for
count_for-items_of q node = sym (length-items_of node q.slots)

module _ (q : Queue) (node ttl : ℕ) (bytes : List ℕ) (now_ms : ℕ) where
  -- the item that a successful push stores
  abbrev pub pushed : ℕ → Item
  pushed id = record {
    id = id;
    node_addr = node;
    enqueued_at_ms = now_ms;
    ttl = ttl;
    order = q.next_order;
    bytes = bytes;
  }

  -- What a push comes to, with the condition of each outcome.
  abbrev pub PushOutcome : Queue × Pushed → Type 0
  PushOutcome (q', out) =
      ((out ≡ err bad_payload) × (q' ≡ q) × ((length bytes ≡ 0) ⊎ (max_item < length bytes)))
      ⊎ ((out ≡ err per_node_full) × (q' ≡ q) × (per_node_cap ≤ length (items_of node q.slots)))
      ⊎ ((out ≡ err full) × (q' ≡ q) × (len q ≡ queue_cap))
      ⊎ ((id : ℕ) × (out ≡ ok id)
          × (IsId id × (item_of id q.slots ≡ none))
          × (length (items_of node q.slots) < per_node_cap)
          × (1 ≤ length bytes)
          × (length bytes ≤ max_item)
          × ((j : ℕ)
              → item_of j q'.slots ≡ (if id == j then some (pushed id) else item_of j q.slots)))

  abbrev fresh : ℕ
  fresh = free_id id_fuel q.slots q.next_id

  stored-IsValid :
      (s : Slots)
      → IsValid q
      → count_for q node < per_node_cap
      → IsId fresh × (has_id fresh q.slots ≡ false)
      → put (pushed fresh) q.slots ≡ some s
      → IsValid (stored q fresh (some s)).0
        × ((j : ℕ) → item_of j s ≡ (if fresh == j then some (pushed fresh) else item_of j q.slots))
  unfolding count_for
  stored-IsValid s v below f e =
      let p = put-Put (pushed fresh) q.slots s e in
      (
        record {
          room = Put-length p ∙ v.room;
          distinct = Put-Distinct p f.1 v.distinct;
          next_fits = next_id_after-IsId fresh f.0;
          fair = λ n. ground (arith, Put-count_slots n p, v.fair n);
        },
        λ j. Put-item_of j p f.1,
      )

  stored-PushOutcome :
      (o : Option Slots)
      → put (pushed fresh) q.slots ≡ o
      → IsValid q
      → count_for q node < per_node_cap
      → 1 ≤ length bytes
      → length bytes ≤ max_item
      → IsValid (stored q fresh o).0 × PushOutcome (stored q fresh o)
  unfolding len
  stored-PushOutcome none e v below some_bytes fits =
      let taken = (put-none_iff (pushed fresh) q.slots).0 e in
      (v, inr (inr (inl (refl, refl, omega (arith, len_slots-le q.slots, v.room)))))
  stored-PushOutcome (some s) e v below some_bytes fits =
      let few : len_slots q.slots ≤ id_fuel = omega (arith, len_slots-le q.slots, v.room) in
      let few_held : length (items_of node q.slots) < per_node_cap =
        omega (arith, below, count_for-items_of q node) in
      let f = free_id_lem id_fuel q.slots q.next_id few (omega arith) v.next_fits in
      let (valid, holds) = stored-IsValid s v below f e in
      (
        valid,
        inr (
            inr (
              inr (
                fresh,
                refl,
                (f.0, item_of-none fresh q.slots f.1),
                few_held,
                some_bytes,
                fits,
                holds,
              ))),
      )

  -- From a valid queue a push leaves a valid queue, and refuses without a change a payload that is
  -- empty or too long, a node that has its two items, and then a full pool; otherwise it stores the
  -- item under an id of 1 to 65535 that no queued item has, and changes no other item.
  pub push-PushOutcome :
      IsValid q
      → IsValid (push q node ttl bytes now_ms).0 × PushOutcome (push q node ttl bytes now_ms)
  unfolding push
  push-PushOutcome v = elim (Bool-cases (length bytes == 0 || ltb max_item (length bytes))) [
    | inl bad ↦ rw bad (v, inl (refl, refl, ground arith))
    | inr good ↦ rw good (elim (Bool-cases (leb per_node_cap (count_for q node))) [
      | inl many ↦ rw many (
        v,
        inr (
            inl (
              refl,
              refl,
              (let h : per_node_cap ≤ count_for q node = ground (arith, many) in
                  omega (arith, h, count_for-items_of q node)),
            )),
      )
      | inr few ↦ rw few (
          stored-PushOutcome (put (pushed fresh) q.slots) refl v (ground arith) (ground arith)
            (ground arith))
    ])
  ]

-- From a valid queue, `pop` gives back the item with the id, if there is one, and removes it alone.
pub pop_lem :
    (q : Queue) (id : ℕ)
    → IsValid q
    → let (q', out) = pop q id in
      IsValid q'
      × (out ≡ item_of id q.slots)
      × ((j : ℕ) → item_of j q'.slots ≡ (if id == j then none else item_of j q.slots))
unfolding pop count_for
pop_lem q id v =
    let (got, same) = take_id-item_of id q.slots v.distinct in
    (
      record {
        room = same ∙ v.room;
        distinct = take_id-Distinct id q.slots v.distinct;
        next_fits = v.next_fits;
        fair = λ n. omega (arith, count-take_id-le id n q.slots, v.fair n);
      },
      got,
      λ j. item_of-take_id id j q.slots v.distinct,
    )
