-- ===== src/Gateway/Queue.antt =====
-- crates/gateway/src/queue.rs: the downlink queue. An item's `len` and `buf` are the list of its
-- bytes; a pool is a list of four slots. Ids are `u16`s and order stamps `u32`s.
pub mod Ids
pub mod Slots
pub mod Contents
pub mod Removal
pub mod Fifo
mod Tests
use tower.Prelude.{
  ℕ, zero, suc, ◌+◌, ◌-◌, ◌*◌, ◌/◌, ◌%◌, ◌^◌, min, Bool, true, false, ◌&&◌, ◌||◌, not, Option, none,
  some, List, [], ◌∷◌, ◌++◌, replicate, length, ◌==◌, leb, ltb, if◌then◌else◌,
}

abbrev pub queue_cap : ℕ
queue_cap = 4

abbrev pub per_node_cap : ℕ
per_node_cap = 2

abbrev pub max_item : ℕ
max_item = 74

pub data PushError : Type 0 where
  full per_node_full bad_payload : PushError

pub record Item : Type 0 where
  pub id : ℕ
  pub node_addr : ℕ
  pub enqueued_at_ms : ℕ
  pub ttl : ℕ
  pub order : ℕ
  pub bytes : List ℕ

unfoldable pub age : Item → ℕ → ℕ
age it now_ms = min ((now_ms - it.enqueued_at_ms) / 1000) 65535

unfoldable pub expired : Item → ℕ → Bool
expired it now_ms = leb (it.ttl * 1000) (now_ms - it.enqueued_at_ms)

abbrev pub Slots : Type 0
Slots = List (Option Item)

pub record Queue : Type 0 where
  pub slots : Slots
  pub next_id : ℕ
  pub next_order : ℕ

unfoldable pub new : Queue
new = record { slots = replicate queue_cap none; next_id = 1; next_order = 0 }

-- `any(|it| it.id == id)`
unfoldable pub has_id : ℕ → Slots → Bool
has_id id [] = false
has_id id (none ∷ s) = has_id id s
has_id id (some it ∷ s) = it.id == id || has_id id s

unfoldable pub count_slots : ℕ → Slots → ℕ
count_slots node [] = 0
count_slots node (none ∷ s) = count_slots node s
count_slots node (some it ∷ s) = (if it.node_addr == node then 1 else 0) + count_slots node s

unfoldable pub count_for : Queue → ℕ → ℕ
count_for q node = count_slots node q.slots

unfoldable pub len_slots : Slots → ℕ
len_slots [] = 0
len_slots (none ∷ s) = len_slots s
len_slots (some it ∷ s) = suc (len_slots s)

unfoldable pub len : Queue → ℕ
len q = len_slots q.slots

unfoldable pub is_empty : Queue → Bool
is_empty q = len q == 0

-- `position(|s| s.is_none())`, and the write to that slot
unfoldable pub put : Item → Slots → Option Slots
put it [] = none
put it (none ∷ s) = some (some it ∷ s)
put it (some x ∷ s) = elim (put it s) [ none ↦ none | some s' ↦ some (some x ∷ s') ]

-- `id.checked_add(1).filter(|&v| v != 0).unwrap_or(1)`
unfoldable pub next_id_after : ℕ → ℕ
next_id_after id = if leb 65535 id then 1 else id + 1

-- the `while` loop of `push`, on fuel
unfoldable pub free_id : ℕ → Slots → ℕ → ℕ
free_id zero s id = id
free_id (suc fuel) s id =
    let rest = free_id fuel s (next_id_after id) in if has_id id s then rest else id

-- More than four ids cannot be taken.
abbrev pub id_fuel : ℕ
id_fuel = 5

pub data Pushed : Type 0 where
  ok : ℕ → Pushed
  err : PushError → Pushed

abbrev pub stored : Queue → ℕ → Option Slots → Queue × Pushed
stored q id none = (q, err full)
stored q id (some s) = (
  record { slots = s; next_id = next_id_after id; next_order = (q.next_order + 1) % 2 ^ 32 },
  ok id,
)

unfoldable pub push : Queue → ℕ → ℕ → List ℕ → ℕ → Queue × Pushed
push q node ttl bytes now_ms =
    let id = free_id id_fuel q.slots q.next_id in
    let it : Item = record {
      id = id;
      node_addr = node;
      enqueued_at_ms = now_ms;
      ttl = ttl;
      order = q.next_order;
      bytes = bytes;
    } in
    if length bytes == 0 || ltb max_item (length bytes)
    then (q, err bad_payload)
    else if leb per_node_cap (count_for q node)
    then (q, err per_node_full)
    else stored q id (put it q.slots)

-- `min_by_key` keeps the first of two items with one key.
abbrev pub older : Item → Option Item → Option Item
older it none = some it
older it (some x) = if leb it.order x.order then some it else some x

unfoldable pub peek_slots : ℕ → ℕ → Slots → Option Item
peek_slots node now_ms [] = none
peek_slots node now_ms (none ∷ s) = peek_slots node now_ms s
peek_slots node now_ms (some it ∷ s) =
    let rest = peek_slots node now_ms s in
    if it.node_addr == node && not (expired it now_ms) then older it rest else rest

unfoldable pub peek_for : Queue → ℕ → ℕ → Option Item
peek_for q node now_ms = peek_slots node now_ms q.slots

unfoldable pub take_id : ℕ → Slots → Slots × Option Item
take_id id [] = ([], none)
take_id id (none ∷ s) = let (s', out) = take_id id s in (none ∷ s', out)
take_id id (some it ∷ s) =
    let (s', out) = take_id id s in if it.id == id then (none ∷ s, some it) else (some it ∷ s', out)

unfoldable pub pop : Queue → ℕ → Queue × Option Item
pop q id = let (s, out) = take_id id q.slots in (record q { slots = s }, out)

-- the slots with those items emptied for which `gone` holds
unfoldable pub clear : (Item → Bool) → Slots → Slots
clear gone [] = []
clear gone (none ∷ s) = none ∷ clear gone s
clear gone (some it ∷ s) = (if gone it then none else some it) ∷ clear gone s

unfoldable pub drop_node : Queue → ℕ → Queue × ℕ
drop_node q node =
    (record q { slots = clear (λ it. it.node_addr == node) q.slots }, count_for q node)

-- the calls of `on_expired`, in order
unfoldable pub reports : ℕ → Slots → List (ℕ × ℕ)
reports now_ms [] = []
reports now_ms (none ∷ s) = reports now_ms s
reports now_ms (some it ∷ s) =
    let rest = reports now_ms s in if expired it now_ms then (it.id, it.node_addr) ∷ rest else rest

unfoldable pub expire : Queue → ℕ → Queue × List (ℕ × ℕ)
expire q now_ms =
    (record q { slots = clear (λ it. expired it now_ms) q.slots }, reports now_ms q.slots)
