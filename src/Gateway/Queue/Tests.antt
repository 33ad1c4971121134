-- ===== src/Gateway/Queue/Tests.antt =====
-- A queue with two items of one node and one of another.
use tower.Prelude.{ℕ, ◌≡◌, ◌≤◌, ◌↔◌, refl, true, some, [], ◌∷◌}
use tower.Gateway.Queue.{
  Item, Queue, err, per_node_full, new, push, expire, peek_for, count_for, count_slots, has_id,
  expired, free_id, next_id_after, put, reports,
}
use tower.Gateway.Queue.Slots.{item_of, kept}
use tower.Gateway.Queue.Contents.{IsValid, PushOutcome, push-PushOutcome, new-IsValid}
use tower.Gateway.Queue.Removal.{expire_lem, Reported, Expired}
use tower.Gateway.Queue.Fifo.{pending, peek_for-oldest}

abbrev one : Queue
one = (push new 7 60 (1 ∷ []) 0).0

abbrev two : Queue
two = (push one 9 5 (2 ∷ []) 10).0

abbrev three : Queue
three = (push two 7 60 (3 ∷ 4 ∷ []) 20).0

abbrev first : Item
first = record { id = 1; node_addr = 7; enqueued_at_ms = 0; ttl = 60; order = 0; bytes = 1 ∷ [] }

three-refuses_node : push three 7 60 (5 ∷ []) 30 ≡ (three, err per_node_full)
unfolding push put free_id next_id_after has_id count_for count_slots new
three-refuses_node = refl

three-IsValid : IsValid three
three-IsValid =
    (push-PushOutcome two 7 60 (3 ∷ 4 ∷ []) 20
      (push-PushOutcome one 9 5 (2 ∷ []) 10
        (push-PushOutcome new 7 60 (1 ∷ []) 0 new-IsValid).0).0).0

three-expires : (expire three 6000).1 ≡ ((2, 9) ∷ [])
unfolding push put free_id next_id_after has_id count_for count_slots new expire reports expired
three-expires = refl

push-PushOutcome_example :
    IsValid (push three 8 30 (6 ∷ []) 40).0
    × PushOutcome three 8 30 (6 ∷ []) 40 (push three 8 30 (6 ∷ []) 40)
push-PushOutcome_example = push-PushOutcome three 8 30 (6 ∷ []) 40 three-IsValid

expire_lem_example :
    let (q', told) = expire three 6000 in
    IsValid q'
    × ((id : ℕ) → item_of id q'.slots ≡ kept (λ it. expired it 6000) (item_of id three.slots))
    × ((id node : ℕ) → Reported (id, node) told ↔ Expired 6000 three.slots id node)
expire_lem_example = expire_lem three 6000 three-IsValid

peek_for-oldest_example :
    (it : Item) × (peek_for three 7 100 ≡ some it)
    × (it.order ≤ first.order)
    × (item_of it.id three.slots ≡ some it)
    × (pending 7 100 it ≡ true)
unfolding push put free_id next_id_after has_id count_for count_slots new item_of expired
peek_for-oldest_example = peek_for-oldest three 7 100 1 first three-IsValid.distinct refl refl
