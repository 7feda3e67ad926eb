-- ===== src/BoundedQueue/Workers.antt =====
-- examples/bounded_queue/main.cpp: the bodies of `producer` and `consumer`, run while no other
-- thread touches the queue. A call whose wait would not end gives `blocks`.
use cpp_design_patterns.Prelude.{
  ℕ, zero, suc, ◌+◌, ◌*◌, ◌≤◌, ◌<◌, ◌≡◌, refl, ◌++◌, false, List, [], ◌∷◌, some, none, length,
  length-append, append_assoc, append-nil, if◌then◌else◌, leb, dec_le, arith,
}
use cpp_design_patterns.BoundedQueue.{BoundedQueue, can_push, can_pop, push, pop}

pub record WorkItem : Type 0 where
  pub request_id : ℕ

-- How a thread's body stops: with the items that it handled or enqueued so far.
pub data Outcome : Type 0 where
  returns : List WorkItem → BoundedQueue WorkItem → Outcome
  blocks : List WorkItem → BoundedQueue WorkItem → Outcome
  out_of_fuel : Outcome

-- `consumer`: `pop` until it returns nothing.
unfoldable pub consumer : ℕ → List WorkItem → BoundedQueue WorkItem → Outcome
consumer zero handled b = out_of_fuel
consumer (suc f) handled b =
    let (b', item) = pop b in
    let next : Outcome = elim item [
      | none ↦ returns handled b'
      | some w ↦ consumer f (handled ++ (w ∷ [])) b'
    ] in
    if can_pop b then next else blocks handled b

abbrev pub request : ℕ → ℕ → WorkItem
request producer_id i = record { request_id = producer_id * 1000 + i }

-- `producer`: the loop over `i`, with `items - i` rounds left.
unfoldable pub producer_loop : ℕ → ℕ → ℕ → List WorkItem → BoundedQueue WorkItem → Outcome
producer_loop producer_id zero i enqueued b = returns enqueued b
producer_loop producer_id (suc left) i enqueued b =
    let item = request producer_id i in
    let (b', done) = push item b in
    let next = producer_loop producer_id left (i + 1) (enqueued ++ (item ∷ [])) b' in
    let after = if done then next else returns enqueued b' in
    if can_push b then after else blocks enqueued b

unfoldable pub producer : ℕ → ℕ → BoundedQueue WorkItem → Outcome
producer producer_id items b = producer_loop producer_id items 0 [] b

-- The requests of one producer from number `i` on.
abbrev pub requests : ℕ → ℕ → ℕ → List WorkItem
requests producer_id i zero = []
requests producer_id i (suc n) = request producer_id i ∷ requests producer_id (i + 1) n

consumer-eq :
    (q : List WorkItem) (b : BoundedQueue WorkItem) (handled : List WorkItem) (f : ℕ)
    → b.q ≡ q
    → length q < f
    → consumer f handled b ≡ (
        if b.closed
        then returns (handled ++ q) (record b { q = [] })
        else blocks (handled ++ q) (record b { q = [] }))
unfolding consumer pop can_pop
consumer-eq q b handled zero e h = absurd (omega arith)
consumer-eq [] b handled (suc f) e h = ground (arith, append-nil handled)
consumer-eq (x ∷ q) b handled (suc f) e h = ground (
  arith,
  consumer-eq q (record b { q = q }) (handled ++ (x ∷ [])) f refl (omega arith),
  append_assoc handled (x ∷ []) q,
)

-- A consumer alone handles every item of the queue in order, with any fuel above their number. It
-- then returns if the queue is closed, and blocks on the empty queue if it is open.
pub consumer_result :
    (b : BoundedQueue WorkItem) (f : ℕ)
    → length b.q < f
    → consumer f [] b
      ≡ (if b.closed then returns b.q (record b { q = [] }) else blocks b.q (record b { q = [] }))
consumer_result b f h = consumer-eq b.q b [] f refl h

-- The queue behind the requests from `i` on.
abbrev behind : BoundedQueue WorkItem → ℕ → ℕ → ℕ → BoundedQueue WorkItem
behind b p i n = record b { q = b.q ++ requests p i n }

producer_loop_fits :
    (p left i : ℕ) (enqueued : List WorkItem) (b : BoundedQueue WorkItem)
    → b.closed ≡ false
    → length b.q + left ≤ b.capacity
    → producer_loop p left i enqueued b
      ≡ returns (enqueued ++ requests p i left) (behind b p i left)
unfolding producer_loop push can_push
producer_loop_fits p zero i enqueued b c h = ground (arith, append-nil enqueued, append-nil b.q)
producer_loop_fits p (suc n) i enqueued b c h = ground (
  arith,
  producer_loop_fits p n (i + 1) (enqueued ++ (request p i ∷ [])) (behind b p i 1),
  length-append b.q (request p i ∷ []),
  append_assoc enqueued (request p i ∷ []) (requests p (i + 1) n),
  append_assoc b.q (request p i ∷ []) (requests p (i + 1) n),
)

producer_loop_blocks :
    (p left i room : ℕ) (enqueued : List WorkItem) (b : BoundedQueue WorkItem)
    → b.closed ≡ false
    → length b.q + room ≡ b.capacity
    → room < left
    → producer_loop p left i enqueued b ≡ blocks (enqueued ++ requests p i room) (behind b p i room)
unfolding producer_loop push can_push
producer_loop_blocks p zero i room enqueued b c h k = absurd (omega arith)
producer_loop_blocks p (suc n) i zero enqueued b c h k =
    ground (arith, append-nil enqueued, append-nil b.q)
producer_loop_blocks p (suc n) i (suc room) enqueued b c h k = ground (
  arith,
  producer_loop_blocks p n (i + 1) room (enqueued ++ (request p i ∷ [])) (behind b p i 1),
  length-append b.q (request p i ∷ []),
  append_assoc enqueued (request p i ∷ []) (requests p (i + 1) room),
  append_assoc b.q (request p i ∷ []) (requests p (i + 1) room),
)

-- A producer alone on an open queue with `room` free places enqueues its requests in order behind
-- what is there: all of them, and it returns, if they fit; else the first `room`, and it blocks.
pub producer_result :
    (p items room : ℕ) (b : BoundedQueue WorkItem)
    → b.closed ≡ false
    → length b.q + room ≡ b.capacity
    → producer p items b ≡ (
        if leb items room
        then returns (requests p 0 items) (record b { q = b.q ++ requests p 0 items })
        else blocks (requests p 0 room) (record b { q = b.q ++ requests p 0 room }))
unfolding producer
producer_result p items room b c h = elim (dec_le items room) [
  | yes k ↦ ground (arith, producer_loop_fits p items 0 [] b c (omega arith))
  | no k ↦ ground (arith, producer_loop_blocks p items 0 room [] b c h (omega arith))
]
