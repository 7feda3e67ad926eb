-- ===== src/Strategy/Load.antt =====
-- Where the work of a sequence of requests goes.
use cpp_design_patterns.Prelude.{
  ℕ, zero, suc, ◌+◌, ◌%◌, ◌^◌, ◌<◌, ◌≡◌, refl, ap, ◌∙◌, List, [], ◌∷◌, some, length, eqb,
  if◌then◌else◌, arith,
}
use cpp_design_patterns.Log.{Log}
use cpp_design_patterns.Strategy.{
  Backend, RoutingStrategy, round_robin, least_loaded, add_work, Request, handle_request,
  handle_requests,
}
use cpp_design_patterns.Strategy.Policies.{load_at, least_loaded_first}

length-add_work : (bs : List Backend) (i work : ℕ) → length (add_work bs i work) ≡ length bs
unfolding add_work
length-add_work [] i work = refl
length-add_work (b ∷ bs) zero work = refl
length-add_work (b ∷ bs) (suc i) work = ap suc (length-add_work bs i work)

abbrev pub total_load : List Backend → ℕ
total_load [] = 0
total_load (b ∷ bs) = b.in_flight + total_load bs

total_load-add_work :
    (bs : List Backend) (i work : ℕ)
    → i < length bs
    → total_load (add_work bs i work) ≡ total_load bs + work
unfolding add_work
total_load-add_work [] i work h = absurd (omega arith)
total_load-add_work (b ∷ bs) zero work h = omega arith
total_load-add_work (b ∷ bs) (suc i) work h =
    omega (arith, total_load-add_work bs i work (omega arith))

load_at-add_work :
    (bs : List Backend) (j i work : ℕ)
    → i < length bs
    → load_at (add_work bs j work) i ≡ load_at bs i + (if eqb j i then work else 0)
unfolding add_work
load_at-add_work [] j i work h = absurd (omega arith)
load_at-add_work (b ∷ bs) zero zero work h = ground arith
load_at-add_work (b ∷ bs) zero (suc i) work h = ground arith
load_at-add_work (b ∷ bs) (suc j) zero work h = ground arith
load_at-add_work (b ∷ bs) (suc j) (suc i) work h =
    ground (arith, load_at-add_work bs j i work (omega arith))

abbrev pub total_work : List Request → ℕ
total_work [] = 0
total_work (r ∷ rs) = r.simulated_work + total_work rs

module _ (strategy : RoutingStrategy) (r : Request) (s : strategy.State) (bs : List Backend)
    (log : Log) where
  chosen :
      (i : ℕ)
      → (strategy.choose_backend s bs).1 ≡ some i
      → (handle_request strategy r (s, bs, log)).1 ≡ add_work bs i r.simulated_work
  unfolding handle_request add_work
  chosen i e = rw (handle_request, e) refl

  state_after :
      (i : ℕ)
      → (strategy.choose_backend s bs).1 ≡ some i
      → (handle_request strategy r (s, bs, log)).0 ≡ (strategy.choose_backend s bs).0
  unfolding handle_request
  state_after i e = rw (handle_request, e) refl

-- Under any strategy, and with some backend, the backends together take exactly the work of the
-- requests, and none is added or lost.
pub load_conserved :
    (strategy : RoutingStrategy) (rs : List Request) (s : strategy.State) (bs : List Backend)
    (log : Log)
    → 0 < length bs
    → let after = (handle_requests strategy rs (s, bs, log)).1 in
      (length after ≡ length bs) × (total_load after ≡ total_load bs + total_work rs)
unfolding handle_requests
load_conserved strategy [] s bs log h = omega arith
load_conserved strategy (r ∷ rs) s bs log h =
    let (i, e, q) = strategy.chooses s bs h in
    let next = handle_request strategy r (s, bs, log) in
    let c = chosen strategy r s bs log i e in
    let same : length next.1 ≡ length bs = rw (c) (length-add_work bs i r.simulated_work) in
    let more : total_load next.1 ≡ total_load bs + r.simulated_work =
      rw (c) (total_load-add_work bs i r.simulated_work q) in
    let (l, t) = load_conserved strategy rs next.0 next.1 next.2 (omega arith) in omega arith

round_robin_lem :
    (next_ : ℕ) (bs : List Backend)
    → next_ + 1 < 2 ^ 64
    → 0 < length bs
    → ((round_robin next_ bs).0 ≡ next_ + 1) × ((round_robin next_ bs).1 ≡ some (next_ % length bs))
unfolding round_robin
round_robin_lem next_ bs w h = ground arith

pub round_robin_chooses :
    (next_ : ℕ) (bs : List Backend)
    → 0 < length bs
    → (i : ℕ) × ((round_robin next_ bs).1 ≡ some i) × (i < length bs)
unfolding round_robin
round_robin_chooses next_ bs h = (next_ % length bs, ground arith, omega arith)

abbrev pub RoundRobinStrategy : RoutingStrategy
RoundRobinStrategy = record {
  State = ℕ;
  choose_backend = round_robin;
  chooses = round_robin_chooses;
}

abbrev pub LeastLoadedStrategy : RoutingStrategy
LeastLoadedStrategy = record {
  State = Unit;
  choose_backend = λ s backends. (s, least_loaded backends);
  chooses = λ s backends h. let (i, e, q, _, _) = least_loaded_first backends h in (i, e, q);
}

-- The work among requests, numbered from `k`, whose turn is position `i` of `n`.
abbrev pub share : ℕ → ℕ → ℕ → List Request → ℕ
share n i k [] = 0
share n i k (r ∷ rs) = (if eqb (k % n) i then r.simulated_work else 0) + share n i (k + 1) rs

-- Under `RoundRobinStrategy`, and while `next_` does not wrap around, each backend gets exactly the
-- work of the requests whose number, counted from `next_`, is its position modulo the number of
-- backends, whatever the loads are.
pub round_robin_shares :
    (rs : List Request) (next_ : ℕ) (bs : List Backend) (log : Log) (i : ℕ)
    → next_ + length rs < 2 ^ 64
    → i < length bs
    → load_at (handle_requests RoundRobinStrategy rs (next_, bs, log)).1 i
      ≡ load_at bs i + share (length bs) i next_ rs
unfolding handle_requests
round_robin_shares [] next_ bs log i w h = omega arith
round_robin_shares (r ∷ rs) next_ bs log i w h =
    let after = handle_request RoundRobinStrategy r (next_, bs, log) in
    let (e0, e1) = round_robin_lem next_ bs (omega arith) (omega arith) in
    let c = chosen RoundRobinStrategy r next_ bs log (next_ % length bs) e1 in
    let s = state_after RoundRobinStrategy r next_ bs log (next_ % length bs) e1 ∙ e0 in
    let same = length-add_work bs (next_ % length bs) r.simulated_work in
    let here = load_at-add_work bs (next_ % length bs) i r.simulated_work h in
    let rest =
      round_robin_shares rs after.0 after.1 after.2 i (rw (s) (omega arith)) (rw (c, same) h) in
    let turn : share (length after.1) i after.0 rs ≡ share (length bs) i (next_ + 1) rs =
      rw (s, c, same) refl in
    let first = ap (λ b. load_at b i) c ∙ here in omega (arith, rest, turn, first)
