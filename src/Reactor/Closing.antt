-- ===== src/Reactor/Closing.antt =====
-- The end of `main`: the two read ends have been closed twice.
use cpp_design_patterns.Prelude.{
  ℕ, ◌+◌, ◌<◌, ◌≡◌, ◌≢◌, refl, String, List, [], ◌∷◌, some, inl, inr, subst, ◌==◌, Bool-cases,
  ==_iff, ==_refl, arith,
}
use cpp_design_patterns.Prelude.Dict.{Dict, find}
use cpp_design_patterns.Prelude.Int.{ℤ, int_eq}
use cpp_design_patterns.Prelude.Result.{ok}
use cpp_design_patterns.Log.{Log}
use cpp_design_patterns.Reactor.{Os}
use cpp_design_patterns.Reactor.Fd.{UniqueFd, no_fd, destroy, count}
use cpp_design_patterns.Reactor.Loop.{run_main}
use cpp_design_patterns.Reactor.Ends.{Finite, AllOpen}
use cpp_design_patterns.Reactor.Rounds.{event_loop-Ended}

abbrev handlers_of : ℤ → ℤ → Dict ℤ String
handlers_of api metrics = (api, "api-handler") ∷ (metrics, "metrics-handler") ∷ []

-- The destructors close each of the two once more.
closed_again :
    (api metrics : UniqueFd) (closed : List ℤ)
    → api.fd_ ≢ no_fd
    → metrics.fd_ ≢ no_fd
    → api.fd_ ≢ metrics.fd_
    → (count api.fd_ (destroy api (destroy metrics closed)) ≡ count api.fd_ closed + 1)
      × (count metrics.fd_ (destroy api (destroy metrics closed)) ≡ count metrics.fd_ closed + 1)
unfolding destroy
closed_again api metrics closed a m apart = ground (
  arith,
  ==_iff api.fd_ no_fd,
  ==_iff metrics.fd_ no_fd,
  ==_iff api.fd_ metrics.fd_,
  ==_iff metrics.fd_ api.fd_,
  ==_refl api.fd_,
  ==_refl metrics.fd_,
)

pub both_open :
    {S : Type 0} (IsOpen : ℤ → S → Type 0) (a m : ℤ) (s : S)
    → IsOpen a s
    → IsOpen m s
    → AllOpen IsOpen (record { fd = a; revents = 0 } ∷ record { fd = m; revents = 0 } ∷ []) s
both_open IsOpen a m s u v d real c = elim (Bool-cases (a == d)) [
  | inl y ↦ subst (λ x. IsOpen x s) ((==_iff a d).0 y) u
  | inr n ↦ elim (Bool-cases (m == d)) [
    | inl z ↦ subst (λ x. IsOpen x s) ((==_iff m d).0 z) v
    | inr k ↦ absurd (ground (arith, n, k))
  ]
]

-- On writers that end, whose pipes' two different read ends are open, and with fuel above what they have left, `main` ends without an exception,
-- and each of its two read ends has then been closed exactly twice: once by the loop that retires
-- it, and once more by the destructor of the `UniqueFd` that still owns it.
pub read_ends_closed_twice :
    (os : Os) (finite : Finite os) (rounds fuel : ℕ) (api metrics : UniqueFd) (s : os.State)
    (log : Log)
    → finite.left s + 2 < rounds
    → finite.left s < fuel
    → api.fd_ ≢ no_fd
    → metrics.fd_ ≢ no_fd
    → api.fd_ ≢ metrics.fd_
    → finite.IsOpen api.fd_ s
    → finite.IsOpen metrics.fd_ s
    → (closed : List ℤ) × (run_main os rounds fuel api metrics s log ≡ some (closed, ok tt))
      × (count api.fd_ closed ≡ 2)
      × (count metrics.fd_ closed ≡ 2)
unfolding run_main find
read_ends_closed_twice os finite rounds fuel api metrics s log h g a m apart u v =
    let e =
      event_loop-Ended os finite (handlers_of api.fd_ metrics.fd_) rounds fuel
        (record { fd = api.fd_; revents = 0 } ∷ record { fd = metrics.fd_; revents = 0 } ∷ [])
        (record { state = s; log = log; active_sources = 2; closed = [] })
        (ground (arith, ==_iff api.fd_ no_fd, ==_iff metrics.fd_ no_fd)) g
        (ground (arith, ==_iff api.fd_ no_fd, ==_iff metrics.fd_ no_fd))
        (
          λ _. ("api-handler", rw (==_refl api.fd_) refl),
          (
            λ _. (
              "metrics-handler",
              ground (arith, ==_iff api.fd_ metrics.fd_, ==_refl metrics.fd_),
            ),
            tt,
          ),
        )
        (both_open finite.IsOpen api.fd_ metrics.fd_ s u v)
        (λ d real. ground (arith, ==_iff api.fd_ d, ==_iff metrics.fd_ d)) in
    let one = closed_again api metrics e.rest.closed a m apart in
    (
      destroy api (destroy metrics e.rest.closed),
      rw (run_main, e.result) refl,
      ground (arith, one, e.closes api.fd_ a, ==_refl api.fd_, ==_iff metrics.fd_ api.fd_),
      ground (arith, one, e.closes metrics.fd_ m, ==_refl metrics.fd_, ==_iff api.fd_ metrics.fd_),
    )
