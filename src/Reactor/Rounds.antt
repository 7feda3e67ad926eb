-- ===== src/Reactor/Rounds.antt =====
-- What a round of the event loop does, and how the loop ends.
use cpp_design_patterns.Prelude.{
  ℕ, zero, suc, ◌+◌, ◌≤◌, ◌<◌, ◌≡◌, ◌≢◌, refl, inl, inr, String, List, [], ◌∷◌, Option, some, eqb,
  ==_iff, Bool-cases, arith,
}
use cpp_design_patterns.Prelude.Dict.{Dict}
use cpp_design_patterns.Prelude.Int.{ℤ, int_eq}
use cpp_design_patterns.Prelude.Result.{Result, ok}
use cpp_design_patterns.Reactor.{Watcher, Os}
use cpp_design_patterns.Reactor.Fd.{no_fd, count}
use cpp_design_patterns.Reactor.Loop.{flagged, observed, waited, woken, Rest, round, event_loop}
use cpp_design_patterns.Reactor.Ends.{
  AnyFlagged, AllRetired, Finite, AllOpen, AllDistinct, watch_count,
}
use cpp_design_patterns.Reactor.Turns.{
  open_count, ready_count, flag_ne_zero, AllKnown, Passed, dispatch_all-Passed,
}

module _ (os : Os) (finite : Finite os) (handlers : Dict ℤ String) where
  -- What `poll` writes leaves the descriptors alone.
  record SameFds (ws vs : List Watcher) : Type 0 where
    opens : open_count vs ≡ open_count ws
    watched : (d : ℤ) → watch_count d vs ≡ watch_count d ws
    known : AllKnown os finite handlers ws → AllKnown os finite handlers vs

  observed-SameFds : (ws : List Watcher) (rs : List ℕ) → SameFds ws (observed ws rs)
  observed-SameFds [] rs = record { opens = refl; watched = λ d. refl; known = λ k. k }
  observed-SameFds (w ∷ ws) [] = record { opens = refl; watched = λ d. refl; known = λ k. k }
  observed-SameFds (w ∷ ws) (r ∷ rs) =
      let h = observed-SameFds ws rs in
      record {
        opens = omega (arith, h.opens);
        watched = λ d. omega (arith, h.watched d);
        known = λ k. (k.0, h.known k.1);
      }

  none_open : (ws : List Watcher) → AllRetired ws → open_count ws ≡ 0
  none_open [] h = refl
  none_open (w ∷ ws) (e, h) = ground (arith, ==_iff w.fd no_fd, none_open ws h)

  flagged_some :
      (ws : List Watcher) (rs : List ℕ)
      → AnyFlagged ws rs
      → (0 < ready_count (observed ws rs)) × (0 < flagged rs)
  flagged_some [] rs f = elim f [ ]
  flagged_some (w ∷ ws) [] f = elim f [ ]
  flagged_some (w ∷ ws) (r ∷ rs) (inl (watched, g)) =
      (ground (arith, g, ==_iff w.fd no_fd), ground (arith, flag_ne_zero r g))
  flagged_some (w ∷ ws) (r ∷ rs) (inr f) =
      let (a, b) = flagged_some ws rs f in (omega arith, omega arith)

  round-Passed :
      (fuel : ℕ) (ws : List Watcher) (r : Rest os)
      → finite.left r.state < fuel
      → 0 < open_count ws
      → open_count ws ≤ r.active_sources
      → AllKnown os finite handlers ws
      → AllOpen finite.IsOpen ws r.state
      → AllDistinct ws
      → Passed os finite handlers 1 ws r (round os handlers fuel ws r)
  unfolding round
  round-Passed fuel ws r h some_open a k o dist =
      let (rs, e, no_more, used) = finite.poll_answers ws r.state o in
      let same = observed-SameFds ws rs in
      elim (Bool-cases (eqb (flagged rs) 0)) [
        | inl idle ↦
            rw (round, e, idle)
              record {
                watchers = observed ws rs;
                rest = _;
                result = refl;
                counted = omega (arith, same.opens);
                lower = elim used [
                  | inl less ↦ omega (arith, same.opens, less)
                  | inr (inl any) ↦
                      let some_flag = (flagged_some ws rs any).1 in
                      absurd (ground (arith, some_flag))
                  | inr (inr gone) ↦ absurd (omega (arith, none_open ws gone))
                ];
                no_more = no_more;
                closes = λ d real. omega (arith, same.watched d);
                known = same.known k;
                fewer = λ d real. omega (arith, same.watched d);
                keeps = λ d real still u. finite.poll_keeps ws r.state d u;
              }
        | inr busy ↦
            let p =
              dispatch_all-Passed os finite handlers fuel (observed ws rs)
                (woken os (flagged rs) (waited os (os.poll ws r.state).0 r))
                (omega (arith, no_more)) (omega (arith, same.opens)) (same.known k)
                (λ d real c.
                  finite.poll_keeps ws r.state d (o d real (omega (arith, same.watched d))))
                (λ d real. omega (arith, same.watched d, dist d real)) in
            rw (round, e, busy, p.result)
              record {
                watchers = p.watchers;
                rest = p.rest;
                result = refl;
                counted = omega (arith, p.counted, same.opens);
                lower = elim used [
                  | inl less ↦ omega (arith, p.lower, same.opens, less)
                  | inr (inl any) ↦
                      let some_ready = (flagged_some ws rs any).0 in
                      omega (arith, p.lower, same.opens, some_ready)
                  | inr (inr gone) ↦ absurd (omega (arith, none_open ws gone))
                ];
                no_more = omega (arith, p.no_more, no_more);
                closes = λ d real. omega (arith, p.closes d real, same.watched d);
                known = p.known;
                fewer = λ d real. omega (arith, p.fewer d real, same.watched d);
                keeps = λ d real still u.
                    p.keeps d real (omega (arith, same.watched d))
                      (finite.poll_keeps ws r.state d u);
              }
      ]

  -- The loop ends with every source retired, and has closed what it watched once.
  pub record Ended (ws : List Watcher) (r : Rest os)
      (out : Option ((List Watcher × Rest os) × Result (Unit {0}))) : Type 0 where
    pub watchers : List Watcher
    pub rest : Rest os
    pub result : out ≡ some ((watchers, rest), ok tt)
    pub none_open : open_count watchers ≡ 0
    pub none_active : rest.active_sources ≡ 0
    pub closes : (d : ℤ) → d ≢ no_fd → count d rest.closed ≡ count d r.closed + watch_count d ws

  none_watched : (ws : List Watcher) (d : ℤ) → d ≢ no_fd → open_count ws ≡ 0 → watch_count d ws ≡ 0
  none_watched [] d real h = refl
  none_watched (w ∷ ws) d real h =
      ground (arith, ==_iff w.fd no_fd, ==_iff w.fd d, none_watched ws d real)

  -- On writers that end, with each watched descriptor open, watched once and with a handler, when `active_sources` is
  -- the number of watchers not retired, with more rounds than the writers have left to do and
  -- watchers are open together, and more fuel for a handler's turn than the writers have left: the
  -- loop ends without an exception, with every watcher retired and `active_sources` 0, and in it
  -- every descriptor other than -1 was closed once for each watcher it had.
  pub event_loop-Ended :
      (rounds fuel : ℕ) (ws : List Watcher) (r : Rest os)
      → finite.left r.state + open_count ws < rounds
      → finite.left r.state < fuel
      → r.active_sources ≡ open_count ws
      → AllKnown os finite handlers ws
      → AllOpen finite.IsOpen ws r.state
      → AllDistinct ws
      → Ended ws r (event_loop os handlers rounds fuel ws r)
  unfolding event_loop
  event_loop-Ended zero fuel ws r h g a k o dist = absurd (omega arith)
  event_loop-Ended (suc rounds) fuel ws r h g a k o dist =
      elim (Bool-cases (eqb r.active_sources 0)) [
        | inl done ↦
            rw (event_loop, done)
              record {
                watchers = ws;
                rest = r;
                result = refl;
                none_open = ground (arith, done);
                none_active = ground (arith, done);
                closes = λ d real. ground (arith, done, none_watched ws d real);
              }
        | inr more ↦
            let p = round-Passed fuel ws r g (ground (arith, more)) (omega arith) k o dist in
            let e =
              event_loop-Ended rounds fuel p.watchers p.rest (omega (arith, p.lower))
                (omega (arith, p.no_more)) (omega (arith, p.counted)) p.known
                (λ d real c.
                  p.keeps d real (omega (arith, dist d real))
                    (o d real (omega (arith, p.fewer d real))))
                (λ d real. omega (arith, p.fewer d real, dist d real)) in
            rw (event_loop, more, p.result)
              record {
                watchers = e.watchers;
                rest = e.rest;
                result = e.result;
                none_open = e.none_open;
                none_active = e.none_active;
                closes = λ d real. omega (arith, e.closes d real, p.closes d real);
              }
      ]
