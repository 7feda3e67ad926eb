-- ===== src/Reactor/Turns.antt =====
-- What a handler's turn and a pass over the watchers do: the books are kept, and every watcher that
-- was ready has used up some of what the writers have left.
use cpp_design_patterns.Prelude.{
  ℕ, zero, suc, ◌+◌, ◌≤◌, ◌<◌, ◌≡◌, ◌≢◌, refl, inl, inr, String, List, [], ◌∷◌, true, false, Option,
  some, eqb, if◌then◌else◌, ==_iff, ==_refl, Bool-cases, arith,
}
use cpp_design_patterns.Prelude.Dict.{Dict, find}
use cpp_design_patterns.Prelude.Int.{ℤ, int_eq}
use cpp_design_patterns.Prelude.Result.{Result, ok}
use cpp_design_patterns.Reactor.{Watcher, Os}
use cpp_design_patterns.Reactor.Fd.{no_fd, count}
use cpp_design_patterns.Reactor.Loop.{is_ready, announced, Rest, retire, dispatch_one, dispatch_all}
use cpp_design_patterns.Reactor.Ends.{
  is_flagged, Finite, AllOpen, AllDistinct, is_open, watches, watch_count, drain-Drained,
}

abbrev pub open_count : List Watcher → ℕ
open_count [] = 0
open_count (w ∷ ws) = is_open w + open_count ws

abbrev pub ready_count : List Watcher → ℕ
ready_count [] = 0
ready_count (w ∷ ws) = (if is_ready w then 1 else 0) + ready_count ws

pub flag_ne_zero : (r : ℕ) → is_flagged r ≡ true → eqb r 0 ≡ false
flag_ne_zero zero h = cc
flag_ne_zero (suc r) h = ground arith

module _ (os : Os) (finite : Finite os) (handlers : Dict ℤ String) where
  -- A descriptor that is watched has a handler.
  abbrev pub IsKnown : ℤ → Type 0
  IsKnown fd = fd ≢ no_fd → (name : String) × (find fd handlers ≡ some name)

  abbrev pub AllKnown : List Watcher → Type 0
  AllKnown [] = Unit
  AllKnown (w ∷ ws) = IsKnown w.fd × AllKnown ws

  pub record Turned (w : Watcher) (r : Rest os)
      (out : Option ((Watcher × Rest os) × Result (Unit {0}))) : Type 0 where
    pub watcher : Watcher
    pub rest : Rest os
    pub result : out ≡ some ((watcher, rest), ok tt)
    pub counted : rest.active_sources + is_open w ≡ r.active_sources + is_open watcher
    pub lower :
        finite.left rest.state + is_open watcher + (if is_ready w then 1 else 0)
        ≤ finite.left r.state + is_open w
    pub no_more : finite.left rest.state ≤ finite.left r.state
    pub closes :
        (d : ℤ)
        → d ≢ no_fd
        → count d rest.closed + watches d watcher ≡ count d r.closed + watches d w
    pub known : IsKnown watcher.fd
    pub fewer : (d : ℤ) → d ≢ no_fd → watches d watcher ≤ watches d w
    pub keeps :
        (d : ℤ)
        → d ≢ no_fd
        → watches d w ≤ watches d watcher
        → finite.IsOpen d r.state
        → finite.IsOpen d rest.state

  module _ (fuel : ℕ) (w : Watcher) (r : Rest os) where
    dispatch_one-Turned :
        finite.left r.state < fuel
        → is_open w ≤ r.active_sources
        → IsKnown w.fd
        → (w.fd ≢ no_fd → finite.IsOpen w.fd r.state)
        → Turned w r (dispatch_one os handlers fuel w r)
    unfolding dispatch_one
    dispatch_one-Turned h a k o = elim (Bool-cases (is_ready w)) [
      | inr n ↦
          rw (dispatch_one, n)
            record {
              watcher = w;
              rest = r;
              result = refl;
              counted = refl;
              lower = ground (arith, n);
              no_more = omega arith;
              closes = λ d real. refl;
              known = k;
              fewer = λ d real. omega arith;
              keeps = λ d real same u. u;
            }
      | inl y ↦
          let watched : w.fd ≢ no_fd = λ e. ground (arith, ==_iff w.fd no_fd) in
          let (name, e) = k watched in
          let dr =
            drain-Drained os finite fuel w.fd name "" r.state (announced w r.log) h (o watched) in
          rw (dispatch_one, y, e, dr.result)
            (elim (Bool-cases dr.stays) [
              | inl stays ↦ rw (stays) record {
                watcher = w;
                rest = record r { state = dr.state; log = dr.log };
                result = refl;
                counted = refl;
                lower = ground (arith, dr.less stays);
                no_more = dr.no_more;
                closes = λ d real. refl;
                known = k;
                fewer = λ d real. omega arith;
                keeps = λ d real same u. dr.keeps d u;
              }
              | inr ends ↦
                  rw (retire, ends)
                    record {
                      watcher = record w { fd = no_fd };
                      rest = (retire os handlers w (record r { state = dr.state; log = dr.log })).1;
                      result = refl;
                      counted = ground (arith, a, ==_iff w.fd no_fd, ==_refl no_fd);
                      lower = ground (
                        arith,
                        dr.no_more,
                        finite.close_keeps w.fd dr.state (dr.keeps w.fd (o watched)),
                        ==_iff w.fd no_fd,
                      );
                      no_more = omega (
                        arith,
                        dr.no_more,
                        finite.close_keeps w.fd dr.state (dr.keeps w.fd (o watched)),
                      );
                      closes = λ d real. ground (arith, ==_iff no_fd d, ==_iff w.fd d);
                      known = λ real. absurd (real refl);
                      fewer = λ d real. ground (arith, ==_iff no_fd d);
                      keeps = λ d real same u.
                          finite.close_others w.fd dr.state d
                            (λ e. ground (arith, ==_iff no_fd d, ==_iff w.fd d)) (dr.keeps d u);
                    }
            ])
    ]

  -- A pass over some watchers, or a round: no exception, the books are kept, and `progress` of what
  -- was left or open is used up.
  pub record Passed (progress : ℕ) (ws : List Watcher) (r : Rest os)
      (out : Option ((List Watcher × Rest os) × Result (Unit {0}))) : Type 0 where
    pub watchers : List Watcher
    pub rest : Rest os
    pub result : out ≡ some ((watchers, rest), ok tt)
    pub counted : rest.active_sources + open_count ws ≡ r.active_sources + open_count watchers
    pub lower :
        finite.left rest.state + open_count watchers + progress
        ≤ finite.left r.state + open_count ws
    pub no_more : finite.left rest.state ≤ finite.left r.state
    pub closes :
        (d : ℤ)
        → d ≢ no_fd
        → count d rest.closed + watch_count d watchers ≡ count d r.closed + watch_count d ws
    pub known : AllKnown watchers
    pub fewer : (d : ℤ) → d ≢ no_fd → watch_count d watchers ≤ watch_count d ws
    pub keeps :
        (d : ℤ)
        → d ≢ no_fd
        → watch_count d ws ≤ watch_count d watchers
        → finite.IsOpen d r.state
        → finite.IsOpen d rest.state

  pub dispatch_all-Passed :
      (fuel : ℕ) (ws : List Watcher) (r : Rest os)
      → finite.left r.state < fuel
      → open_count ws ≤ r.active_sources
      → AllKnown ws
      → AllOpen finite.IsOpen ws r.state
      → AllDistinct ws
      → Passed (ready_count ws) ws r (dispatch_all os handlers fuel ws r)
  unfolding dispatch_all
  dispatch_all-Passed fuel [] r h a k o dist = record {
    watchers = [];
    rest = r;
    result = refl;
    counted = refl;
    lower = omega arith;
    no_more = omega arith;
    closes = λ d real. refl;
    known = tt;
    fewer = λ d real. omega arith;
    keeps = λ d real same u. u;
  }
  dispatch_all-Passed fuel (w ∷ ws) r h a (k, ks) o dist =
      let t =
        dispatch_one-Turned fuel w r h (omega arith) k
          (λ real. o w.fd real (ground (arith, ==_refl w.fd))) in
      let p =
        dispatch_all-Passed fuel ws t.rest (omega (arith, t.no_more)) (omega (arith, t.counted)) ks
          (λ d real c. t.keeps d real (omega (arith, dist d real)) (o d real (omega arith)))
          (λ d real. omega (arith, dist d real)) in
      rw (dispatch_all, t.result, p.result)
        record {
          watchers = t.watcher ∷ p.watchers;
          rest = p.rest;
          result = refl;
          counted = omega (arith, t.counted, p.counted);
          lower = omega (arith, t.lower, p.lower);
          no_more = omega (arith, t.no_more, p.no_more);
          closes = λ d real. omega (arith, t.closes d real, p.closes d real);
          known = (t.known, p.known);
          fewer = λ d real. omega (arith, t.fewer d real, p.fewer d real);
          keeps = λ d real same u.
              p.keeps d real (omega (arith, t.fewer d real))
                (t.keeps d real (omega (arith, p.fewer d real)) u);
        }
