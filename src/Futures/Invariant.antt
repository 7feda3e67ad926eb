-- ===== src/Futures/Invariant.antt =====
-- What holds of the shared state and the threads after every access.
use cpp_design_patterns.Prelude.{
  ℕ, zero, suc, ◌+◌, ◌<◌, ◌≡◌, inl, inr, String, List, [], ◌∷◌, map, Bool, true, false, Option,
  none, some, Option-cases, length, get_elem?, set, length-set, arith,
}
use cpp_design_patterns.Prelude.Result.{Result, ok, throws}
use cpp_design_patterns.Futures.{
  Pc, looked_up, counting, last, raising, setting, succeeded, System, access, step, run, start,
}

-- How many threads stand at one of the places that a weight marks.
abbrev pub total : (Pc → ℕ) → List Pc → ℕ
total w [] = 0
total w (p ∷ ps) = w p + total w ps

pub total-set :
    (w : Pc → ℕ) (ps : List Pc) (i : ℕ) (p q : Pc)
    → get_elem? ps i ≡ some p
    → total w (set ps i q) + w p ≡ total w ps + w q
total-set w [] i p q e = absurd (cc)
total-set w (x ∷ ps) zero p q e = ground arith
total-set w (x ∷ ps) (suc i) p q e = omega (arith, total-set w ps i p q e)

-- May still count down, has a value, may satisfy the promise, does so with an error, has failed.
abbrev pub active : Pc → ℕ
active (looked_up (throws _)) = 1
active counting = 1
active _ = 0

abbrev pub good : Pc → ℕ
good (looked_up (ok _)) = 1
good (setting (ok _)) = 1
good succeeded = 1
good _ = 0

abbrev pub holder : Pc → ℕ
holder raising = 1
holder (setting _) = 1
holder _ = 0

abbrev pub gloomy : Pc → ℕ
gloomy last = 1
gloomy raising = 1
gloomy (setting (throws _)) = 1
gloomy _ = 0

-- Has had its turn at `done` with a value.
abbrev pub claimed : Pc → ℕ
claimed (setting (ok _)) = 1
claimed succeeded = 1
claimed _ = 0

abbrev pub at_last : Pc → ℕ
at_last last = 1
at_last _ = 0

abbrev pub erred : Pc → ℕ
erred counting = 1
erred last = 1
erred raising = 1
erred _ = 0

abbrev pub satisfied : Option (Result String) → ℕ
satisfied none = 0
satisfied (some _) = 1

abbrev pub broken : Option (Result String) → ℕ
broken (some (throws _)) = 1
broken _ = 0

abbrev pub bit : Bool → ℕ
bit true = 1
bit false = 0

pub record Counts (goods : ℕ) (s : System) : Type 0 where
  pub no_violation : s.shared.violations ≡ 0
  pub count : s.shared.remaining ≡ total active s.threads + total good s.threads
  pub goods_kept : total good s.threads ≡ goods
  pub once : total holder s.threads + satisfied s.shared.promise ≡ bit s.shared.done
  pub error_last : 0 < total gloomy s.threads + broken s.shared.promise → s.shared.remaining ≡ 0
  pub claim : 0 < total claimed s.threads → s.shared.done ≡ true
  pub left :
      s.shared.done ≡ false
      → s.shared.remaining ≡ 0
      → 0 < length s.threads
      → 0 < total at_last s.threads

module _ {goods : ℕ} (s : System) (i : ℕ) (v : Counts goods s) where
  at-Counts :
      (p : Pc)
      → get_elem? s.threads i ≡ some p
      → Counts goods (record {
        shared = (access p s.shared).0;
        threads = set s.threads i (access p s.shared).1;
      })
  unfolding access
  at-Counts counting e = ground (
    arith,
    total-set active s.threads i counting (access counting s.shared).1 e,
    total-set good s.threads i counting (access counting s.shared).1 e,
    total-set holder s.threads i counting (access counting s.shared).1 e,
    total-set gloomy s.threads i counting (access counting s.shared).1 e,
    total-set claimed s.threads i counting (access counting s.shared).1 e,
    total-set at_last s.threads i counting (access counting s.shared).1 e,
    length-set s.threads i (access counting s.shared).1,
  )
  at-Counts p e = ground (
    arith,
    total-set active s.threads i p (access p s.shared).1 e,
    total-set good s.threads i p (access p s.shared).1 e,
    total-set holder s.threads i p (access p s.shared).1 e,
    total-set gloomy s.threads i p (access p s.shared).1 e,
    total-set claimed s.threads i p (access p s.shared).1 e,
    total-set at_last s.threads i p (access p s.shared).1 e,
    length-set s.threads i (access p s.shared).1,
  )

pub step-Counts : (goods : ℕ) (s : System) (i : ℕ) → Counts goods s → Counts goods (step s i)
unfolding step
step-Counts goods s i v = elim (Option-cases (get_elem? s.threads i)) [
  | inl e ↦ rw (e, step) v
  | inr (p, e) ↦ rw (e, step) (at-Counts s i v p e)
]

pub run-Counts : (goods : ℕ) (s : System) (is : List ℕ) → Counts goods s → Counts goods (run s is)
unfolding run
run-Counts goods s [] v = v
run-Counts goods s (i ∷ is) v = run-Counts goods (step s i) is (step-Counts goods s i v)

-- How many lookups give a value.
abbrev pub successes : List (Result String) → ℕ
successes [] = 0
successes (ok _ ∷ rs) = suc (successes rs)
successes (throws _ ∷ rs) = successes rs

record Fresh (rs : List (Result String)) : Type 0 where
  actives : total active (map looked_up rs) + successes rs ≡ length rs
  goods : total good (map looked_up rs) ≡ successes rs
  holders : total holder (map looked_up rs) ≡ 0
  glooms : total gloomy (map looked_up rs) ≡ 0
  claims : total claimed (map looked_up rs) ≡ 0
  size : length (map looked_up rs) ≡ length rs

fresh : (rs : List (Result String)) → Fresh rs
fresh [] = omega arith
fresh (ok v ∷ rs) = let h = fresh rs in omega arith
fresh (throws e ∷ rs) = let h = fresh rs in omega arith

pub start-Counts : (rs : List (Result String)) → Counts (successes rs) (start rs)
unfolding start
start-Counts rs = let h = fresh rs in ground arith
