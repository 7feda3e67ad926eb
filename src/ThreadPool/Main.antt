-- ===== src/ThreadPool/Main.antt =====
-- `main` of examples/thread_pool/main.cpp: ten requests are submitted, and their results added up. A
-- result is none where an `int` of `expensive_parse` overflowed; the sum is a `long long`.
use cpp_design_patterns.Prelude.{
  ℕ, zero, map, suc, String, ◌+◌, ◌*◌, ◌^◌, ◌≤◌, ◌<◌, ◌≡◌, refl, sym, ap, subst, ◌∙◌, ◌⊎◌, inl, inr,
  false, List, [], ◌∷◌, Option, none, some, Option-cases, length, arith,
}
use cpp_design_patterns.Prelude.Decimal.{to_string}
use cpp_design_patterns.Prelude.Result.{Exception, Result, ok, throws}
use cpp_design_patterns.Log.{Log, log_line}
use cpp_design_patterns.ThreadPool.{ThreadPool, Event, submits, notifies, make, run}
use cpp_design_patterns.ThreadPool.Parse.{expensive_parse, expensive_parse_fits}
use cpp_design_patterns.ThreadPool.Futures.{get_all, one_by_one, accepted}
use cpp_design_patterns.ThreadPool.Progress.{worker_events, work_due}
use cpp_design_patterns.ThreadPool.Completion.{values_got, values_come}

-- The calls of `submit` for `left` requests from `req_id` on, each with its notification.
abbrev pub submissions : (left req_id : ℕ) → List (Event (Option ℕ))
submissions zero req_id = []
submissions (suc left) req_id =
    submits (ok (expensive_parse req_id)) ∷ notifies ∷ submissions left (req_id + 1)

-- The results of those requests, as one thread alone would compute them.
abbrev pub parsed : (left req_id : ℕ) → List (Option ℕ)
parsed zero req_id = []
parsed (suc left) req_id = expensive_parse req_id ∷ parsed left (req_id + 1)

-- `total += f.get()`
unfoldable pub add_up : ℕ → List (Option ℕ) → Option ℕ
add_up total [] = some total
add_up total (none ∷ values) = none
add_up total (some value ∷ values) = add_up (total + value) values

-- How the rest of `main` ends: it blocks in a `get`, an exception leaves it, an overflow made it
-- undefined, or it has printed.
pub data Ending : Type 0 where
  blocked : Ending
  threw : Exception → Ending
  undefined : Ending
  printed : Log → Ending

abbrev pub checksum_line : ℕ → Log → Log
checksum_line total = log_line ("Processed 10 requests; checksum=" ∷ to_string total ∷ [])

unfoldable pub print_total : Option (Result (List (Option ℕ))) → Log → Ending
unfolding add_up
print_total none log = blocked
print_total (some (throws e)) log = threw e
print_total (some (ok values)) log = elim (add_up 0 values) [
  | none ↦ undefined
  | some total ↦ printed (checksum_line total log)
]

-- The start of `main`.
unfoldable pub start_main : ℕ → Log → Log × Result (ThreadPool (Option ℕ))
start_main threads log =
    let banner : String = "Thread pool example: fan-out parsing stage." in
    (log_line (banner ∷ []) log, make threads)

-- The rest of `main` after the submissions.
unfoldable pub finish_main : ThreadPool (Option ℕ) → Log → Ending
unfolding get_all print_total
finish_main p log = print_total (get_all 10 0 p) log

abbrev pub sum : List ℕ → ℕ
sum [] = 0
sum (value ∷ values) = value + sum values

add_up-sum :
    (values : List ℕ) (total : ℕ) → add_up total (map some values) ≡ some (total + sum values)
unfolding add_up
add_up-sum [] total = ap some (omega arith)
add_up-sum (value ∷ values) total = add_up-sum values (total + value) ∙ ap some (omega arith)

-- No request up to ten overflows, and the sum stays in range.
parsed_fits :
    (left req_id : ℕ)
    → req_id + left ≤ 11
    → (values : List ℕ) × (parsed left req_id ≡ map some values) × (sum values ≤ left * 1_000_002)
parsed_fits zero req_id h = ([], refl, omega arith)
parsed_fits (suc left) req_id h =
    let (value, e, small) = expensive_parse_fits req_id (omega arith) in
    let (values, f, bound) = parsed_fits left (req_id + 1) (omega arith) in
    (value ∷ values, rw (e, f) refl, omega arith)

print_total-values :
    (values : List (Option ℕ)) (total : ℕ) (log : Log)
    → add_up 0 values ≡ some total
    → print_total (some (ok values)) log ≡ printed (checksum_line total log)
unfolding print_total
print_total-values values total log e = rw (e, print_total) refl

-- On a pool of any number of threads, after any interleaving of `main`'s ten submissions with the
-- workers: none of the ten calls overflows an `int`, and the sum of their values fits a `long long`; `main`
-- either blocks in a `get` or prints that sum; and once the workers and the notifications due have gone
-- on, it prints it.
pub main_checksum :
    (n : ℕ) (p : ThreadPool (Option ℕ)) (es : List (Event (Option ℕ))) (before log : Log)
    → start_main n before ≡ (log, ok p)
    → accepted es ≡ accepted (submissions 10 1)
    → (run p es).stopping ≡ false
    → let s = run p es in
      (values : List ℕ) × (parsed 10 1 ≡ map some values)
      × (sum values < 2 ^ 63)
      × ((finish_main s log ≡ blocked)
          ⊎ (finish_main s log ≡ printed (checksum_line (sum values) log)))
      × (finish_main (run s (worker_events (work_due s) s)) log
          ≡ printed (checksum_line (sum values) log))
unfolding finish_main start_main
main_checksum n p es before log e same off =
    let made : make n ≡ ok p = ap (λ x. x.1) e in
    let s = run p es in
    let later = run s (worker_events (work_due s) s) in
    let (values, all, bound) = parsed_fits 10 1 (omega arith) in
    let added : add_up 0 (parsed 10 1) ≡ some (sum values) =
      ap (add_up 0) all ∙ add_up-sum values 0 ∙ ap some (omega arith) in
    let come : get_all 10 0 later ≡ some (ok (parsed 10 1)) =
      subst (λ outcomes. get_all (length outcomes) 0 later ≡ some (one_by_one outcomes)) same
        (values_come n p es made off) in
    (
      values,
      all,
      omega arith,
      elim (Option-cases (get_all 10 0 s)) [
        | inl none_yet ↦ inl (ap (λ got. print_total got log) none_yet)
        | inr (got, now) ↦
            let right : got ≡ ok (parsed 10 1) =
              subst (λ outcomes. got ≡ one_by_one outcomes) same
                (values_got n p es got made
                  (subst (λ outcomes. get_all (length outcomes) 0 s ≡ some got) (sym same) now)) in
            inr (
              ap (λ g. print_total g log) (now ∙ ap some right)
              ∙ print_total-values (parsed 10 1) (sum values) log added)
      ],
      ap (λ got. print_total got log) come
          ∙ print_total-values (parsed 10 1) (sum values) log added,
    )
