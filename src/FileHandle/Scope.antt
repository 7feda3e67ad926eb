-- ===== src/FileHandle/Scope.antt =====
-- However the `try` block is left, the file is closed once, after the last write.
use cpp_design_patterns.Prelude.{
  ℕ, zero, suc, ◌+◌, ◌<◌, ◌≡◌, refl, sym, ap, subst, ◌∙◌, ◌⊎◌, inl, inr, String, ◌<>◌, List, [],
  ◌∷◌, ◌++◌, append_assoc, append-nil, Bool-cases, some, Option-cases, arith,
}
use cpp_design_patterns.Prelude.Result.{runtime_error, Result, ok, throws}
use cpp_design_patterns.FileHandle.{
  Library, Call, opened, wrote, closed, line_of, World, make, write_lines, with_log, exit_code,
  run_main,
}

-- The writes of lines in order.
abbrev pub writes : ℕ → String → ℕ → ℕ → List Call
writes file prefix i zero = []
writes file prefix i (suc n) = wrote (line_of prefix i) file ∷ writes file prefix (i + 1) n

module _ (c : Library) where
  -- Some of the lines are written, all when nothing is thrown; the streams stay.
  record Writes (file : ℕ) (prefix : String) (i count : ℕ) (w : World c)
      (r : World c × Result (Unit {0})) : Type 0 where
    after : World c
    outcome : Result (Unit {0})
    whole : r ≡ (after, outcome)
    sent : ℕ
    calls : after.calls ≡ w.calls ++ writes file prefix i sent
    errors : after.err ≡ w.err
    result :
        ((sent ≡ count) × (outcome ≡ ok tt))
        ⊎ ((sent < count) × (outcome ≡ throws (runtime_error "write failed")))

  write_lines-Writes :
      (file : ℕ) (prefix : String) (i count : ℕ) (w : World c)
      → Writes file prefix i count w (write_lines c file prefix i count w)
  unfolding write_lines
  write_lines-Writes file prefix i zero w = record {
    after = w;
    outcome = ok tt;
    whole = refl;
    sent = 0;
    calls = sym (append-nil w.calls);
    errors = refl;
    result = inl (refl, refl);
  }
  write_lines-Writes file prefix i (suc count) w =
      let answer = c.fputs (line_of prefix i) file w.state in
      elim (Bool-cases answer.1) [
        | inr bad ↦
            rw (write_lines, bad)
              record {
                after = record w { state = answer.0 };
                outcome = throws (runtime_error "write failed");
                whole = refl;
                sent = 0;
                calls = sym (append-nil w.calls);
                errors = refl;
                result = inr (omega arith, refl);
              }
        | inl good ↦
            let one = wrote (line_of prefix i) file ∷ [] in
            let next = record w { state = answer.0; calls = w.calls ++ one } in
            let rest = write_lines-Writes file prefix (i + 1) count next in
            rw (write_lines, good)
              record {
                after = rest.after;
                outcome = rest.outcome;
                whole = rest.whole;
                sent = suc rest.sent;
                calls =
                    rest.calls ∙ append_assoc w.calls one (writes file prefix (i + 1) rest.sent);
                errors = rest.errors;
                result = elim rest.result [
                  | inl (all, e) ↦ inl (omega arith, e)
                  | inr (less, e) ↦ inr (omega arith, e)
                ];
              }
      ]

  make_cases :
      (path mode : String) (w : World c)
      → let s = (c.fopen path mode w.state).0 in
        (make c path mode w
          ≡ (record w { state = s }, throws (runtime_error ("fopen failed: " <> c.strerror s))))
        ⊎ ((file : ℕ) × (make c path mode w ≡ (
          record w { state = s; calls = w.calls ++ (opened file ∷ []) },
          ok (record { file_ = some file }),
        )))
  unfolding make
  make_cases path mode w = elim (Option-cases (c.fopen path mode w.state).1) [
    | inl e ↦ inl (rw (make, e) refl)
    | inr (file, e) ↦ inr (file, rw (make, e) refl)
  ]

  -- The calls of a `try` block that opened a file.
  abbrev pub scope_calls : ℕ → String → ℕ → List Call
  scope_calls file prefix sent = opened file ∷ writes file prefix 0 sent ++ (closed file ∷ [])

  data Left (prefix : String) (count : ℕ) (w : World c) : World c × Result (Unit {0}) → Type 0 where
    not_opened :
        (s : c.State)
        → Left prefix count w
            (record w { state = s }, throws (runtime_error ("fopen failed: " <> c.strerror s)))
    all_written :
        (file : ℕ) (after : World c)
        → after.calls ≡ w.calls ++ scope_calls file prefix count
        → after.err ≡ w.err
        → Left prefix count w (after, ok tt)
    some_written :
        (file sent : ℕ) (after : World c)
        → sent < count
        → after.calls ≡ w.calls ++ scope_calls file prefix sent
        → after.err ≡ w.err
        → Left prefix count w (after, throws (runtime_error "write failed"))

  with_log-Left :
      (prefix : String) (count : ℕ) (w : World c)
      → Left prefix count w (with_log c prefix count (make c "raii.log" "w" w))
  unfolding with_log
  with_log-Left prefix count w = elim (make_cases "raii.log" "w" w) [
    | inl e ↦ rw (e) (not_opened _)
    | inr (file, e) ↦
        let start = record w {
          state = (c.fopen "raii.log" "w" w.state).0;
          calls = w.calls ++ (opened file ∷ []);
        } in
        let r = write_lines-Writes file prefix 0 count start in
        let made =
          ap (λ x. x ++ (closed file ∷ [])) r.calls
          ∙ append_assoc (w.calls ++ (opened file ∷ [])) (writes file prefix 0 r.sent)
              (closed file ∷ [])
          ∙ append_assoc w.calls (opened file ∷ [])
              (writes file prefix 0 r.sent ++ (closed file ∷ [])) in
        elim r.result [
          | inl (all, f) ↦
              rw (e, r.whole, f)
                (all_written file _
                  (subst
                    (λ n.
                      r.after.calls ++ (closed file ∷ []) ≡ w.calls ++ scope_calls file prefix n)
                    all made)
                  r.errors)
          | inr (less, f) ↦ rw (e, r.whole, f) (some_written file r.sent _ less made r.errors)
        ]
  ]

  -- How the program ends: the calls it made on files, the lines on the error stream, the exit code.
  abbrev pub Ends : World c → World c × ℕ → List Call → List String → ℕ → Type 0
  Ends w r made lines code =
      (r.0.calls ≡ w.calls ++ made) × (r.0.err ≡ w.err ++ lines) × (r.1 ≡ code)

  -- The three ways.
  abbrev pub MainEnds : World c → World c × ℕ → Type 0
  MainEnds w r =
      ((m : String) × Ends w r [] (("Error: " <> (("fopen failed: " <> m) <> "\n")) ∷ []) 1)
      ⊎ ((file sent : ℕ) × (((sent ≡ 3) × Ends w r (scope_calls file "request" sent) [] 0)
            ⊎ ((sent < 3)
                × Ends w r (scope_calls file "request" sent) ("Error: write failed\n" ∷ []) 1)))

  exit_code-Ends :
      (w : World c) (lines : List String) (r : World c × Result (Unit {0}))
      → Left "request" 3 (record w { out = lines }) r
      → MainEnds w (exit_code c r)
  unfolding exit_code
  exit_code-Ends w lines _ (not_opened s) =
      inl (c.strerror s, (sym (append-nil w.calls), refl, refl))
  exit_code-Ends w lines _ (all_written file after e f) =
      inr (file, 3, inl (refl, (e, f ∙ sym (append-nil w.err), refl)))
  exit_code-Ends w lines _ (some_written file sent after less e f) =
      inr (file, sent, inr (less, (e, ap (λ x. x ++ ("Error: write failed\n" ∷ [])) f, refl)))

  -- Whatever the C library answers, `main` ends in one of three ways. The file did not open: no
  -- call is made on a file, the error is printed and the exit code is 1. Or it opened, all three
  -- lines were written in order and then it was closed: the exit code is 0 and nothing is printed
  -- as an error. Or it opened, fewer lines were written in order and then it was closed: the error
  -- is printed and the exit code is 1.
  pub run_main-Ends : (w : World c) → MainEnds w (run_main c w)
  unfolding run_main
  run_main-Ends w =
      exit_code-Ends w (w.out ++ ("RAII example: writing a small log file.\n" ∷ [])) _
        (with_log-Left "request" 3 _)
