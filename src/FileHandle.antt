-- ===== src/FileHandle.antt =====
-- examples/raii/main.cpp: `FileHandle` and the program that writes through it. The C library's
-- calls are a parameter; the model keeps the calls made on files and the lines of the two streams.
pub mod Scope
mod Tests
use cpp_design_patterns.Prelude.{
  ℕ, zero, suc, ◌+◌, String, ◌<>◌, List, [], ◌∷◌, ◌++◌, Bool, true, false, Option, none, some,
}
use cpp_design_patterns.Prelude.Decimal.{to_string}
use cpp_design_patterns.Prelude.Result.{
  Exception, runtime_error, invalid_argument, out_of_range, bad_alloc, what, Result, ok, throws,
  ◌>>=◌,
}

-- `fopen` gives a file or nothing, `fputs` whether it wrote.
pub record Library : Type 1 where
  pub State : Type 0
  pub fopen : String → String → State → State × Option ℕ
  pub fputs : String → ℕ → State → State × Bool
  pub fclose : ℕ → State → State
  pub strerror : State → String

-- The successful openings, the writes and the closings so far.
pub data Call : Type 0 where
  opened : (file : ℕ) → Call
  wrote : (line : String) (file : ℕ) → Call
  closed : (file : ℕ) → Call

-- A handle owns a file, or none once it has been moved from.
pub record FileHandle : Type 0 where
  pub file_ : Option ℕ

abbrev pub line_of : String → ℕ → String
line_of prefix i = prefix <> (" line " <> (to_string i <> "\n"))

module _ (c : Library) where
  pub record World : Type 0 where
    pub state : c.State
    pub calls : List Call
    pub out : List String
    pub err : List String

  -- The constructor.
  unfoldable pub make : String → String → World → World × Result FileHandle
  make path mode w =
      let (s, f) = c.fopen path mode w.state in
      elim f [
        | none ↦ (record w { state = s }, throws (runtime_error ("fopen failed: " <> c.strerror s)))
        | some file ↦ (
          record w { state = s; calls = w.calls ++ (opened file ∷ []) },
          ok (record { file_ = some file }),
        )
      ]

  unfoldable pub destroy : FileHandle → World → World
  destroy h w = elim h.file_ [
    | none ↦ w
    | some file ↦ record w { state = c.fclose file w.state; calls = w.calls ++ (closed file ∷ []) }
  ]

  -- `write_lines` from line `i` on, with `count` lines to go.
  unfoldable pub write_lines : ℕ → String → ℕ → ℕ → World → World × Result (Unit {0})
  unfolding to_string
  write_lines file prefix i zero w = (w, ok tt)
  write_lines file prefix i (suc count) w =
      let (s, good) = c.fputs (line_of prefix i) file w.state in
      elim good [
        | false ↦ (record w { state = s }, throws (runtime_error "write failed"))
        | true ↦
            write_lines file prefix (i + 1) count
              (record w { state = s; calls = w.calls ++ (wrote (line_of prefix i) file ∷ []) })
      ]

  -- The end of the `try` block: the handle is destroyed however the writing ended.
  unfoldable pub leave : FileHandle → World × Result (Unit {0}) → World × Result (Unit {0})
  unfolding destroy
  leave log (w, throws e) = (destroy log w, throws e)
  leave log (w, ok _) = (
    destroy log
        (record w { out = w.out ++ ("Wrote raii.log; handle closes automatically.\n" ∷ []) }),
    ok tt,
  )

  -- The `try` block after the handle's construction.
  unfoldable pub with_log : String → ℕ → World × Result FileHandle → World × Result (Unit {0})
  unfolding write_lines leave
  with_log prefix count (w, throws e) = (w, throws e)
  with_log prefix count (w, ok log) = elim log.file_ [
    | none ↦ (w, ok tt)
    | some file ↦ leave log (write_lines file prefix 0 count w)
  ]

  -- The handler of exceptions, and the exit code.
  unfoldable pub exit_code : World × Result (Unit {0}) → World × ℕ
  exit_code (w, ok _) = (w, 0)
  exit_code (w, throws e) = (record w { err = w.err ++ (("Error: " <> (what e <> "\n")) ∷ []) }, 1)

  unfoldable pub run_main : World → World × ℕ
  unfolding make with_log exit_code
  run_main w =
      let told = record w { out = w.out ++ ("RAII example: writing a small log file.\n" ∷ []) } in
      exit_code (with_log "request" 3 (make "raii.log" "w" told))
