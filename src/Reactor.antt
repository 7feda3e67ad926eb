-- ===== src/Reactor.antt =====
-- examples/reactor/main.cpp: the operating system's calls as a parameter, pipes, messages on a
-- descriptor and the flags of `poll`. Whatever the writer threads do happens in the system's state
-- between two calls of the loop.
pub mod Fd
pub mod Loop
pub mod Ends
pub mod Turns
pub mod Rounds
pub mod Closing
pub mod Framing
pub mod Arrival
mod Tests
use Prim.Native.Char.{Char, code}
use cpp_design_patterns.Prelude.{
  ℕ, zero, suc, ◌+◌, ◌/◌, ◌%◌, ◌^◌, String, ◌<>◌, List, [], ◌∷◌, Bool, true, false, ◌||◌, Option,
  none, some, eqb, if◌then◌else◌, ◌==◌, string_eq, drop, length,
}
use cpp_design_patterns.Prelude.Int.{ℤ, pos, negsuc}
use cpp_design_patterns.Prelude.Result.{Exception, runtime_error, Result, ok, throws}
use cpp_design_patterns.Log.{Log, log_line}

pub data ReadResult : Type 0 where
  failed : ReadResult
  end_of_file : ReadResult
  byte : Char → ReadResult

-- A watch record of `poll`; all ask for POLLIN.
pub record Watcher : Type 0 where
  pub fd : ℤ
  pub revents : ℕ

-- The system's calls: what `poll` observes of each watcher, one byte read, how many bytes a write
-- took, and the message of the last error.
pub record Os : Type 1 where
  pub State : Type 0
  pub pipe : State → State × Option (ℤ × ℤ)
  pub poll : List Watcher → State → State × Option (List ℕ)
  pub read : ℤ → State → State × ReadResult
  pub write : ℤ → List Char → State → State × Option ℕ
  pub close : ℤ → State → State
  pub error : State → String

-- A flag of `revents` is one bit: POLLIN 0, POLLERR 3, POLLHUP 4.
abbrev pub has_bit : ℕ → ℕ → Bool
has_bit revents k = eqb (revents / 2 ^ k % 2) 1

abbrev pub pollin : ℕ → Bool
pollin revents = has_bit revents 0

abbrev pub pollerr : ℕ → Bool
pollerr revents = has_bit revents 3

abbrev pub pollhup : ℕ → Bool
pollhup revents = has_bit revents 4

unfoldable pub append_flag : String → Bool → String → String
append_flag name set out = if set then (if out == "" then "" else out <> "|") <> name else out

unfoldable pub describe_revents : ℕ → String
unfolding append_flag
describe_revents revents =
    let out =
      append_flag "POLLERR" (pollerr revents)
        (append_flag "POLLHUP" (pollhup revents) (append_flag "POLLIN" (pollin revents) "")) in
    if out == "" then "0" else out

abbrev pub chars : String → List Char
chars String.[] = []
chars (String.◌∷◌ c s) = c ∷ chars s

module _ (os : Os) where
  -- One round of fuel writes what the system takes at once; nothing when the fuel runs out.
  unfoldable pub write_message :
      ℕ → ℤ → List Char → os.State → Option (os.State × Result (Unit {0}))
  write_message fuel fd [] s = some (s, ok tt)
  write_message zero fd (c ∷ rest) s = none
  write_message (suc fuel) fd (c ∷ rest) s =
      let (s', written) = os.write fd (c ∷ rest) s in
      elim written [
        | none ↦ some (s', throws (runtime_error ("write failed: " <> os.error s')))
        | some n ↦ write_message fuel fd (drop n (c ∷ rest)) s'
      ]

  -- One round of fuel reads a byte: whether the source stays open.
  unfoldable pub drain_one_message :
      ℕ → ℤ → String → String → os.State × Log → Option ((os.State × Log) × Result Bool)
  drain_one_message zero fd source_name message (s, log) = none
  drain_one_message (suc fuel) fd source_name message (s, log) =
      let (s', n) = os.read fd s in
      let says = log_line ("[reactor] " ∷ source_name ∷ " -> " ∷ message ∷ []) log in
      elim n [
        | failed ↦ some ((s', log), throws (runtime_error ("read failed: " <> os.error s')))
        | end_of_file ↦ some (
          (
            s',
            log_line ("[reactor] " ∷ source_name ∷ " -> EOF" ∷ [])
                (if message == "" then log else says),
          ),
          ok false,
        )
        | byte ch ↦ elim (eqb (code ch) b'\n') [
          | true ↦ some ((s', says), ok true)
          | false ↦
              drain_one_message fuel fd source_name (message <> String.◌∷◌ ch String.[]) (s', log)
        ]
      ]

  -- `simulate_source` without its delays; the descriptor is closed when it returns or throws.
  unfoldable pub simulate_source :
      ℕ → ℤ → String → List String → os.State × Log → Option ((os.State × Log) × Result (Unit {0}))
  unfolding write_message
  simulate_source fuel fd source_name [] (s, log) = some (
    (os.close fd s, log_line ("[" ∷ source_name ∷ "] writer done; fd closes via RAII" ∷ []) log),
    ok tt,
  )
  simulate_source fuel fd source_name (payload ∷ payloads) (s, log) =
      elim (write_message fuel fd (chars (payload <> "\n")) s) [
        | none ↦ none
        | some (s', throws e) ↦ some ((os.close fd s', log), throws e)
        | some (s', ok _) ↦
            simulate_source fuel fd source_name payloads
              (s', log_line ("[" ∷ source_name ∷ "] emitted " ∷ payload ∷ []) log)
      ]
