-- ===== src/Reactor/Framing.antt =====
-- Messages on a descriptor: what a writer sends arrives whole in spite of partial writes, and a
-- handler's turn takes exactly one line.
use Prim.Native.Char.{Char, code}
use text.Mathlib.TextLemmas.{
  nil-append, cons-append, append_assoc as string_assoc, append-nil as string_nil,
}
use cpp_design_patterns.Prelude.{
  ℕ, zero, suc, ◌+◌, subst, length-append, ◌≤◌, ◌<◌, ◌≡◌, refl, sym, ap, ◌∙◌, String, ◌<>◌, List,
  [], ◌∷◌, ◌++◌, append_assoc, append-nil, Bool, true, false, Option, some, eqb, take, drop, length,
  length-drop, take-append-drop, if◌then◌else◌, ◌==◌, string_eq, arith,
}
use cpp_design_patterns.Prelude.Int.{ℤ}
use cpp_design_patterns.Prelude.Result.{runtime_error, Result, ok, throws}
use cpp_design_patterns.Log.{Log, log_line}
use cpp_design_patterns.Reactor.{
  ReadResult, failed, end_of_file, byte, Os, chars, write_message, drain_one_message,
  simulate_source,
}

-- A descriptor that takes what is written: `sent` is what it took. While it is open and has room for some bytes, a
-- write of the first of them takes at least one, perhaps not all, and leaves room for the others. Closing
-- it takes nothing back.
pub record Takes (os : Os) (fd : ℤ) : Type 1 where
  pub sent : os.State → List Char
  pub HasRoom : ℕ → os.State → Type 0
  pub write_takes :
      (c : Char) (rest : List Char) (more : ℕ) (s : os.State)
      → HasRoom (length (c ∷ rest) + more) s
      → (n : ℕ) × ((os.write fd (c ∷ rest) s).1 ≡ some n)
        × (0 < n)
        × (n ≤ length (c ∷ rest))
        × (sent (os.write fd (c ∷ rest) s).0 ≡ sent s ++ take n (c ∷ rest))
        × HasRoom (length (drop n (c ∷ rest)) + more) (os.write fd (c ∷ rest) s).0
  pub close_keeps : (s : os.State) → HasRoom 0 s → sent (os.close fd s) ≡ sent s

module _ (os : Os) (fd : ℤ) (takes : Takes os fd) where
  record Sent (message : List Char) (more : ℕ) (s : os.State)
      (out : Option (os.State × Result (Unit {0}))) : Type 0 where
    state : os.State
    result : out ≡ some (state, ok tt)
    whole : takes.sent state ≡ takes.sent s ++ message
    room : takes.HasRoom more state

  write_message-Sent :
      (fuel : ℕ) (message : List Char) (more : ℕ) (s : os.State)
      → length message ≤ fuel
      → takes.HasRoom (length message + more) s
      → Sent message more s (write_message os fuel fd message s)
  unfolding write_message
  write_message-Sent fuel [] more s h room = record {
    state = s;
    result = refl;
    whole = sym (append-nil (takes.sent s));
    room = subst (λ m. takes.HasRoom m s) (omega arith) room;
  }
  write_message-Sent zero (c ∷ rest) more s h room = absurd (omega arith)
  write_message-Sent (suc fuel) (c ∷ rest) more s h room =
      let (n, e, some_taken, bound, sent, room') = takes.write_takes c rest more s room in
      let left = drop n (c ∷ rest) in
      let later =
        write_message-Sent fuel left more (os.write fd (c ∷ rest) s).0
          (omega (arith, length-drop n (c ∷ rest))) room' in
      rw (write_message, e)
        record {
          state = later.state;
          result = later.result;
          whole =
              later.whole
              ∙ ap (λ x. x ++ left) sent
              ∙ append_assoc (takes.sent s) (take n (c ∷ rest)) left
              ∙ ap (λ x. takes.sent s ++ x) (take-append-drop n (c ∷ rest));
          room = later.room;
        }

-- The bytes of a source's lines.
abbrev pub stream : List String → List Char
stream [] = []
stream (payload ∷ payloads) = chars (payload <> "\n") ++ stream payloads

-- Enough fuel for each line.
abbrev pub AllFit : ℕ → List String → Type 0
AllFit fuel [] = Unit
AllFit fuel (payload ∷ payloads) = (length (chars (payload <> "\n")) ≤ fuel) × AllFit fuel payloads

-- What a writer leaves behind.
pub record Emitted (os : Os) (fd : ℤ) (takes : Takes os fd) (bytes : List Char) (s : os.State)
    (out : Option ((os.State × Log) × Result (Unit {0}))) : Type 0 where
  pub state : os.State
  pub log : Log
  pub result : out ≡ some ((os.close fd state, log), ok tt)
  pub room : takes.HasRoom 0 state
  pub whole : takes.sent (os.close fd state) ≡ takes.sent s ++ bytes

-- On a descriptor that takes what is written, in pieces of any size, with room for all lines, and with fuel for each:
-- `simulate_source` returns without an exception, its last call closes the descriptor, and what the
-- descriptor has then taken is what it had, followed by every payload in order with a newline after
-- each.
pub simulate_source-Emitted :
    (os : Os) (fd : ℤ) (takes : Takes os fd) (fuel : ℕ) (source_name : String)
    (payloads : List String) (s : os.State) (log : Log)
    → AllFit fuel payloads
    → takes.HasRoom (length (stream payloads)) s
    → Emitted os fd takes
        (stream payloads)
        s
        (simulate_source os fuel fd source_name payloads (s, log))
unfolding simulate_source
simulate_source-Emitted os fd takes fuel source_name [] s log fit room = record {
  state = s;
  log = _;
  result = refl;
  room = room;
  whole = takes.close_keeps s room ∙ sym (append-nil (takes.sent s));
}
simulate_source-Emitted os fd takes fuel source_name (payload ∷ payloads) s log (fit, fits) room =
    let line = chars (payload <> "\n") in
    let w =
      write_message-Sent os fd takes fuel line (length (stream payloads)) s fit
        (subst (λ m. takes.HasRoom m s) (length-append line (stream payloads)) room) in
    let later =
      simulate_source-Emitted os fd takes fuel source_name payloads w.state
        (log_line ("[" ∷ source_name ∷ "] emitted " ∷ payload ∷ []) log) fits w.room in
    record {
      state = later.state;
      log = later.log;
      result = rw (simulate_source, w.result) later.result;
      room = later.room;
      whole =
          later.whole
          ∙ ap (λ x. x ++ stream payloads) w.whole
          ∙ append_assoc (takes.sent s) line (stream payloads);
    }

module _ (os : Os) (fd : ℤ) where
  -- The next reads give some characters, none of them a newline, and then an answer.
  abbrev pub Delivers : List Char → os.State → ReadResult → os.State → Type 0
  Delivers [] s answer s' = ((os.read fd s).1 ≡ answer) × ((os.read fd s).0 ≡ s')
  Delivers (c ∷ cs) s answer s' =
      (eqb (code c) b'\n' ≡ false)
      × ((os.read fd s).1 ≡ byte c)
      × Delivers cs (os.read fd s).0 answer s'

  -- The answers that end a handler's turn.
  abbrev pub is_end : ReadResult → Bool
  is_end failed = true
  is_end end_of_file = true
  is_end (byte c) = eqb (code c) b'\n'

abbrev pub as_string : List Char → String
as_string [] = ""
as_string (c ∷ cs) = String.◌∷◌ c (as_string cs)

-- A turn's result, by the answer that ended it and the characters before it.
abbrev pub turn_result :
    (os : Os) → String → String → ReadResult → os.State → Log → (os.State × Log) × Result Bool
turn_result os source_name message failed s log =
    ((s, log), throws (runtime_error ("read failed: " <> os.error s)))
turn_result os source_name message end_of_file s log = (
  (
    s,
    log_line ("[reactor] " ∷ source_name ∷ " -> EOF" ∷ []) (
        if message == ""
        then log
        else log_line ("[reactor] " ∷ source_name ∷ " -> " ∷ message ∷ []) log),
  ),
  ok false,
)
turn_result os source_name message (byte c) s log =
    ((s, log_line ("[reactor] " ∷ source_name ∷ " -> " ∷ message ∷ []) log), ok true)

-- When the next reads of the descriptor give some characters without a newline and then a newline,
-- the end of file or an error, and the fuel is above their number, a handler's turn makes those
-- reads and no more: it logs the message with the characters added, on a newline staying open, at
-- the end of file (only if the message is not empty) also logging EOF and not staying open; on an
-- error it logs nothing and throws.
pub drain_one_message_lem :
    (os : Os) (fd : ℤ) (source_name : String) (fuel : ℕ) (cs : List Char) (message : String)
    (s : os.State) (answer : ReadResult) (s' : os.State) (log : Log)
    → length cs < fuel
    → Delivers os fd cs s answer s'
    → is_end os fd answer ≡ true
    → drain_one_message os fuel fd source_name message (s, log)
      ≡ some (turn_result os source_name (message <> as_string cs) answer s' log)
unfolding drain_one_message
drain_one_message_lem os fd name zero cs message s answer s' log h d e = absurd (omega arith)
drain_one_message_lem os fd name (suc fuel) [] message s failed s' log h (d, t) e =
    rw (drain_one_message, d, t) refl
drain_one_message_lem os fd name (suc fuel) [] message s end_of_file s' log h (d, t) e =
    rw (drain_one_message, d, t, string_nil message) refl
drain_one_message_lem os fd name (suc fuel) [] message s (byte c) s' log h (d, t) e =
    rw (drain_one_message, d, e, t, string_nil message) refl
drain_one_message_lem os fd name (suc fuel) (c ∷ cs) message s answer s' log h (plain, r, d) e =
    let more = message <> String.◌∷◌ c String.[] in
    let rest =
      drain_one_message_lem os fd name fuel cs more (os.read fd s).0 answer s' log (omega arith) d
        e in
    rw (drain_one_message, r, plain)
      (rest
        ∙ ap (λ m. some (turn_result os name m answer s' log))
            (string_assoc message (String.◌∷◌ c String.[]) (as_string cs)
              ∙ ap (λ m. message <> m)
                  (cons-append c String.[] (as_string cs)
                    ∙ ap (λ m. String.◌∷◌ c m) (nil-append (as_string cs)))))
