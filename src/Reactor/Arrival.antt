-- ===== src/Reactor/Arrival.antt =====
-- From a writer to its handler: what `simulate_source` sends through a pipe is what the handler's
-- turns log.
use Prim.Native.Char.{Char, code}
use text.Mathlib.TextLemmas.{nil-append, cons-append}
use cpp_design_patterns.Prelude.{
  ℕ, zero, suc, ◌+◌, drop, length-take, length-drop, ◌≤◌, ◌<◌, ◌≡◌, refl, ap, ◌∙◌, String, ◌<>◌,
  List, [], ◌∷◌, ◌++◌, append_assoc, append-nil, map, All, Bool, true, false, Option, none, some,
  eqb, take, length, length-append, arith,
}
use cpp_design_patterns.Prelude.Int.{ℤ}
use cpp_design_patterns.Prelude.Result.{Result, ok, throws}
use cpp_design_patterns.Log.{Log, line}
use cpp_design_patterns.Reactor.{end_of_file, byte, Os, chars, drain_one_message, simulate_source}
use cpp_design_patterns.Reactor.Framing.{
  Takes, stream, AllFit, simulate_source-Emitted, Delivers, as_string, drain_one_message_lem,
}

-- A pipe: the bytes in it, how many it takes, and whether its two ends are open. While both are, and what is written
-- fits into it, a write takes at least one of the bytes offered. While the read end is open, a read gives the first
-- byte in the pipe, and once it is empty and the write end closed, the end of the file. Nothing is said of an end
-- that is closed, nor of a full pipe. No other thread uses the pipe meanwhile, and no signal interrupts a call.
pub record Pipe (os : Os) (write_end read_end : ℤ) : Type 0 where
  pub held : os.State → List Char
  pub capacity : ℕ
  pub is_closed : os.State → Bool
  pub is_readable : os.State → Bool
  pub write_takes :
      (c : Char) (rest : List Char) (s : os.State)
      → is_closed s ≡ false
      → is_readable s ≡ true
      → length (held s) + length (c ∷ rest) ≤ capacity
      → (n : ℕ) × ((os.write write_end (c ∷ rest) s).1 ≡ some n)
        × (0 < n)
        × (n ≤ length (c ∷ rest))
        × (held (os.write write_end (c ∷ rest) s).0 ≡ held s ++ take n (c ∷ rest))
        × (is_closed (os.write write_end (c ∷ rest) s).0 ≡ false)
        × (is_readable (os.write write_end (c ∷ rest) s).0 ≡ true)
  pub close_keeps :
      (s : os.State)
      → is_closed s ≡ false
      → (held (os.close write_end s) ≡ held s)
        × (is_closed (os.close write_end s) ≡ true)
        × (is_readable (os.close write_end s) ≡ is_readable s)
  pub read_gives :
      (c : Char) (rest : List Char) (s : os.State)
      → is_readable s ≡ true
      → held s ≡ c ∷ rest
      → ((os.read read_end s).1 ≡ byte c)
        × (held (os.read read_end s).0 ≡ rest)
        × (is_closed (os.read read_end s).0 ≡ is_closed s)
        × (is_readable (os.read read_end s).0 ≡ true)
  pub read_ends :
      (s : os.State)
      → is_readable s ≡ true
      → held s ≡ []
      → is_closed s ≡ true
      → (os.read read_end s).1 ≡ end_of_file

-- Calls of the handler, one behind the other, until one does not keep the source open. The loop that makes them is
-- in Reactor/Loop; here only what the calls give is at stake.
unfoldable pub drain_all :
    (os : Os)
    → (turns fuel : ℕ) → ℤ
    → String
    → os.State × Log
    → Option ((os.State × Log) × Result (Unit {0}))
unfolding drain_one_message
drain_all os zero fuel fd source_name s = none
drain_all os (suc turns) fuel fd source_name s =
    elim (drain_one_message os fuel fd source_name "" s) [
      | none ↦ none
      | some (s', throws e) ↦ some (s', throws e)
      | some (s', ok false) ↦ some (s', ok tt)
      | some (s', ok true) ↦ drain_all os turns fuel fd source_name s'
    ]

-- No character of a payload is a newline.
abbrev pub IsPlain : String → Type 0
IsPlain payload = All (λ c. eqb (code c) b'\n' ≡ false) (chars payload)

abbrev pub handled_line : String → String → String
handled_line source_name payload = line ("[reactor] " ∷ source_name ∷ " -> " ∷ payload ∷ [])

abbrev pub eof_line : String → String
eof_line source_name = line ("[reactor] " ∷ source_name ∷ " -> EOF" ∷ [])

abbrev newline : Char
newline = "\n"

as_string-chars : (s : String) → as_string (chars s) ≡ s
as_string-chars String.[] = refl
as_string-chars (String.◌∷◌ c s) = ap (λ t. String.◌∷◌ c t) (as_string-chars s)

chars-append : (s t : String) → chars (s <> t) ≡ chars s ++ chars t
chars-append String.[] t = ap chars (nil-append t)
chars-append (String.◌∷◌ c s) t = ap chars (cons-append c s t) ∙ ap (◌∷◌ c) (chars-append s t)

module _ (os : Os) (write_end read_end : ℤ) (pipe : Pipe os write_end read_end) where
  room_left :
      (c : Char) (rest : List Char) (more : ℕ) (s : os.State)
      → (pipe.is_closed s ≡ false)
        × (pipe.is_readable s ≡ true)
        × (length (pipe.held s) + (length (c ∷ rest) + more) ≤ pipe.capacity)
      → (n : ℕ) × ((os.write write_end (c ∷ rest) s).1 ≡ some n)
        × (0 < n)
        × (n ≤ length (c ∷ rest))
        × (pipe.held (os.write write_end (c ∷ rest) s).0 ≡ pipe.held s ++ take n (c ∷ rest))
        × ((pipe.is_closed (os.write write_end (c ∷ rest) s).0 ≡ false)
            × (pipe.is_readable (os.write write_end (c ∷ rest) s).0 ≡ true)
            × (length (pipe.held (os.write write_end (c ∷ rest) s).0)
                  + (length (drop n (c ∷ rest)) + more)
                ≤ pipe.capacity))
  room_left c rest more s (open_, readable, room) =
      let (n, e, some_taken, bound, held, open', readable') =
        pipe.write_takes c rest s open_ readable (omega arith) in
      (
        n,
        e,
        some_taken,
        bound,
        held,
        (
          open',
          readable',
          omega (
            arith,
            ap length held,
            length-append (pipe.held s) (take n (c ∷ rest)),
            length-take n (c ∷ rest),
            length-drop n (c ∷ rest),
          ),
        ),
      )

  abbrev writes : Takes os write_end
  writes = record {
    sent = pipe.held;
    HasRoom = λ m s.
        (pipe.is_closed s ≡ false)
        × (pipe.is_readable s ≡ true)
        × (length (pipe.held s) + m ≤ pipe.capacity);
    write_takes = room_left;
    close_keeps = λ s room. (pipe.close_keeps s room.0).0;
  }

  -- The next reads give the characters of a line and its newline.
  record Line (cs : List Char) (newline : Char) (rest : List Char) (s : os.State) : Type 0 where
    after : os.State
    delivers : Delivers os read_end cs s (byte newline) after
    left : pipe.held after ≡ rest
    closed : pipe.is_closed after ≡ pipe.is_closed s
    readable : pipe.is_readable after ≡ true

  held-Line :
      (cs : List Char) (newline : Char) (rest : List Char) (s : os.State)
      → pipe.is_readable s ≡ true
      → pipe.held s ≡ cs ++ (newline ∷ rest)
      → All (λ c. eqb (code c) b'\n' ≡ false) cs
      → Line cs newline rest s
  held-Line [] newline rest s r h plain =
      let (e, left, closed, readable) = pipe.read_gives newline rest s r h in
      record {
        after = (os.read read_end s).0;
        delivers = (e, refl);
        left = left;
        closed = closed;
        readable = readable;
      }
  held-Line (c ∷ cs) newline rest s r h (p, ps) =
      let (e, left, closed, readable) = pipe.read_gives c (cs ++ (newline ∷ rest)) s r h in
      let l = held-Line cs newline rest (os.read read_end s).0 readable left ps in
      record {
        after = l.after;
        delivers = (p, e, l.delivers);
        left = l.left;
        closed = l.closed ∙ closed;
        readable = l.readable;
      }

  -- What the turns on a closed pipe leave behind.
  record Drained (source_name : String) (payloads : List String) (log : Log)
      (out : Option ((os.State × Log) × Result (Unit {0}))) : Type 0 where
    state : os.State
    result :
        out
        ≡ some (
          (state, (log ++ map (handled_line source_name) payloads) ++ (eof_line source_name ∷ [])),
          ok tt,
        )

  drain_all-Drained :
      (fuel : ℕ) (source_name : String) (payloads : List String) (s : os.State) (log : Log)
      → pipe.is_readable s ≡ true
      → pipe.held s ≡ stream payloads
      → pipe.is_closed s ≡ true
      → All IsPlain payloads
      → AllFit fuel payloads
      → 0 < fuel
      → Drained source_name payloads log
          (drain_all os (suc (length payloads)) fuel read_end source_name (s, log))
  unfolding drain_all
  drain_all-Drained fuel source_name [] s log r h closed plain fit some_fuel =
      let e = pipe.read_ends s r h closed in
      let turn =
        drain_one_message_lem os read_end source_name fuel [] "" s end_of_file
          (os.read read_end s).0 log some_fuel (e, refl) refl in
      record { state = (os.read read_end s).0; result = rw (drain_all, turn, append-nil log) refl }
  drain_all-Drained fuel source_name (payload ∷ payloads) s log r h closed (p, ps) (fit, fits)
        some_fuel =
      let split : pipe.held s ≡ chars payload ++ (newline ∷ stream payloads) =
        h
        ∙ ap (λ cs. cs ++ stream payloads) (chars-append payload "\n")
        ∙ append_assoc (chars payload) (newline ∷ []) (stream payloads) in
      let l = held-Line (chars payload) newline (stream payloads) s r split p in
      let short : length (chars payload) < fuel = omega (
        arith,
        fit,
        ap length (chars-append payload "\n"),
        length-append (chars payload) (newline ∷ []),
      ) in
      let turn =
        drain_one_message_lem os read_end source_name fuel (chars payload) "" s (byte newline)
          l.after log short l.delivers refl in
      let message : "" <> as_string (chars payload) ≡ payload =
        nil-append (as_string (chars payload)) ∙ as_string-chars payload in
      let later =
        drain_all-Drained fuel source_name payloads l.after
          (log ++ (handled_line source_name payload ∷ [])) l.readable l.left (l.closed ∙ closed) ps
          fits some_fuel in
      record {
        state = later.state;
        result =
            rw (drain_all, turn, message)
              (later.result
                ∙ ap (λ x. some ((later.state, x ++ (eof_line source_name ∷ [])), ok tt))
                    (append_assoc log (handled_line source_name payload ∷ [])
                      (map (handled_line source_name) payloads)));
      }

  -- With a pipe that is open at both ends, is empty and has room for all lines, payloads without newlines, and fuel
  -- for each line: `simulate_source` returns without an exception, however few bytes a write takes, and then as many
  -- calls of `drain_one_message` at the read end as there are payloads and one more end the source without an
  -- exception, having logged each payload once, in order, and then the end of file.
  pub payloads_arrive :
      (fuel : ℕ) (writer_name source_name : String) (payloads : List String) (s : os.State)
      (log : Log)
      → pipe.is_closed s ≡ false
      → pipe.is_readable s ≡ true
      → pipe.held s ≡ []
      → length (stream payloads) ≤ pipe.capacity
      → All IsPlain payloads
      → AllFit fuel payloads
      → 0 < fuel
      → (s' : os.State) × (log' : Log) × (s'' : os.State) × (simulate_source os fuel write_end
            writer_name payloads
            (s, log)
          ≡ some ((s', log'), ok tt))
        × (drain_all os (suc (length payloads)) fuel read_end source_name (s', log')
            ≡ some (
              (
                s'',
                (log' ++ map (handled_line source_name) payloads) ++ (eof_line source_name ∷ []),
              ),
              ok tt,
            ))
  payloads_arrive fuel writer_name source_name payloads s log open_ readable none_held small plain
        fits some_fuel =
      let w =
        simulate_source-Emitted os write_end writes fuel writer_name payloads s log fits
          (open_, readable, omega (arith, ap length none_held)) in
      let s' = os.close write_end w.state in
      let all : pipe.held s' ≡ stream payloads =
        w.whole ∙ ap (λ bytes. bytes ++ stream payloads) none_held in
      let d =
        drain_all-Drained fuel source_name payloads s' w.log
          ((pipe.close_keeps w.state w.room.0).2 ∙ w.room.1) all
          (pipe.close_keeps w.state w.room.0).1 plain fits some_fuel in
      (s', w.log, d.state, w.result, d.result)
