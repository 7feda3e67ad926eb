-- ===== src/Reactor/Tests.antt =====
-- Runs of the event loop of examples/reactor/main.cpp on two pipes, and the theorems at concrete
-- inputs.
use Prim.Native.Char.{Char}
use cpp_design_patterns.Prelude.{
  ℕ, leb, ◌+◌, ◌≤◌, ◌≡◌, refl, ap, ◌⊎◌, inl, inr, String, List, [], ◌∷◌, ◌++◌, Bool, true, false,
  none, some, length, take, if◌then◌else◌, ◌==◌, ==_iff, ==_refl, not, Bool-cases, arith,
}
use cpp_design_patterns.Prelude.Dict.{Dict, find}
use cpp_design_patterns.Prelude.Int.{ℤ, pos, int_eq}
use cpp_design_patterns.Prelude.Result.{ok, throws, runtime_error}
use cpp_design_patterns.Reactor.{
  ReadResult, failed, end_of_file, byte, Watcher, Os, chars, describe_revents, write_message,
  simulate_source,
}
use cpp_design_patterns.Reactor.Fd.{
  UniqueFd, no_fd, Event, adopts, moves, assigns, resets, destroys, run, no_owners, held, count,
  fds_closed_once,
}
use cpp_design_patterns.Reactor.Loop.{
  Rest, event_loop, run_main, open_pipes, make_pipe, main, api_writer, metrics_writer,
}
use cpp_design_patterns.Reactor.Ends.{Uses, AnyFlagged, AllRetired, AllOpen, Finite}
use cpp_design_patterns.Reactor.Rounds.{Ended, event_loop-Ended}
use cpp_design_patterns.Reactor.Arrival.{Pipe, drain_all, handled_line, eof_line, payloads_arrive}
use cpp_design_patterns.Reactor.Closing.{both_open, read_ends_closed_twice}

-- What two pipes hold whose writers have closed their ends, whether their read ends, 3 and 5, are open, and what
-- was written since.
record Pipes : Type 0 where
  api : List Char
  metrics : List Char
  api_open : Bool
  metrics_open : Bool
  sent : List Char

abbrev open_at : ℤ → Pipes → Bool
open_at d p = if d == pos 3 then p.api_open else if d == pos 5 then p.metrics_open else false

-- POLLIN and POLLHUP at an open end, POLLNVAL at another descriptor, nothing at a negative one.
abbrev flags_at : ℤ → Pipes → ℕ
flags_at d p = if d == no_fd then 0 else if open_at d p then 17 else 32

abbrev flags : List Watcher → Pipes → List ℕ
flags [] p = []
flags (w ∷ ws) p = flags_at w.fd p ∷ flags ws p

abbrev take_byte : List Char → ReadResult
take_byte [] = end_of_file
take_byte (c ∷ cs) = byte c

abbrev rest_of : List Char → List Char
rest_of [] = []
rest_of (c ∷ cs) = cs

-- At most two bytes of a write are taken.
abbrev some_of : List Char → List Char
some_of bytes = take 2 bytes

abbrev two_pipes : Os
two_pipes = record {
  State = Pipes;
  pipe = λ p. (p, none);
  poll = λ ws p. (p, some (flags ws p));
  read = λ fd p.
      if not (open_at fd p)
      then (p, failed)
      else if fd == pos 3
      then (record p { api = rest_of p.api }, take_byte p.api)
      else (record p { metrics = rest_of p.metrics }, take_byte p.metrics);
  write =
      λ fd bytes p. (record p { sent = p.sent ++ some_of bytes }, some (length (some_of bytes)));
  close = λ fd p.
      if fd == pos 3
      then record p { api_open = false }
      else if fd == pos 5
      then record p { metrics_open = false }
      else p;
  error = λ p. "no error";
}

abbrev held_bytes : Pipes → ℕ
held_bytes p = length p.api + length p.metrics

abbrev IsOpen : ℤ → Pipes → Type 0
IsOpen d p = open_at d p ≡ true

flags_any :
    (ws : List Watcher) (p : Pipes)
    → AllOpen IsOpen ws p
    → AnyFlagged ws (flags ws p) ⊎ AllRetired ws
flags_any [] p o = inr tt
flags_any (w ∷ ws) p o = elim (Bool-cases (w.fd == no_fd)) [
  | inr n ↦ inl (
      inl (
        λ e. ground (arith, ==_iff w.fd no_fd),
        rw (n, o w.fd (λ e. ground (arith, ==_iff w.fd no_fd)) (ground (arith, ==_refl w.fd))) refl,
      ))
  | inl y ↦ elim (flags_any ws p (λ d real c. o d real (omega arith))) [
    | inl any ↦ inl (inr any)
    | inr gone ↦ inr ((==_iff w.fd no_fd).0 y, gone)
  ]
]

byte-Uses : (cs : List Char) (n : ℕ) → Uses (length cs + n) (take_byte cs) (length (rest_of cs) + n)
byte-Uses [] n = omega arith
byte-Uses (c ∷ cs) n = omega arith

byte-Uses_second :
    (cs : List Char) (n : ℕ) → Uses (n + length cs) (take_byte cs) (n + length (rest_of cs))
byte-Uses_second [] n = omega arith
byte-Uses_second (c ∷ cs) n = omega arith

some_of_bytes :
    (c : Char) (rest : List Char)
    → (length (some_of (c ∷ rest)) ≤ length (c ∷ rest))
      × (some_of (c ∷ rest) ≡ take (length (some_of (c ∷ rest))) (c ∷ rest))
some_of_bytes c [] = (omega arith, refl)
some_of_bytes c (d ∷ rest) = (omega arith, refl)

abbrev two_pipes_end : Finite two_pipes
two_pipes_end = record {
  left = held_bytes;
  IsOpen = IsOpen;
  poll_answers = λ ws p o. (flags ws p, refl, omega arith, inr (flags_any ws p o));
  poll_keeps = λ ws p d o. o;
  read_uses = λ fd p o. elim (Bool-cases (fd == pos 3)) [
    | inl y ↦ rw (o, y) (byte-Uses p.api (length p.metrics))
    | inr n ↦ rw (o, n) (byte-Uses_second p.metrics (length p.api))
  ];
  read_keeps = λ fd p d o. ground arith;
  close_keeps = λ fd p o. ground arith;
  close_others = λ fd p d other o. ground (
    arith,
    ==_iff fd d,
    ==_iff fd (pos 3),
    ==_iff fd (pos 5),
    ==_iff d (pos 3),
    ==_iff d (pos 5),
  );
}

abbrev api_line : List Char
api_line = chars "GET /health\n"

abbrev waiting : Pipes
waiting = record {
  api = api_line;
  metrics = chars "up\n";
  api_open = true;
  metrics_open = true;
  sent = [];
}

abbrev watchers : List Watcher
watchers = record { fd = pos 3; revents = 0 } ∷ record { fd = pos 5; revents = 0 } ∷ []

abbrev handlers : Dict ℤ String
handlers = (pos 3, "api-handler") ∷ (pos 5, "metrics-handler") ∷ []

abbrev beginning : Rest two_pipes
beginning = record { state = waiting; log = []; active_sources = 2; closed = [] }

-- A descriptor moved, moved on to itself, replaced and destroyed.
abbrev events : List Event
events = adopts (pos 3) ∷ moves 0 ∷ assigns 0 0 ∷ assigns 1 0 ∷ resets 1 (pos 4) ∷ destroys 1 ∷ []

demo-events : (run no_owners events).closed ≡ pos 4 ∷ pos 3 ∷ []
unfolding run
demo-events = refl

demo-revents : describe_revents 25 ≡ "POLLIN|POLLHUP|POLLERR"
unfolding describe_revents
demo-revents = refl

fds_closed_once_example :
    let w = run no_owners events in
    held (pos 3) w.owners + count (pos 3) w.closed ≡ count (pos 3) w.adopted
fds_closed_once_example = fds_closed_once events (pos 3) (λ e. cc)

event_loop-Ended_example :
    Ended two_pipes two_pipes_end handlers watchers beginning
      (event_loop two_pipes handlers 40 30 watchers beginning)
unfolding find
event_loop-Ended_example =
    event_loop-Ended two_pipes two_pipes_end handlers 40 30 watchers beginning (omega arith)
      (omega arith) refl (λ _. ("api-handler", refl), (λ _. ("metrics-handler", refl), tt))
      (both_open IsOpen (pos 3) (pos 5) waiting refl refl)
      (λ d real. ground (arith, ==_iff (pos 3) d, ==_iff (pos 5) d))

abbrev api : UniqueFd
api = record { fd_ = pos 3 }

abbrev metrics : UniqueFd
metrics = record { fd_ = pos 5 }

read_ends_closed_twice_example :
    (closed : List ℤ) × (run_main two_pipes 40 30 api metrics waiting [] ≡ some (closed, ok tt))
    × (count (pos 3) closed ≡ 2)
    × (count (pos 5) closed ≡ 2)
read_ends_closed_twice_example =
    read_ends_closed_twice two_pipes two_pipes_end 40 30 api metrics waiting [] (omega arith)
      (omega arith) (λ e. cc) (λ e. cc) (λ e. cc) refl refl

-- `two_pipes` refuses every new pipe.
main_without_pipes :
    main two_pipes 40 30 waiting [] ≡ some ([], throws (runtime_error "pipe failed: no error"))
unfolding main open_pipes make_pipe
main_without_pipes = refl

le-leb : (a b : ℕ) → a ≤ b → leb a b ≡ true
le-leb a b h = ground arith

-- One pipe with its ends 4 and 3: the bytes in it, at most 64, and whether each end is open.
record OnePipe : Type 0 where
  held : List Char
  closed : Bool
  readable : Bool

abbrev one_pipe : Os
one_pipe = record {
  State = OnePipe;
  pipe = λ p. (p, none);
  poll = λ ws p. (p, none);
  read = λ fd p.
      if p.readable then (record p { held = rest_of p.held }, take_byte p.held) else (p, failed);
  write = λ fd bytes p.
      if p.closed
      then (p, none)
      else if leb (length p.held + length bytes) 64
      then (record p { held = p.held ++ some_of bytes }, some (length (some_of bytes)))
      else (p, none);
  close = λ fd p. if fd == pos 4 then record p { closed = true } else record p { readable = false };
  error = λ p. "no error";
}

abbrev one_pipe-Pipe : Pipe one_pipe (pos 4) (pos 3)
one_pipe-Pipe = record {
  held = λ p. p.held;
  capacity = 64;
  is_closed = λ p. p.closed;
  is_readable = λ p. p.readable;
  write_takes = λ c rest p o r room.
      rw (o, le-leb (length p.held + length (c ∷ rest)) 64 room)
        (
          length (some_of (c ∷ rest)),
          refl,
          omega arith,
          (some_of_bytes c rest).0,
          ap (λ x. p.held ++ x) (some_of_bytes c rest).1,
          refl,
          r,
        );
  close_keeps = λ p o. (refl, refl, refl);
  read_gives = λ c rest p r h. rw (r) (ap take_byte h, ap rest_of h, refl, refl);
  read_ends = λ p r h closed. rw (r) (ap take_byte h);
}

abbrev new_pipe : OnePipe
new_pipe = record { held = []; closed = false; readable = true }

payloads_arrive_example :
    (s' : OnePipe) × (log' : List String) × (s'' : OnePipe) × (simulate_source one_pipe 20
        (pos 4)
        "metrics-source"
        ("up" ∷ [])
        (new_pipe, [])
      ≡ some ((s', log'), ok tt))
    × (drain_all one_pipe 2 20 (pos 3) "metrics-handler" (s', log')
        ≡ some (
          (
            s'',
            (log' ++ (handled_line "metrics-handler" "up" ∷ []))
                ++ (eof_line "metrics-handler" ∷ []),
          ),
          ok tt,
        ))
payloads_arrive_example =
    payloads_arrive one_pipe (pos 4) (pos 3) one_pipe-Pipe 20 "metrics-source" "metrics-handler"
      ("up" ∷ []) new_pipe [] refl refl refl (omega arith) ((refl, (refl, tt)), tt)
      (omega arith, tt) (omega arith)

-- `main`'s writers over a pipe that takes some bytes at a time.
metrics_written :
    metrics_writer one_pipe 40 (record { fd_ = pos 4 }) (new_pipe, [])
    ≡ some (
      (
        record {
          held = chars "flush counters\nrotate histogram\n";
          closed = true;
          readable = true;
        },
        "[metrics-source] emitted flush counters" ∷ "[metrics-source] emitted rotate histogram"
            ∷ "[metrics-source] writer done; fd closes via RAII" ∷ [],
      ),
      ok tt,
    )
unfolding metrics_writer simulate_source write_message
metrics_written = refl

api_written :
    api_writer one_pipe 40 (record { fd_ = pos 4 }) (new_pipe, [])
    ≡ some (
      (
        record {
          held = chars "GET /health\nGET /user/42\nGET /metrics\n";
          closed = true;
          readable = true;
        },
        "[api-source] emitted GET /health" ∷ "[api-source] emitted GET /user/42"
            ∷ "[api-source] emitted GET /metrics" ∷ "[api-source] writer done; fd closes via RAII"
            ∷ [],
      ),
      ok tt,
    )
unfolding api_writer simulate_source write_message
api_written = refl
