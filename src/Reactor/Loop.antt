-- ===== src/Reactor/Loop.antt =====
-- The event loop of `main`: `poll`, the dispatch of each ready watcher and the retirement of ended
-- sources. A handler is the name with which it calls `drain_one_message`. `active_sources` counts
-- down to 0 at most, since a watcher retires once.
use cpp_design_patterns.Prelude.{
  ℕ, zero, suc, ◌+◌, ◌-◌, String, ◌<>◌, List, [], ◌∷◌, Bool, true, false, not, ◌&&◌, ◌||◌, Option,
  none, some, eqb, if◌then◌else◌, ◌==◌,
}
use cpp_design_patterns.Prelude.Dict.{Dict, find}
use cpp_design_patterns.Prelude.Decimal.{to_string, show_int}
use cpp_design_patterns.Prelude.Int.{ℤ, int_eq}
use cpp_design_patterns.Prelude.Result.{runtime_error, out_of_range, Result, ok, throws}
use cpp_design_patterns.Log.{Log, log_line}
use cpp_design_patterns.Reactor.{
  Watcher, Os, pollin, pollerr, pollhup, describe_revents, drain_one_message, simulate_source,
}
use cpp_design_patterns.Reactor.Fd.{UniqueFd, no_fd, destroy}

-- The test of `poll`'s answer: not retired, and one of the three flags.
abbrev pub is_ready : Watcher → Bool
is_ready w = not (w.fd == no_fd) && (pollin w.revents || (pollhup w.revents || pollerr w.revents))

-- How many of the watchers `poll` has flagged.
abbrev pub flagged : List ℕ → ℕ
flagged [] = 0
flagged (r ∷ rs) = (if eqb r 0 then 0 else 1) + flagged rs

-- `poll` writes each `revents`.
abbrev pub observed : List Watcher → List ℕ → List Watcher
observed [] rs = []
observed (w ∷ ws) [] = w ∷ ws
observed (w ∷ ws) (r ∷ rs) = record w { revents = r } ∷ observed ws rs

module _ (os : Os) where
  -- What a round changes beside the watchers; `closed` lists the calls of `close`.
  pub record Rest : Type 0 where
    pub state : os.State
    pub log : Log
    pub active_sources : ℕ
    pub closed : List ℤ

  abbrev pub say : List String → Rest → Rest
  say parts r = record r { log = log_line parts r.log }

  -- The rest after the call of `poll` that leaves the system in a state.
  abbrev pub waited : os.State → Rest → Rest
  waited s r = record r {
    state = s;
    log =
        log_line ("[reactor] waiting on " ∷ to_string r.active_sources ∷ " active source(s)" ∷ [])
          r.log;
  }

  abbrev pub woken : ℕ → Rest → Rest
  woken ready = say ("[reactor] poll returned " ∷ to_string ready ∷ " ready descriptor(s)" ∷ [])

abbrev pub announced : Watcher → Log → Log
announced w =
    log_line
      ("[reactor] dispatch fd=" ∷ show_int w.fd ∷ " revents=" ∷ describe_revents w.revents ∷ [])

module _ (os : Os) (handlers : Dict ℤ String) where
  -- The end of a source: the descriptor is closed and the watcher marked.
  unfoldable pub retire : Watcher → Rest os → Watcher × Rest os
  retire w r = (
    record w { fd = no_fd },
    record r {
      state = os.close w.fd r.state;
      log = log_line ("[reactor] retiring fd=" ∷ show_int w.fd ∷ []) r.log;
      active_sources = r.active_sources - 1;
      closed = w.fd ∷ r.closed;
    },
  )

  -- One turn of the inner loop; nothing when the handler's fuel runs out.
  unfoldable pub dispatch_one :
      ℕ → Watcher → Rest os → Option ((Watcher × Rest os) × Result (Unit {0}))
  unfolding retire drain_one_message describe_revents find
  dispatch_one fuel w r = elim (is_ready w) [
    | false ↦ some ((w, r), ok tt)
    | true ↦
        let r1 = record r { log = announced w r.log } in
        elim (find w.fd handlers) [
          | none ↦ some ((w, r1), throws (out_of_range "unordered_map::at"))
          | some name ↦ elim (drain_one_message os fuel w.fd name "" (r1.state, r1.log)) [
            | none ↦ none
            | some ((s, log), outcome) ↦
                let r2 = record r1 { state = s; log = log } in
                elim outcome [
                  | throws e ↦ some ((w, r2), throws e)
                  | ok true ↦ some ((w, r2), ok tt)
                  | ok false ↦ some (retire w r2, ok tt)
                ]
          ]
        ]
  ]

  -- The inner loop over the watchers; an exception leaves it.
  unfoldable pub dispatch_all :
      ℕ → List Watcher → Rest os → Option ((List Watcher × Rest os) × Result (Unit {0}))
  unfolding dispatch_one
  dispatch_all fuel [] r = some (([], r), ok tt)
  dispatch_all fuel (w ∷ ws) r = elim (dispatch_one fuel w r) [
    | none ↦ none
    | some ((w', r'), throws e) ↦ some ((w' ∷ ws, r'), throws e)
    | some ((w', r'), ok _) ↦ elim (dispatch_all fuel ws r') [
      | none ↦ none
      | some ((ws', r''), outcome) ↦ some ((w' ∷ ws', r''), outcome)
    ]
  ]

  -- The body of the outer loop.
  unfoldable pub round :
      ℕ → List Watcher → Rest os → Option ((List Watcher × Rest os) × Result (Unit {0}))
  unfolding dispatch_all
  round fuel ws r =
      let (s, answer) = os.poll ws r.state in
      let r1 = waited os s r in
      elim answer [
        | none ↦ some ((ws, r1), throws (runtime_error ("poll failed: " <> os.error s)))
        | some revents ↦
            let ws' = observed ws revents in
            elim (eqb (flagged revents) 0) [
              | true ↦ some ((ws', say os ("[reactor] idle tick" ∷ []) r1), ok tt)
              | false ↦ dispatch_all fuel ws' (woken os (flagged revents) r1)
            ]
      ]

  -- `while (active_sources > 0)`, a round of the first fuel for each turn.
  unfoldable pub event_loop :
      ℕ → ℕ → List Watcher → Rest os → Option ((List Watcher × Rest os) × Result (Unit {0}))
  unfolding round
  event_loop zero fuel ws r = none
  event_loop (suc rounds) fuel ws r = elim (eqb r.active_sources 0) [
    | true ↦ some ((ws, r), ok tt)
    | false ↦ elim (round fuel ws r) [
      | none ↦ none
      | some ((ws', r'), throws e) ↦ some ((ws', r'), throws e)
      | some ((ws', r'), ok _) ↦ event_loop rounds fuel ws' r'
    ]
  ]

pub record PipePair : Type 0 where
  pub read_end : UniqueFd
  pub write_end : UniqueFd

unfoldable pub make_pipe : (os : Os) → os.State → os.State × Result PipePair
make_pipe os s =
    let (s', fds) = os.pipe s in
    elim fds [
      | none ↦ (s', throws (runtime_error ("pipe failed: " <> os.error s')))
      | some (read, write) ↦
          (s', ok (record { read_end = record { fd_ = read }; write_end = record { fd_ = write } }))
    ]

-- The loop of `main` over the read ends of two pipes, and all calls of `close` on the two at its
-- end: by the loop, then by the destructors of the two `UniqueFd`s. An exception is not caught: it
-- ends the program.
unfoldable pub run_main :
    (os : Os) → ℕ → ℕ → UniqueFd → UniqueFd → os.State → Log → Option (List ℤ × Result (Unit {0}))
unfolding event_loop destroy
run_main os rounds fuel api metrics s log =
    elim (event_loop os ((api.fd_, "api-handler") ∷ (metrics.fd_, "metrics-handler") ∷ []) rounds
      fuel (record { fd = api.fd_; revents = 0 } ∷ record { fd = metrics.fd_; revents = 0 } ∷ [])
      (record { state = s; log = log; active_sources = 2; closed = [] })) [
        | none ↦ none
        | some ((ws, r), ok _) ↦ some (destroy api (destroy metrics r.closed), ok tt)
        | some ((ws, r), throws e) ↦ some (r.closed, throws e)
      ]

-- What the two writer threads of `main` send.
abbrev pub api_payloads : List String
api_payloads = "GET /health" ∷ "GET /user/42" ∷ "GET /metrics" ∷ []

abbrev pub metrics_payloads : List String
metrics_payloads = "flush counters" ∷ "rotate histogram" ∷ []

-- The start of `main`: the second pipe is asked for when there is a first.
unfoldable pub open_pipes : (os : Os) → os.State → os.State × Result (PipePair × PipePair)
unfolding make_pipe
open_pipes os s =
    let (s1, first) = make_pipe os s in
    elim first [
      | throws e ↦ (s1, throws e)
      | ok api ↦
          let (s2, second) = make_pipe os s1 in
          elim second [ throws e ↦ (s2, throws e) | ok metrics ↦ (s2, ok (api, metrics)) ]
    ]

-- The two writer threads: each owns the write end that was moved to it.
unfoldable pub api_writer :
    (os : Os) → ℕ → UniqueFd → os.State × Log → Option ((os.State × Log) × Result (Unit {0}))
unfolding simulate_source
api_writer os fuel fd = simulate_source os fuel fd.fd_ "api-source" api_payloads

unfoldable pub metrics_writer :
    (os : Os) → ℕ → UniqueFd → os.State × Log → Option ((os.State × Log) × Result (Unit {0}))
unfolding simulate_source
metrics_writer os fuel fd = simulate_source os fuel fd.fd_ "metrics-source" metrics_payloads

unfoldable pub main : (os : Os) → ℕ → ℕ → os.State → Log → Option (List ℤ × Result (Unit {0}))
unfolding open_pipes run_main
main os rounds fuel s log =
    let banner : String = "Reactor example: one loop dispatches multiple event sources." in
    let (s', pipes) = open_pipes os s in
    elim pipes [
      | throws e ↦ some ([], throws e)
      | ok (api, metrics) ↦
          run_main os rounds fuel api.read_end metrics.read_end s' (log_line (banner ∷ []) log)
    ]
