-- ===== src/Lib.antt =====
-- The C++ design-pattern examples of this repository, one small backend program each under
-- examples/, as executable definitions with the theorems that make them correct. The programs
-- share only examples/common/log.h (Log.antt): a log is the list of the lines printed so far.
--
-- Concurrent programs are step relations given by functions. A state holds the source's fields and
-- how many threads stand where; an event is one critical section, notification, atomic access or
-- job of one thread; `run` takes any sequence of events, so a theorem about it is about every
-- interleaving and every spurious wakeup.
--   BoundedQueue.antt      examples/bounded_queue: the tests of the waits, `push`, `pop`, `close`
--   BoundedQueue/Threads   the threads inside `push`, `pop`, `close` and the two condition variables
--   BoundedQueue/Sequential the abstract queue, on which calls take effect one at a time
--   BoundedQueue/Workers   `producer` and `consumer` while no other thread touches the queue
--   BoundedQueue/Program   `main`: producers and consumers interleaved, a call on the queue a turn
--   BoundedQueue/Lines     the lines of `producer`, those printed and those to come
--   ThreadPool.antt        examples/thread_pool: `submit`, `worker_loop`, the destructor
--   ThreadPool/Parse       `expensive_parse`, its `int`s checked for overflow
--   ThreadPool/Futures     the futures of `submit`, and the loop over them; Main is `main`
--   Futures.antt           examples/futures_promises: `FirstSuccess` and the threads of `run_lookup`
--   Futures/Main           `run_lookup_demo` from the wait on
--
-- Sequential programs are functions on records; what throws gives a `Result`, and what would be
-- undefined gives `none`.
--   Connection.antt        examples/state: the four states' handlers, `transition_to`
--   Command.antt           examples/command: client, commands, `execute_with_retry`, `execute_all`
--   Arena.antt             examples/rule_of_0_5: `Arena` over a heap of blocks
--   Arena/Objects          a program's arenas: every member's calls in any order
--   Arena/Bytes            what `write`, `read` and `swap` do to the ownership of blocks
--   Arena/Buffer           `ResponseBuffer`
--   Facade.antt            examples/facade: `fetch_profiles` over cache, database and metrics
--   CacheService.antt      examples/nvi: the public operations over any implementation
--   Strategy.antt          examples/strategy: the router over any strategy, and both strategies
--   Proxy.antt             examples/proxy: the caching proxy over any service
--   Composite.antt         examples/composite: the routing tree and `dispatch`
--   Roles.antt             examples/flyweight: `RoleFactory` and the users that share its roles
--   Logger.antt            examples/bridge: the loggers over any sink, `escape_json`, the formats
--   Logger/RoundTrip       a reader of the JSON lines
--   Repository.antt        examples/abstract_factory: the repository over any factory
--   Observer.antt          examples/observer: the dispatcher and the order service
--   Decorator.antt         examples/decorator: stacks of decorators around any handler
--   CacheKey.antt          examples/traits_tag_dispatch: keys from parts, `to_hex`, log values
--   Requests.antt          examples/smart_pointers: the routes, and the owners of what they share
--   DatabaseService.antt   examples/pimpl: the service, and any program that moves services
--   Visitor.antt           examples/visitor: messages, visitors and the passes of `main`
--   Pipeline.antt          examples/type_erasure: middlewares in a pipeline
--   Pager.antt             examples/adapter: alerts to the legacy pager
--   ImportJob.antt         examples/factory_method: the import job over any client
--
-- Programs that call the operating system or the C library have its calls as a parameter, a record
-- of functions on a state of any type; what a theorem needs of them is a record of laws.
--   Reactor.antt           examples/reactor: the system's calls, `write_message`, `drain_one_message`
--   Reactor/Fd             `UniqueFd`, and any program that moves and resets owners
--   Reactor/Loop           the event loop of `main`
--   Reactor/Ends to Rounds writers that end (`Finite`), and what a turn, a round and the loop do
--   Reactor/Framing        a descriptor that takes what is written (`Takes`), and whole lines
--   Reactor/Arrival        a pipe (`Pipe`), from what its writer sends to what its handler logs
--   FileHandle.antt        examples/raii: `FileHandle` and `main` over any C library
--
-- Prelude.antt holds what the modules share: lists over native numbers, dictionaries for
-- `std::unordered_map`, `Result` for exceptions, `std::to_string`. A module's child modules hold
-- its theorems; `main` stands in the module itself or in its Main, and its Tests hold the run of it.
--
-- Numbers are natural numbers. `std::size_t` wraps around at 2 ^ 64 where the source computes with
-- it (`Arena.write`, `Arena.read`, `next_`, `size_minus`); other counters are taken to
-- stay in range, and `int` is checked for overflow in `expensive_parse`. Some loops run on fuel, and give `none` or
-- `out_of_fuel` without it. Enough is more than the number of queued items for the consumer's, the
-- number itself for `to_string`, more than the number of fields for the reader of JSON lines, the
-- number of bytes for `write_message`, more than the bytes of the next line for
-- `drain_one_message`, and for the event loop more rounds than the writers have left to do and
-- watchers are open, and more fuel for a turn than the writers have left. A text is its characters,
-- which are its bytes when it is ASCII.
--
-- Not modelled: time (of sleeps and deadlines; `wait_for` returns at any time), the bytes on the
-- terminal, handlers that call the observer's dispatcher again, the lines that the pool's workers
-- and the bounded queue's consumers print, and when the reactor's writer threads run: each is a run
-- of its own (`api_writer`, `metrics_writer`), and beside the loop what a writer does happens in the
-- operating system's state between two of the loop's calls. The build files and scripts
-- hold no program logic.
mod Prelude
pub mod BoundedQueue
pub mod ThreadPool
pub mod Log
pub mod Connection
pub mod Command
pub mod Arena
pub mod Facade
pub mod Futures
pub mod CacheService
pub mod Strategy
pub mod Proxy
pub mod Composite
pub mod Roles
pub mod Logger
pub mod Reactor
pub mod CacheKey
pub mod ImportJob
pub mod DatabaseService
pub mod Pager
pub mod Visitor
pub mod Pipeline
pub mod Requests
pub mod Observer
pub mod Repository
pub mod FileHandle
pub mod Decorator
