-- ===== src/Command.antt =====
-- examples/command/main.cpp: the client, the commands, their execution with retries and in batches.
-- Each method returns the client after the call and its result or exception; the client's log
-- stands in the client. Counters of attempts are numbers, so a negative `max_attempts` reads as 0.
pub mod Retry
pub mod Batch
mod Tests
use cpp_design_patterns.Prelude.{
  ℕ, zero, suc, ◌+◌, ◌-◌, ◌|>◌, String, List, [], ◌∷◌, ◌++◌, Bool, true, false, length, ltb, eqb,
  if◌then◌else◌,
}
use cpp_design_patterns.Prelude.Result.{
  Exception, runtime_error, invalid_argument, out_of_range, bad_alloc, what, Result, ok, throws,
}
use cpp_design_patterns.Prelude.Decimal.{to_string}
use cpp_design_patterns.Log.{Log, log_line}

pub record PostgresClient : Type 0 where
  pub host : String
  pub port : ℕ
  pub dbname : String
  pub connected : Bool
  pub log : Log

-- A call's result and the client after it.
abbrev pub Call : Type 0 → Type 0
Call A = PostgresClient → PostgresClient × Result A

abbrev pub say : List String → PostgresClient → PostgresClient
say parts pg = record pg { log = log_line parts pg.log }

unfoldable pub make : String → ℕ → String → PostgresClient
make host port dbname = record {
  host = host;
  port = port;
  dbname = dbname;
  connected = true;
  log = [];
}

-- The guard with which `insert`, `update` and `delete_` begin.
abbrev statement : List String → Call (Unit {0})
statement parts pg =
    if pg.connected
    then (say parts pg, ok tt)
    else (pg, throws (runtime_error "postgres connection lost"))

unfoldable pub insert : String → String → Call (Unit {0})
insert table row = statement ("[PG] INSERT INTO " ∷ table ∷ " VALUES (" ∷ row ∷ ")" ∷ [])

unfoldable pub update : String → String → String → Call (Unit {0})
update table id row = statement ("[PG] UPDATE " ∷ table ∷ " SET " ∷ row ∷ " WHERE id=" ∷ id ∷ [])

unfoldable pub delete : String → String → Call (Unit {0})
delete table id = statement ("[PG] DELETE FROM " ∷ table ∷ " WHERE id=" ∷ id ∷ [])

abbrev address : PostgresClient → List String
address pg = pg.host ∷ ":" ∷ to_string pg.port ∷ "/" ∷ pg.dbname ∷ []

unfoldable pub disconnect : PostgresClient → PostgresClient
disconnect pg = say ("[PG] disconnected from " ∷ address pg) (record pg { connected = false })

unfoldable pub reconnect : PostgresClient → PostgresClient
reconnect pg =
    say ("[PG] reconnected" ∷ [])
      (record (say ("[PG] reconnecting to " ∷ address pg ++ ("..." ∷ [])) pg) { connected = true })

pub data Command : Type 0 where
  insert_command : (table row : String) → Command
  update_command : (table id row : String) → Command
  delete_command : (table id : String) → Command

unfoldable pub execute : Command → Call (Unit {0})
unfolding insert update delete
execute (insert_command table row) = insert table row
execute (update_command table id row) = update table id row
execute (delete_command table id) = delete table id

unfoldable pub description : Command → String
description (insert_command _ _) = "INSERT"
description (update_command _ _ _) = "UPDATE"
description (delete_command _ _) = "DELETE"

-- The `catch` of an attempt that threw, on its two ways out.
abbrev pub failed : ℕ → Exception → PostgresClient → PostgresClient
failed attempt e = say ("attempt " ∷ to_string attempt ∷ " failed: " ∷ what e ∷ [])

unfoldable pub give_up : ℕ → Exception → PostgresClient → PostgresClient
give_up attempt e pg = say ("max retries exceeded, giving up" ∷ []) (failed attempt e pg)

unfoldable pub prepare_retry : ℕ → Exception → PostgresClient → PostgresClient
unfolding reconnect
prepare_retry attempt e pg =
    say ("retrying..." ∷ [])
      (reconnect (say ("attempting to reconnect..." ∷ []) (failed attempt e pg)))

-- How a call of `execute` ends: it returns, or throws a `std::exception` or anything else, known by a
-- number.
pub data Attempt : Type 0 where
  returns : Attempt
  std_exception : Exception → Attempt
  other_exception : ℕ → Attempt

-- The commands of the source throw nothing but a `std::exception`.
abbrev pub attempt_of : Result (Unit {0}) → Attempt
attempt_of (ok _) = returns
attempt_of (throws e) = std_exception e

abbrev pub attempting : Call (Unit {0}) → PostgresClient → PostgresClient × Attempt
attempting call pg = let (pg', outcome) = call pg in (pg', attempt_of outcome)

-- `execute_with_retry` for any override of `execute`. Only a `std::exception` is caught.
module _ (execute : PostgresClient → PostgresClient × Attempt) where
  -- The loop, with `left` rounds to go from `attempt` on.
  unfoldable pub retry_loop : ℕ → ℕ → ℕ → PostgresClient → PostgresClient × Attempt
  retry_loop zero attempt max_attempts pg = (pg, returns)
  retry_loop (suc left) attempt max_attempts pg =
      let (pg', outcome) = execute pg in
      elim outcome [
        | returns ↦ (
          if ltb 1 attempt then say ("succeeded on attempt " ∷ to_string attempt ∷ []) pg' else pg',
          returns,
        )
        | other_exception x ↦ (pg', other_exception x)
        | std_exception e ↦
            let again = retry_loop left (attempt + 1) max_attempts (prepare_retry attempt e pg') in
            if eqb attempt max_attempts then (give_up attempt e pg', std_exception e) else again
      ]

  unfoldable pub execute_with_retry : ℕ → PostgresClient → PostgresClient × Attempt
  unfolding retry_loop
  execute_with_retry max_attempts pg = retry_loop max_attempts 1 max_attempts pg

-- `CommandQueue`, a vector of commands. An exception leaves the loop, and the queue as it is.
unfoldable pub add_command : Command → List Command → List Command
add_command cmd commands = commands ++ (cmd ∷ [])

unfoldable pub execute_each : List Command → Call (Unit {0})
execute_each [] pg = (pg, ok tt)
execute_each (cmd ∷ cmds) pg =
    let (pg', outcome) = execute cmd pg in
    elim outcome [ ok _ ↦ execute_each cmds pg' | throws e ↦ (pg', throws e) ]

unfoldable pub execute_all :
    List Command → PostgresClient → PostgresClient × Result (Unit {0}) × List Command
unfolding execute_each
execute_all commands pg =
    let start = say ("executing batch of " ∷ to_string (length commands) ∷ " commands" ∷ []) pg in
    let (pg', outcome) = execute_each commands start in
    elim outcome [ ok _ ↦ (pg', ok tt, []) | throws e ↦ (pg', throws e, commands) ]

-- `main`: the client that is left, with its log, the batch's outcome and the queue.
unfoldable pub main : Log → PostgresClient × Result (Unit {0}) × List Command
unfolding make add_command execute_all
main log =
    let banner : String = "Command example: queueable PostgreSQL operations with retry logic." in
    let pg = make "localhost" 5432 "mydb" in
    let queue =
      []
      |> add_command (insert_command "users" "(1, 'alice')")
      |> add_command (insert_command "users" "(2, 'bob')")
      |> add_command (update_command "users" "1" "name='alice_updated'")
      |> add_command (delete_command "logs" "42") in
    execute_all queue (record pg { log = log_line (banner ∷ []) log })
