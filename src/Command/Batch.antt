-- ===== src/Command/Batch.antt =====
-- Batches: all or nothing.
use cpp_design_patterns.Prelude.{
  ◌≡◌, String, List, [], ◌∷◌, ◌++◌, map, true, false, length, append_assoc, append-nil,
  if◌then◌else◌, Bool-cases, inl, inr, arith,
}
use cpp_design_patterns.Prelude.Result.{runtime_error, ok, throws}
use cpp_design_patterns.Prelude.Decimal.{to_string}
use cpp_design_patterns.Log.{line}
use cpp_design_patterns.Command.{
  PostgresClient, Command, insert_command, update_command, delete_command, say, execute,
  execute_each, execute_all,
}

-- The statement that a command sends.
abbrev pub sql : Command → String
sql (insert_command table row) = line ("[PG] INSERT INTO " ∷ table ∷ " VALUES (" ∷ row ∷ ")" ∷ [])
sql (update_command table id row) =
    line ("[PG] UPDATE " ∷ table ∷ " SET " ∷ row ∷ " WHERE id=" ∷ id ∷ [])
sql (delete_command table id) = line ("[PG] DELETE FROM " ∷ table ∷ " WHERE id=" ∷ id ∷ [])

pub execute_connected :
    (cmd : Command) (pg : PostgresClient)
    → pg.connected ≡ true
    → execute cmd pg ≡ (record pg { log = pg.log ++ (sql cmd ∷ []) }, ok tt)
unfolding execute
execute_connected (insert_command t r) pg c = ground arith
execute_connected (update_command t i r) pg c = ground arith
execute_connected (delete_command t i) pg c = ground arith

pub execute_lost :
    (cmd : Command) (pg : PostgresClient)
    → pg.connected ≡ false
    → execute cmd pg ≡ (pg, throws (runtime_error "postgres connection lost"))
unfolding execute
execute_lost (insert_command t r) pg c = ground arith
execute_lost (update_command t i r) pg c = ground arith
execute_lost (delete_command t i) pg c = ground arith

execute_each_connected :
    (cmds : List Command) (pg : PostgresClient)
    → pg.connected ≡ true
    → execute_each cmds pg ≡ (record pg { log = pg.log ++ map sql cmds }, ok tt)
unfolding execute_each
execute_each_connected [] pg c = ground (arith, append-nil pg.log)
execute_each_connected (cmd ∷ cmds) pg c = ground (
  arith,
  execute_connected cmd pg c,
  execute_each_connected cmds (record pg { log = pg.log ++ (sql cmd ∷ []) }) c,
  append_assoc pg.log (sql cmd ∷ []) (map sql cmds),
)

-- A batch on a connected client sends every command's statement in the order of the queue, leaves
-- the client connected and empties the queue. On a lost connection a batch with a command in it
-- throws, sends nothing and keeps the queue.
pub execute_all_atomic :
    (cmd : Command) (cmds : List Command) (pg : PostgresClient)
    → let started =
        say ("executing batch of " ∷ to_string (length (cmd ∷ cmds)) ∷ " commands" ∷ []) pg in
      execute_all (cmd ∷ cmds) pg ≡ (
        if pg.connected
        then (record started { log = started.log ++ map sql (cmd ∷ cmds) }, ok tt, [])
        else (started, throws (runtime_error "postgres connection lost"), cmd ∷ cmds))
unfolding execute_all
execute_all_atomic cmd cmds pg =
    let started : PostgresClient =
      say ("executing batch of " ∷ to_string (length (cmd ∷ cmds)) ∷ " commands" ∷ []) pg in
    elim (Bool-cases pg.connected) [
      | inl c ↦ ground (arith, execute_each_connected (cmd ∷ cmds) started c)
      | inr c ↦ ground (arith, execute_lost cmd started c)
    ]
