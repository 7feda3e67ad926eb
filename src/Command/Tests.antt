-- ===== src/Command/Tests.antt =====
-- The commands at small inputs, and their theorems at inputs that meet their hypotheses.
use cpp_design_patterns.Prelude.{◌≡◌, refl, [], ◌∷◌, false}
use cpp_design_patterns.Prelude.Result.{runtime_error}
use cpp_design_patterns.Prelude.Decimal.{to_string}
use cpp_design_patterns.Command.{
  PostgresClient, Command, insert_command, delete_command, make, disconnect, execute, description,
  add_command, main, execute_all, execute_with_retry, prepare_retry, returns, std_exception,
  other_exception, attempting,
}

abbrev bob : Command
bob = insert_command "users" "(2, 'bob')"

abbrev drop_log : Command
drop_log = delete_command "logs" "42"

-- A client that lost its connection.
abbrev lost : PostgresClient
lost = record { host = "localhost"; port = 5432; dbname = "mydb"; connected = false; log = [] }

disconnect_test :
    disconnect (make "localhost" 5432 "mydb")
    ≡ record lost { log = "[PG] disconnected from localhost:5432/mydb" ∷ [] }
unfolding disconnect make to_string
disconnect_test = refl

retry_log :
    (execute_with_retry (attempting (execute bob)) 3 lost).0.log
    ≡ "attempt 1 failed: postgres connection lost" ∷ "attempting to reconnect..."
      ∷ "[PG] reconnecting to localhost:5432/mydb..." ∷ "[PG] reconnected" ∷ "retrying..."
      ∷ "[PG] INSERT INTO users VALUES ((2, 'bob'))" ∷ "succeeded on attempt 2" ∷ []
unfolding execute_with_retry execute prepare_retry to_string
retry_log = refl

gives_up :
    (execute_with_retry (attempting (execute bob)) 1 lost).1
    ≡ std_exception (runtime_error "postgres connection lost")
unfolding execute_with_retry execute
gives_up = refl

-- With no attempt allowed the call returns normally and has executed nothing.
no_attempts : execute_with_retry (attempting (execute bob)) 0 lost ≡ (lost, returns)
unfolding execute_with_retry
no_attempts = refl

descriptions : (description bob ≡ "INSERT") × (description drop_log ≡ "DELETE")
unfolding description
descriptions = (refl, refl)

main_run :
    ((main []).0.log
      ≡ "Command example: queueable PostgreSQL operations with retry logic."
        ∷ "executing batch of 4 commands" ∷ "[PG] INSERT INTO users VALUES ((1, 'alice'))"
        ∷ "[PG] INSERT INTO users VALUES ((2, 'bob'))"
        ∷ "[PG] UPDATE users SET name='alice_updated' WHERE id=1"
        ∷ "[PG] DELETE FROM logs WHERE id=42" ∷ [])
    × ((main []).2 ≡ [])
unfolding main make add_command execute_all execute to_string
main_run = (refl, refl)

-- What is no `std::exception` is not caught.
not_caught : execute_with_retry (λ pg. (pg, other_exception 7)) 3 lost ≡ (lost, other_exception 7)
unfolding execute_with_retry
not_caught = refl
