-- ===== src/Command/Retry.antt =====
-- How often `execute_with_retry` tries, and what its commands make of it.
use cpp_design_patterns.Prelude.{
  ℕ, zero, suc, ◌<◌, ◌≡◌, inl, inr, refl, [], ◌∷◌, ◌++◌, true, Bool-cases, arith,
}
use cpp_design_patterns.Prelude.Result.{Exception, runtime_error, what}
use cpp_design_patterns.Prelude.Decimal.{to_string}
use cpp_design_patterns.Log.{line}
use cpp_design_patterns.Command.{
  PostgresClient, Attempt, returns, std_exception, other_exception, attempting, Command, execute,
  prepare_retry, execute_with_retry,
}
use cpp_design_patterns.Command.Batch.{execute_connected, execute_lost}

-- A client after its failed attempt number `k` and the reconnection, with the lines printed in between.
abbrev pub reconnected : ℕ → Exception → PostgresClient → PostgresClient
reconnected k e q = record q {
  connected = true;
  log =
      q.log
      ++ (line ("attempt " ∷ to_string k ∷ " failed: " ∷ what e ∷ [])
          ∷ "attempting to reconnect..."
          ∷ line (
              "[PG] reconnecting to "
              ∷ q.host
              ∷ ":"
              ∷ to_string q.port
              ∷ "/"
              ∷ q.dbname
              ∷ "..."
              ∷ [])
          ∷ "[PG] reconnected"
          ∷ "retrying..."
          ∷ []);
}

-- A client after its failed attempt number `k`, which was the last, with the lines printed.
abbrev pub gave_up : ℕ → Exception → PostgresClient → PostgresClient
gave_up k e q = record q {
  log =
      q.log
      ++ (line ("attempt " ∷ to_string k ∷ " failed: " ∷ what e ∷ [])
          ∷ "max retries exceeded, giving up"
          ∷ []);
}

module _ (execute : PostgresClient → PostgresClient × Attempt) (pg : PostgresClient) where
  -- After `k` failed attempts, each followed by a reconnection, the next attempt starts at a client.
  pub data Tried : ℕ → PostgresClient → Type 0 where
    start : Tried 0 pg
    again :
        {k : ℕ} {q q' : PostgresClient} {e : Exception}
        → Tried k q
        → execute q ≡ (q', std_exception e)
        → Tried (suc k) (reconnected (suc k) e q')

  -- The attempt that decides, after `k` failures: it succeeds, or it is the last one and fails.
  pub data Decides (max_attempts k : ℕ) (r : PostgresClient × Attempt) : Type 0 where
    succeeds :
        {q q' : PostgresClient}
        → Tried k q
        → execute q ≡ (q', returns)
        → r.1 ≡ returns
        → r.0.connected ≡ q'.connected
        → Decides max_attempts k r
    fails :
        {q q' : PostgresClient} {e : Exception}
        → Tried k q
        → suc k ≡ max_attempts
        → execute q ≡ (q', std_exception e)
        → r ≡ (gave_up (suc k) e q', std_exception e)
        → Decides max_attempts k r
    escapes :
        {q q' : PostgresClient} {x : ℕ}
        → Tried k q
        → execute q ≡ (q', other_exception x)
        → r ≡ (q', other_exception x)
        → Decides max_attempts k r

-- A command of the source under at least two attempts always succeeds, whether or not the
-- connection was lost before, and leaves the client connected.
pub commands_recover :
    (cmd : Command) (n : ℕ) (pg : PostgresClient)
    → 1 < n
    → ((execute_with_retry (attempting (execute cmd)) n pg).1 ≡ returns)
      × ((execute_with_retry (attempting (execute cmd)) n pg).0.connected ≡ true)
unfolding execute_with_retry prepare_retry
commands_recover cmd zero pg h = absurd (omega arith)
commands_recover cmd (suc zero) pg h = absurd (omega arith)
commands_recover cmd (suc (suc n)) pg h =
    let lost : Exception = runtime_error "postgres connection lost" in
    elim (Bool-cases pg.connected) [
      | inl c ↦ ground (arith, execute_connected cmd pg c)
      | inr c ↦
          ground
            (arith, execute_lost cmd pg c, execute_connected cmd (prepare_retry 1 lost pg) refl)
    ]
