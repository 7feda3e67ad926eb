-- ===== src/ImportJob.antt =====
-- examples/factory_method/main.cpp: the import job over any client, which its factory method makes.
mod Tests
use cpp_design_patterns.Prelude.{ℕ, ◌|>◌, String, List, [], ◌∷◌, length}
use cpp_design_patterns.Prelude.Decimal.{to_string}
use cpp_design_patterns.Log.{Log, log_line}

-- A client: its state, and what it fetches.
pub record UserDirectoryClient : Type 1 where
  pub State : Type 0
  pub fetch_users : State → State × List String

abbrev pub HttpUserDirectoryClient : UserDirectoryClient
HttpUserDirectoryClient = record {
  State = Unit;
  fetch_users = λ s. (s, "Ada" ∷ "Grace" ∷ "Linus" ∷ []);
}

abbrev pub StubUserDirectoryClient : UserDirectoryClient
StubUserDirectoryClient = record {
  State = Unit;
  fetch_users = λ s. (s, "TestUser1" ∷ "TestUser2" ∷ []);
}

-- A job is its factory method: the kind of client, and a new one.
pub record UserImportJob : Type 1 where
  pub Client : UserDirectoryClient
  pub create_client : Client.State

abbrev pub ProductionUserImportJob : UserImportJob
ProductionUserImportJob = record { Client = HttpUserDirectoryClient; create_client = tt }

abbrev pub TestUserImportJob : UserImportJob
TestUserImportJob = record { Client = StubUserDirectoryClient; create_client = tt }

abbrev pub log_users : List String → Log → Log
log_users [] log = log
log_users (user ∷ users) log = log_users users (log_line ("user=" ∷ user ∷ []) log)

unfoldable pub run : UserImportJob → Log → Log
unfolding to_string
run job log =
    let (_, users) = job.Client.fetch_users job.create_client in
    log_users users (log_line ("imported " ∷ to_string (length users) ∷ " users" ∷ []) log)

unfoldable pub main : Log → Log
unfolding run
main log =
    log
    |> log_line ("Factory Method example: pluggable client creation." ∷ [])
    |> log_line ("production run:" ∷ [])
    |> run ProductionUserImportJob
    |> log_line ("test run:" ∷ [])
    |> run TestUserImportJob
