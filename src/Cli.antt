-- ===== src/Cli.antt =====
-- crates/no-sql-store/src/cli.rs and the conversion of its commands in common.rs. Splitting the command
-- line into arguments is the crate `clap`'s: a command is given with the values that were parsed, and
-- an option that is absent is `none`. The text of a number is given as the number that it parses to.
use rust_accelerator_no_sql.Prelude.{ℕ, String, Option, none, some, ◌==◌, if◌then◌else◌, unwrap_or}
use rust_accelerator_no_sql.Common.{Config, manager_config, worker_config}

-- `none` is an error; the argument is `none` for a text that is no `usize`.
unfoldable pub parse_replication_factor : Option ℕ → Option ℕ
parse_replication_factor none = none
parse_replication_factor (some value) = if value == 0 then none else some value

unfoldable pub parse_positive_u64 : Option ℕ → Option ℕ
parse_positive_u64 none = none
parse_positive_u64 (some value) = if value == 0 then none else some value

pub record CommonArgs : Type 0 where
  pub grpc_port : ℕ
  pub self_host : String
  pub self_port : Option ℕ

unfoldable pub self_port : CommonArgs → ℕ
self_port args = unwrap_or args.self_port args.grpc_port

pub data Command : Type 0 where
  manager :
      (common : CommonArgs) (manager_host : Option String) (manager_port : Option ℕ)
      (replication_factor : ℕ)
      → Command
  worker :
      (common : CommonArgs) (manager_host : String) (manager_port expired_cleanup_interval_secs : ℕ)
      → Command

-- `Option::zip`.
unfoldable pub zip {ℓ κ} : {A : Type ℓ} {B : Type κ} → Option A → Option B → Option (A × B)
zip none b = none
zip (some a) none = none
zip (some a) (some b) = some (a, b)

unfoldable pub to_config : Command → Config
to_config (manager common manager_host manager_port replication_factor) =
    manager_config common.grpc_port (common.self_host, self_port common)
      (zip manager_host manager_port) replication_factor
to_config (worker common manager_host manager_port interval) =
    worker_config common.grpc_port (common.self_host, self_port common) (manager_host, manager_port)
      interval
