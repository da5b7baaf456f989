-- ===== src/Startup.antt =====
-- crates/no-sql-store/src/main.rs, manager/mod.rs and worker/mod.rs: from a command to the services
-- that run, and the task that removes expired records. The tasks themselves, the signals and the
-- servers are the runtime's and are left out.
pub mod Running
use rust_accelerator_no_sql.Prelude.{List, ℕ, ◌∷◌, [], some, none}
use rust_accelerator_no_sql.Common.{
  NodeId, Config, Me, new_me, self_host_port, manager_host_port, expired_cleanup_interval_secs,
}
use rust_accelerator_no_sql.Cli.{Command, manager, worker, to_config}
use rust_accelerator_no_sql.Store
use rust_accelerator_no_sql.Store.{RuntimeStore, remove_expired}
use rust_accelerator_no_sql.Manager.Service
use rust_accelerator_no_sql.Manager.Service.{ManagerService}
use rust_accelerator_no_sql.Worker.Service.{WorkerService}

-- A worker that runs has the interval of its cleanups; `rejected` is an error that `main` returns.
pub data Started : Type 0 where
  manager_started : ManagerService → Started
  worker_started : WorkerService → (expired_cleanup_interval : ℕ) → Started
  rejected panicked : Started

abbrev pub own_me : NodeId → Config → Me
own_me id config = new_me id (self_host_port config).0 (self_host_port config).1

unfoldable pub run_manager : NodeId → Config → Started
run_manager id config = manager_started (Service.start (own_me id config) config)

unfoldable pub run_worker : NodeId → Config → Started
run_worker id config = elim (manager_host_port config) [
  | none ↦ rejected
  | some _ ↦ elim (expired_cleanup_interval_secs config) [
    | none ↦ panicked
    | some interval ↦
        worker_started
          (record {
            me = own_me id config;
            state = none;
            config = config;
            runtime_store = Store.new;
          })
          interval
  ]
]

unfoldable pub main : NodeId → Command → Started
unfolding run_manager run_worker
main id (manager common host port factor) =
    run_manager id (to_config (manager common host port factor))
main id (worker common host port interval) =
    run_worker id (to_config (worker common host port interval))

-- The turns of `start_expired_cleanup`, each at the time that it reads.
unfoldable pub cleanups : RuntimeStore → List ℕ → RuntimeStore
cleanups store [] = store
cleanups store (now ∷ times) = cleanups (remove_expired store now).0 times
