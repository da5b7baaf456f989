-- ===== src/Startup/Running.antt =====
-- The services that a parsed command starts.
mod Examples
use rust_accelerator_no_sql.Prelude.{
  sym, ◌∙◌, ap, true, arith, ◌<◌, max, String, ◌≡◌, List, Option, ℕ, ◌∷◌, [], some, none, refl,
  zero, suc,
}
use rust_accelerator_no_sql.Common.{
  replication_factor, NodeId, Config, Me, new_me, self_host_port, manager_host_port,
  expired_cleanup_interval_secs,
}
use rust_accelerator_no_sql.Cli.{
  Command, CommonArgs, manager, worker, to_config, parse_replication_factor, parse_positive_u64,
}
use rust_accelerator_no_sql.Store
use rust_accelerator_no_sql.Store.{
  put_mutation, delete_mutation, Key, Mutation, RuntimeStore, remove_expired, is_expired,
}
use rust_accelerator_no_sql.Store.Lww.{stored}
use rust_accelerator_no_sql.Store.Expiry.{live, stored-remove_expired}
use rust_accelerator_no_sql.Manager.Service
use rust_accelerator_no_sql.Manager.Service.{ManagerService}
use rust_accelerator_no_sql.Manager.Service.Panics.{IsManagerConfig, IsSafe, manager_never_panics}
use rust_accelerator_no_sql.Worker
use rust_accelerator_no_sql.Worker.{new_connection, State, WorkerProtocol}
use rust_accelerator_no_sql.Worker.Service as WorkerLoop
use rust_accelerator_no_sql.Worker.Service.{WorkerService}
use rust_accelerator_no_sql.Worker.Epochs.{IsAfter, run-IsAfter}
use rust_accelerator_no_sql.Startup.{
  Started, manager_started, worker_started, run_manager, run_worker, main, cleanups, own_me,
}

-- The numbers of the command have been accepted by their parsers.
unfoldable pub IsParsed : Command → Type 0
IsParsed (manager common host port factor) =
    (text : Option ℕ) × (parse_replication_factor text ≡ some factor)
IsParsed (worker common host port interval) =
    (text : Option ℕ) × (parse_positive_u64 text ≡ some interval)

-- What runs handles these events, from its first messages at `now` on.
pub data IsRunning (now : ℕ) (events : List Service.Event) (inputs : List WorkerLoop.Event)
    : Started → Type 0 where
  manager_runs :
      {service : ManagerService} (factor : ℕ) (service' : ManagerService)
      → replication_factor service.config ≡ some factor
      → 0 < factor
      → Service.run (Service.get_init_messages service now).0 events ≡ some service'
      → IsSafe service'
      → IsRunning now events inputs (manager_started service)
  worker_runs :
      {service : WorkerService} {interval : ℕ} (started : WorkerService) (state : State)
      (output : List WorkerProtocol)
      → WorkerLoop.get_init_messages service now ≡ some (started, output)
      → started.state ≡ some state
      → IsAfter state (WorkerLoop.run started inputs)
      → 0 < interval
      → IsRunning now events inputs (worker_started service interval)

positive_factor :
    (factor : ℕ) (text : Option ℕ) → parse_replication_factor text ≡ some factor → 0 < factor
unfolding parse_replication_factor
positive_factor zero none e = ground arith
positive_factor zero (some value) e = ground arith
positive_factor (suc factor) text e = omega arith

positive_interval :
    (interval : ℕ) (text : Option ℕ) → parse_positive_u64 text ≡ some interval → 0 < interval
unfolding parse_positive_u64
positive_interval interval none e = ground arith
positive_interval interval (some value) e = ground arith

-- Every command whose numbers the parsers accept starts a service: neither is it rejected nor does
-- it panic. A manager starts with a replication factor of at least one, and then handles every sequence
-- of messages, ticks and changes of that factor to its end without a panic. A
-- worker has an interval of at least a second between two cleanups, it starts, and whatever events
-- follow, it goes on running, and its epoch never goes back behind the one that it started with.
pub main-IsRunning :
    (id : NodeId) (command : Command) (now : ℕ) (events : List Service.Event)
    (inputs : List WorkerLoop.Event)
    → IsParsed command
    → IsRunning now events inputs (main id command)
unfolding main run_manager run_worker to_config replication_factor Service.start IsParsed
    manager_host_port expired_cleanup_interval_secs WorkerLoop.get_init_messages
main-IsRunning id (manager common host port factor) now events inputs parsed =
    let config = to_config (manager common host port factor) in
    let runs = manager_never_panics (own_me id config) config now events tt in
    manager_runs factor runs.0 refl (positive_factor factor parsed.0 parsed.1) runs.1 runs.2
main-IsRunning id (worker common host port interval) now events inputs parsed =
    let me = own_me id (to_config (worker common host port interval)) in
    let state = Worker.new (WorkerLoop.own_node me now) in
    let started : WorkerService = record {
      me = me;
      state = some state;
      config = to_config (worker common host port interval);
      runtime_store = Store.new;
    } in
    worker_runs started state (new_connection none host port true ∷ []) refl refl
      (run-IsAfter started state inputs refl) (positive_interval interval parsed.0 parsed.1)

-- The latest of several times.
abbrev pub latest : ℕ → List ℕ → ℕ
latest now [] = now
latest now (time ∷ times) = latest (max now time) times

latest-max :
    (now time : ℕ) (times : List ℕ) → latest (max now time) times ≡ max now (latest time times)
latest-max now time [] = refl
latest-max now time (next ∷ times) =
    ap (λ t. latest t times) (omega arith) ∙ latest-max now (max time next) times

-- Two removals come to the later one.
live-live :
    (earlier later : ℕ) (o : Option Mutation)
    → live later (live earlier o) ≡ live (max earlier later) o
unfolding live is_expired
live-live earlier later none = refl
live-live earlier later (some (put_mutation r)) = ground arith
live-live earlier later (some (delete_mutation t)) = refl

-- However often the cleanup runs, and in whatever order its times come, what it leaves of a key is its
-- record before, unless that has expired at the latest of the times.
pub stored-cleanups :
    (store : RuntimeStore) (now : ℕ) (times : List ℕ) (key : Key)
    → stored (cleanups store (now ∷ times)) key ≡ live (latest now times) (stored store key)
unfolding cleanups
stored-cleanups store now [] key = stored-remove_expired store now key
stored-cleanups store now (time ∷ times) key =
    stored-cleanups (remove_expired store now).0 time times key
    ∙ (ap (live (latest time times)) (stored-remove_expired store now key)
        ∙ (live-live now (latest time times) (stored store key)
            ∙ ap (λ t. live t (stored store key)) (sym (latest-max now time times))))
