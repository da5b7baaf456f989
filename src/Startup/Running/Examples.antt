-- ===== src/Startup/Running/Examples.antt =====
-- A worker that is started, gets a leader's message and ticks.
use rust_accelerator_no_sql.Prelude.{◌≡◌, true, List, ◌∷◌, [], some, none, refl}
use rust_accelerator_no_sql.Cli.{Command, worker, parse_positive_u64}
use rust_accelerator_no_sql.Worker
use rust_accelerator_no_sql.Worker.{WorkerProtocol, leader, new_connection}
use rust_accelerator_no_sql.Worker.Service.{
  TickInput, Event, message, ticked, WorkerService, run, own_node,
}
use rust_accelerator_no_sql.Worker.Epochs.{IsAfter, run-IsAfter}
use rust_accelerator_no_sql.Store
use rust_accelerator_no_sql.Startup.{cleanups, main, own_me}
use rust_accelerator_no_sql.Startup.Running.{
  stored-cleanups, latest, IsParsed, IsRunning, main-IsRunning,
}
use rust_accelerator_no_sql.Common.{worker_config, Config}
use rust_accelerator_no_sql.Store.{write, put_mutation, Mutation}
use rust_accelerator_no_sql.Store.Lww.{stored}
use rust_accelerator_no_sql.Store.Expiry.{live}

abbrev command : Command
command = worker (record { grpc_port = 9001; self_host = "w"; self_port = none }) "m" 9000 300

abbrev clock : TickInput
clock = record {
  heartbeat_now = 8;
  sync_clock = λ partition_id id. record { checked = 8; stamped = 8 };
}

abbrev inputs : List Event
inputs =
    message (new_connection (some 1) "m" 9000 true) 6 clock
    ∷ ticked clock
    ∷ message (leader 1 4 8) 8 clock
    ∷ []

parsed : IsParsed command
unfolding IsParsed parse_positive_u64
parsed = (some 300, refl)

main-IsRunning_example : IsRunning 5 [] inputs (main 2 command)
main-IsRunning_example = main-IsRunning 2 command 5 [] inputs parsed

abbrev config : Config
config = worker_config 9001 ("w", 9001) ("m", 9000) 300

abbrev started : WorkerService
started = record {
  me = own_me 2 config;
  state = some (Worker.new (own_node (own_me 2 config) 5));
  config = config;
  runtime_store = Store.new;
}

run-IsAfter_example : IsAfter (Worker.new (own_node (own_me 2 config) 5)) (run started inputs)
run-IsAfter_example = run-IsAfter started (Worker.new (own_node (own_me 2 config) 5)) inputs refl

-- A record that expires at 50, and a cleanup at 40 and then at 60.
abbrev fleeting : Mutation
fleeting = put_mutation (record { expiration_time_ms = 50; creation_time_ms = 10; value = [] })

stored-cleanups_example :
    stored (cleanups (write Store.new 7 fleeting) (40 ∷ 60 ∷ [])) 7
    ≡ live (latest 40 (60 ∷ [])) (stored (write Store.new 7 fleeting) 7)
stored-cleanups_example = stored-cleanups (write Store.new 7 fleeting) 40 (60 ∷ []) 7
