-- ===== src/Lib.antt =====
-- A distributed in-memory key-value store: managers elect a leader, which assigns 4096 partitions to
-- the workers; workers hold the records, answer the clients and copy partitions to one another when
-- the assignment changes. The library models the state machines of both programs, the store, the
-- messages between the programs with their conversions, and the client library.
--
-- The parts, and the code that they are about, under crates/no-sql-store/src, if nothing else is said:
-- Common: common.rs, the data of the cluster and the configuration.
-- Manager: manager/service/state.rs and manager/domain.rs, a manager's `State` and messages.
--   Manager.Election, Heartbeats, Connection, Cluster and Assignment are the files election.rs,
--   heartbeat.rs, connection.rs, cluster_state.rs and partitions.rs of manager/service, one function
--   for each handler. Manager.Service is manager/service.rs: `get_init_messages`, `tick` and
--   `process`, and `run`, the loop over messages and ticks, and over the changes of the replication
--   factor that the gRPC layer makes, which shares the configuration.
-- Store: worker/runtime_store.rs, the records of a worker by partition, with the journal of changed
--   keys by revision that a migration reads. Store.Concurrent is one partition under several threads:
--   each shared access of `WriterGuard`, of the expiry of a record and of `stable_revision` is a step,
--   and a schedule is a list of them.
-- Worker: worker/service/state.rs and worker/domain.rs, a worker's `State` and messages.
--   Worker.Membership has the handlers of cluster_state.rs, connection.rs, election.rs and
--   heartbeat.rs of worker/service. Worker.Sync is the copy of one partition to one recipient,
--   Worker.Pass the pass over all partitions and recipients, Worker.Batch the receiver of a batch,
--   all of worker/service/partitions.rs. Worker.Service is worker/service.rs.
--   Worker.Requests is the answer to a client's request, in worker/grpc.rs, and Worker.Grpc the events
--   of worker/grpc/input.rs, output.rs and session.rs.
-- Manager.Grpc: manager/grpc/input.rs, output.rs and session.rs, the events that a manager receives and
--   sends; Manager.Grpc.Connections is manager/grpc.rs and manager/grpc/manager_connection.rs, the
--   connections that it accepts and opens. Worker.Grpc.Connections is the same of worker/grpc.
-- Channels: what the two programs' connections share, the loop over the events that arrive.
--   Channels.Streams is the two kinds of stream of session.rs, and a send to a session that closes.
-- Conversions: conversions.rs, and the conversions of a cluster's state in the gRPC layers.
-- Cli: cli.rs, and the conversion of a command into a configuration in common.rs. Startup is main.rs,
--   manager/mod.rs and worker/mod.rs: what a command starts, and the turns of the cleanup task.
-- Wire: the messages of crates/no-sql-store-proto/proto.
-- Client: crates/no-sql-store-client/src, the topology that a client keeps, the nodes that it reads and
--   writes, and the decoding of responses. Client.Requests has `put`, `get` and `delete` with their
--   retries, against the stores of the workers. Client.Connection is connection.rs, the requests that
--   wait on a connection, and Client.Session the bootstrap and the connections to workers and managers.
--   Client.Keys is the number of 64 bits that a key is; the crate blake3 is an argument of it.
-- Map, Map.Entries, Map.Set and Map.Extensionality: maps and sets of the standard library and of the
--   crates dashmap and crossbeam-skiplist, as lists in ascending order of their keys. Prelude:
--   numbers, Booleans, options and lists.
-- The modules below these hold lemmas and theorems, Examples modules their runs on small inputs.
--
-- A handler of the code changes a state and pushes messages to an `output`; here it returns the new
-- state and the messages. A service talks to its peers by messages only, and a worker's service also
-- to its store. The clock and the random timeouts are arguments, one for each reading. A panic is
-- `none`.
--
-- Bounds. Integers of 64 bits wrap where the code adds to them (`add64`), as in a release build; a
-- partition's id wraps to 16 bits. A `NodeId`, a UUID in its canonical text, is the number of 128 bits
-- in the same order. The loop of `calc_replica_index` runs on the replica's number as fuel, of which
-- each turn uses at least one; the loop of `sync_change_batch` on the length of the journal, of which
-- each turn skips at least one entry. The attempts of a client's request run on their number as fuel,
-- as the loop of the code does.
--
-- The network is an argument: for each attempt of a request whether it reaches the worker and whether
-- its response is read; a request whose response is lost is handled before the next attempt, not
-- later. The requests to several nodes are made one node after the other; they touch different stores.
-- The crate uuid is an argument: a function that prints an id and one that parses a text, which is
-- assumed to read back what is printed. A session is known by whether its channel is closed, and what
-- is sent on an open channel arrives. A connection of the gRPC layers (`Served`) says what the sessions
-- are while it is served and when its events have ended: its own session is removed, unless its task
-- has panicked. The text of an id in a message is a number, the empty text 0.
--
-- The threads of Store.Concurrent that read hold the lock of the partition's shard for reading, and
-- `put`, `delete_at` and the removal of a partition need it for writing, so each of these is one step
-- that waits until nobody reads. The theorems on schedules bound their length, so that the counter of
-- revisions does not wrap. In the rest of the development a store's operation is one step.
--
-- What the network does to a client is an argument as well: the outcome of each subscription and of
-- each connection, whether a request can be sent, and what arrives on a stream. A caller that waits for
-- a response is a number, and so is a worker's connection, and the text of an endpoint. The tasks that
-- `ensure_manager` spawns run one after the other, after `ensure_connections` has ended.
--
-- Not modelled: the tasks of the runtime, the signals and the servers, the opening of a connection by
-- tonic, the delays between retries and before a new subscription, the parsing of the command line
-- into arguments, and the text of an endpoint. A caller of the client that gives up at its timeout is
-- not told apart from one that does not read its response. A `HashMap` of the code iterates in no fixed
-- order, here in the ascending one, so the order of messages to several recipients may differ.
mod Prelude
pub mod Map
pub mod Common
pub mod Manager
pub mod Store
pub mod Worker
pub mod Wire
pub mod Conversions
pub mod Channels
pub mod Cli
pub mod Client
pub mod Startup
