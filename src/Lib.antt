-- ===== src/Lib.antt =====
-- Verification of the hakuraku monitoring suite: an agent (pulse-agent) that samples a machine and
-- streams what it finds over gRPC, a server (pulse-server) that authenticates the streams, keeps a
-- registry of nodes, stores snapshots in PostgreSQL and serves them over HTTP and WebSocket, and the
-- crate they share (pulse-core).
--
-- The parts and their files
--   Core.Error     pulse-core/src/error.rs, the error types and the texts that leave the process
--   Core.Proto     pulse-core/proto/telemetry.proto, the messages as records and data types
--   Core.Auth      pulse-core/src/auth.rs: generate_nonce, sign_request, verify_request,
--                  NonceTracker, AuthInterceptor and inject_auth_headers, with the closure
--                  auth_interceptor of pulse-server/src/main.rs as grpc_intercept
--   Core.Float     the operations on f64 and what IEEE 754 promises of them
--   Agent.Buffer   pulse-agent/src/buffer.rs, the ring buffer of unsent messages
--   Agent.Backoff  pulse-agent/src/main.rs: ExponentialBackoff, rand_simple, and the choice between
--                  reset and delay in run_agent_loop
--   Agent.Collector  pulse-agent/src/collector.rs: Proc has the readers without memory, Cpu the
--                  processor load, Counters the rates, Collect the whole sample
--   Agent.Prober   pulse-agent/src/prober.rs, the TCP probes
--   Agent.Session  pulse-agent/src/main.rs: collection_loop, the forwarder of run_session with its
--                  channel of 64 messages, and what becomes of them when a session ends
--   Agent.Loop     pulse-agent/src/main.rs: run_agent_loop, and how run_session begins and ends
--   Agent.Config   pulse-agent/src/main.rs: Config::from_env and the health check of the container
--   Agent.Commands  pulse-agent/src/main.rs: the commands that run_session takes from the server, the
--                  tasks of probes, heartbeat_loop and a round of collection_loop
--   Server.State   pulse-server/src/state.rs: the registry, the broadcasts, the sharded queues
--   Server.Grpc    pulse-server/src/grpc.rs: the task that serves one stream of telemetry; Serial has
--                  the value that is stored
--   Server.Db      pulse-server/src/db.rs over the tables of pulse-server/migrations/001_init.sql
--   Server.Api     pulse-server/src/api.rs: the token extractor and the parameters; Handlers has the
--                  handlers, Health those of the server's health and of its metrics
--   Server.Liveness  pulse-server/src/main.rs: a tick of the loop that takes silent nodes offline
--   Server.Worker  pulse-server/src/main.rs: the ingestion worker, the loading of the registry at
--                  the start and a tick of the clean-up
--   Server.Ws      pulse-server/src/ws.rs, what a WebSocket client is sent
--   Server.System  pulse-server/src/main.rs: the server as a whole; the tasks that main spawns are the
--                  steps of a run, and Shutdown has the workers' loop at its end
--   Server.Victoria  pulse-server/src/main.rs: serialize_to_vm_jsonl, the address of VictoriaMetrics
--                  and the posts under the semaphore
--   Server.Metrics  pulse-server/src/metrics.rs: the metrics, their registration at the first use, and the label
--                  values of each use
--   Server.Startup  pulse-server/src/main.rs: the environment and the policy for other origins; Boot has
--                  the steps of main until both servers run
--   Server.Router  pulse-server/src/main.rs: the routes, with the extractors of their handlers
--   EndToEnd       the messages of an agent's loops, served by the task of its stream, and what a
--                  client then reads of a node
--   Prelude        lists, texts, signed integers, decimal text, maps, results, bit operations,
--                  environment variables
--
-- How they interact: the agent signs a stream's headers (inject_auth_headers), the server's
-- interceptor checks them (call), the stream's task trusts the node's name in them alone
-- (authenticated_node_id), updates the registry, tells the subscribers and hands rows to the worker
-- of the node's shard (send_to_worker), which writes them to the database. The HTTP handlers read the
-- registry and the database; the liveness loop and the clean-up change them on a timer. Server.System
-- composes these tasks: a step of a run is one move of one task, and the steps come in any order.
-- EndToEnd composes the agent's loops with the server's stream.
--
-- Conventions: state is passed explicitly. Text is a list of Unicode scalar values. Machine integers
-- are natural numbers or integers whose wrap-around is written out, as the release profile computes
-- it. A panic is `none` of an Option. Clocks, random bytes, the kernel's files and whether the
-- database answers are arguments. Two definitions run on fuel: the printing of a number, where one
-- round for each unit of the number is more than its digits, and run_worker, for which the items
-- that wait in its queue and one more are enough, so that a queue's capacity and one always are.
-- Every other loop is a structural recursion over the messages, lines, entries or items that it
-- serves.
--
-- Parameters: HMAC, hexadecimal text and metadata values (crates hmac, hex, tonic), hardware floats,
-- the channels of tokio, serde_json's values and texts, the DefaultHasher that picks a shard, the
-- tables of `char`, the resolver and sockets of the prober, the prometheus registry, axum's matching
-- of paths and its extractors, and the policies of tower-http. Each is an argument, most of them a
-- record of operations with the documented laws beside it; Core.Toys, Server.Toys and the test
-- modules have instances on which the witnesses run.
--
-- Not modelled: connections and listeners past whether they are there, the layers around the
-- router (CORS headers, body and rate limits, timeout, traces), timers and signals, which are calls
-- of libraries (tokio, tonic, axum, sqlx, reqwest), so that a run of Server.System ends where its
-- senders are dropped; the timing of queries and the buckets of histograms, which nothing reads;
-- the benchmark and the integration tests; the build script and the deployment files.
pub mod Prelude
pub mod Core
pub mod Agent
pub mod Server
pub mod EndToEnd
