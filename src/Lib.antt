-- ===== src/Lib.antt =====
-- The ebbflow client: a daemon that keeps connections from a host to Ebbflow's load balancer and
-- proxies each to a local service, and a command line client that edits its configuration.
--
-- Parts, with the source file and the module that models it:
--   * src/config.rs: Config. Config/Data has the records of the configuration, Config/Equality
--     the derived comparison of an endpoint and of the SSH settings, which decides what restarts,
--     Config/Files the files of the configuration, the key and the daemon's address, with
--     `config_reload` of src/ebbflowd.rs, and Config/Paths where they lie; Config/SaveLoad is
--     about what is read back.
--   * src/ebbflow.rs: Cli, the subcommands about endpoints; Cli/Settings has those about SSH and
--     the log level, and `handle_enable_disable_ret`; Cli/Endpoints, Removing, Enabling and
--     Outcomes are about them. Cli/Console has the prompts, Cli/Init `init`, Cli/Status `status`,
--     Cli/Blocking `run_blocking`, Cli/Printed what is printed, and Cli/Main `main`.
--   * src/ebbflowd.rs: Ebbflowd, the start of the process; the closure of its file watcher stands
--     in Reload.
--   * src/infoserver.rs: InfoServer; InfoServer/Shown is about the client that asks it.
--   * src/signal.rs: Signal, the stop signal.
--   * src/messagequeue.rs: MessageQueue, the newest messages of the daemon.
--   * src/daemon/health.rs: Health. `Health.status` is `HealthMasterInner::status`; Health/Window
--     has its trimming loop, Health/Hysteresis the rule that it follows.
--   * src/daemon/mod.rs: Daemon has `spawn_endpoint` up to the task it starts, Daemon/Heap the
--     spawned endpoints (an `Arc<EndpointMeta>` is an address), Daemon/Addrs `get_addrs`. Pool
--     has `inner_run_endpoint`: Pool.Step is a step of the loop or of one of its connections.
--     Pool/Siblings has the pools that an endpoint's task opens one after the other, on the same
--     counters of `EndpointMeta`: Turn is the opening of a pool or a step of one of them.
--     Supervisor is the task that `spawn_endpoint` starts, an event for each health check or
--     stop. Daemon/Shared has `SharedInfo` and `create_args`.
--   * src/certs.rs: Certs, the texts of the certificates and the store made of them, which
--     goes on to the TLS library only.
--   * src/dns.rs: Dns, the settings of the resolver and what a lookup comes to.
--   * src/lib.rs: Runner. `Runner.update_config` is `InnerDaemonRunner::update_config`, cut into
--     one function for each of its loops and matches; Runner/Status has its `status`. Runner/Inv
--     says what holds between calls, and Runner/Reachable, Reconcile, Keeps and Idempotent are
--     about the calls. Runner/Wanted is an abstract view of the runner, which Runner/Refines and
--     Listed relate to it; Runner/Pools puts the tasks of the runner together with their
--     supervisors, Runner/Bounded with their pools. Reload is the loop of `run_daemon`, cut at
--     each file that it reads; Reload/Reflects and Settles are about it. Served is about the
--     client and the daemon together, Served/Removed, Switched and SshSetup likewise.
--   * src/messaging.rs: Messaging, the messages and their wire format.
--   * src/daemon/connection.rs: Connection. Stream has the byte stream and `await_message`,
--     Establish the handshake, Local the connection to the local service, Run `run_connection`.
--     Copy has `copy_bytes_ez`, an event for each read, write and flush, Proxy `proxy` and
--     `proxy_data`, an event of a direction, of the stop signal or of the delay after it;
--     Dialogue, Whole and Delivers follow a connection from its dial on. Run's Session takes the
--     outcome of Proxy as its `proxied`, which Serves puts back together.
--
-- The runner starts and stops endpoint tasks. A task runs a pool, the pool spawns connections,
-- and a connection changes what it shares with the others, the counters, permits and messages, by
-- the effects that Connection/Run computes for it. The client writes the files of the
-- configuration and the key, the watcher tells the loop of the daemon, which loads them and hands
-- them to the runner. The local server writes the file of its address, where the client reads
-- whom to ask for the status.
--
-- State is passed explicitly. The async code is modelled by the outcomes of what it awaits: each
-- function takes what the network, the clock and the stop signal do as a record (Dial, Attempt,
-- Session, Probe), and the pool runs the effects of its connections in any order. A mutex or an
-- atomic counter makes each call atomic. Machine integers wrap where the source's do: the u32 of
-- a frame's length, the u16 of the health check's run, the usize of a counter.
--
-- Parameters: serde_cbor is a record of codecs, whose promise is that what was serialised reads
-- back (Messaging.RoundTrip.IsLawful); the random generator promises a number in the range it is
-- given; serde_yaml is a record whose promise is that a saved configuration reads back
-- (Config.SaveLoad.IsLawfulYaml); the watch channel shows a receiver only values that were sent
-- (Signal.IsHistory); serde_json reads back a status that it wrote
-- (InfoServer.Shown.IsLawfulJson); the random choice of an address fails only on none
-- (Daemon.Shared.Chosen.IsChoice). `trim`, the host's name, the time, the file system's
-- errors, the answers of the resolver, the http calls, the lines of the input, the watcher's
-- events and errors and the padding of formats are arguments; the watcher calls its closure no
-- more once it panicked.
--
-- Fuel: the trimming loop of the health window runs on the window's length, which is enough since
-- a round takes one check off. The loop of `init` that asks for a name runs on the number of
-- lines of the input and one more; a round takes a line, and at the end of the input it never
-- ends, which is the outcome `endless` (Cli/Init/Enough).
--
-- Not modelled: logging, the texts of prompts, TLS and the parsing of the command line, which is
-- a library's; the Windows service's side of its reports; packaging.
mod Prelude
pub mod Config
pub mod MessageQueue
pub mod Health
pub mod Daemon
pub mod Runner
pub mod Signal
pub mod Supervisor
pub mod Cli
pub mod Reload
pub mod InfoServer
pub mod Dns
pub mod Certs
pub mod Ebbflowd
pub mod Served
pub mod Messaging
pub mod Connection
pub mod Pool
mod Tests
