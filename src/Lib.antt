-- ===== src/Lib.antt =====
-- Umay is a TLS-terminating stream proxy with load balancing. A server is built from a configuration
-- (umay/src/app): each stream server of the file becomes a `StreamProxy` (umay/src/proxy) with a TLS
-- server (umay/src/tls) and a load balancer (umay/src/balance). The balancer holds the set of
-- backends that its discovery last found, refreshed by a task, and a selection algorithm that picks
-- one for each connection; the proxy ends the client's TLS, asks the balancer for a backend, connects
-- to it and relays.
--
-- What models what:
--   Base        what the modules share: tests, lists over native numbers, errors (`Outcome` is a
--               `Result` or a panic), Rust's `Ord`, and the collections: `OrdSet` is `BTreeSet`,
--               `OrdMap` is `BTreeMap`, `Dict` is `HashMap`.
--   Net         IP and socket addresses with their order, and `ipv4_mapped` of
--               umay/src/app/server.rs.
--   App         App.Config.* is umay/src/app/config.rs: the records are the structs, their fields the
--               getters. App.Server is the construction in umay/src/app/server.rs: `try_from`,
--               `create_discovery`, `create_selector`, `initialize_load_balancer`,
--               `initialize_tls_server`. App.Server.Traverse, Laws, TryFrom and Starts
--               hold its theorems.
--               App.Service is a running service: `run_service` and the closure of `bind_listener`,
--               with the socket options of umay/src/app/mod.rs, by what its loop waits for. App.Run is
--               `run` and `shutdown`, with `run_server` of umay/src/main.rs; App.Main is `main`,
--               `init_logger` and `build_runtime`. App.Signal is the signal task of
--               umay/src/app/signal.rs with its channel. App.System puts that task, the services and `run` side by side as a step
--               relation; Safety and Shutdown are about its reachable states and about how it ends.
--               App.Program is the whole server at work: the signal task, the loops, the refresh tasks,
--               the connections, and `run` with the sleeps of its shutdown until the runtime is
--               dropped. Its Trace says what a run of it is to one proxy; Deployed, Shutdown,
--               Termination and Stopped are about its end. App.Server.Targets, Deployment, Serving and
--               Tasks are about a server from its configuration to its connections.
--   Balance     Backend, Backends and LoadBalancer are umay/src/balance/mod.rs: `select`, `refresh`,
--               and `tick`, one turn of `start_refresh_task`. Selection.* is
--               umay/src/balance/selection.rs, one module for each algorithm, with the trait as the
--               record `SelectionAlgorithm` and its laws; Selector is the trait object that
--               `create_selector` makes; LeastConnections.Balance counts each answer, as the algorithm is
--               meant to be used. Discovery.* is umay/src/balance/discovery.rs, with the trait
--               as the record `ServiceDiscovery` and its laws.
--   Tls         Tls and Tls.Server are umay/src/tls/mod.rs and server.rs: the future `TerminateFuture`
--               by its polls. Tls.Credentials is umay/src/tls/credentials.rs. Tls.Pki is
--               umay/src/tls/pki.rs, the keys and certificates of the tests, and Tls.Pki.Files how they
--               are written to a directory.
--   Proxy       Proxy.Stream is umay/src/proxy/stream.rs: Connection is `handle_connection` as a step
--               on the balancer and on the list of what was asked of the network, Tcp and WebSocket
--               are `proxy_tcp`, with the buffers of its two copies, and `proxy_ws` as functions of what
--               happens in the session. Lifetime is a
--               proxy in use, its connections and refreshes in any order; Targets, Serves,
--               Fairness and Resilience are about where those connections go.
--               Interleaved runs the connections as tasks: a step of a task is what it does between
--               two accesses to what the tasks share, and the steps come in any order. Ends,
--               Held, Progress, Runs and Fairness are about those runs.
--   Examples    the modules of this name apply the theorems to concrete values.
--
-- How the program's constructs are modelled. Shared state behind an `Arc` (atomic counters, the
-- `ArcSwap`s) is passed along explicitly; each atomic operation is one step, and interleavings are
-- sequences of events (Balance.LoadBalancer.Schedule, LeastConnections.History,
-- Proxy.Stream.Lifetime, Proxy.Stream.Interleaved, App.Program) or a step relation (App.System).
-- Lifetime takes a connection as one event; Interleaved splits it before each access to shared
-- state: `select` loads the set in one step and picks from it in another, where the counter is read
-- and advanced by one atomic operation. A task makes a step when what it waits for has come, so
-- that one whose handshake or connection hangs makes none; serving the chosen backend is one step,
-- since it touches nothing shared, after which the session is over or, where nothing ended it,
-- still open. Time is a count of milliseconds, and the scheduler a sequence of events. Logging has
-- no effect. A `todo!()`, an `unwrap` or an `expect` that fails is the value `panic`. A set is the
-- list that its iterator yields. A `usize` counter is a number modulo 2^64, written out. Ports and
-- the other numbers of the configuration are in the range of their Rust types, which
-- deserialisation sees to. Recursion is on lists throughout, so that no fuel is used.
--
-- The crates are parameters: `Rustls` (with rustls_pemfile), `Session` (a TLS stream of
-- tokio_rustls), `Hickory` and `Resolvers` (hickory_resolver), `ConfigCrate` (config), `Rng` (rand,
-- whose law is that a draw from a range that is not empty lies in it), `Network` (tokio and
-- tokio_tungstenite), `Sockets` and `Listeners` (tokio and socket2), `Builder` (the runtime of
-- tokio), `Tracing` (tracing and tracing_subscriber), `Hasher` (the standard library's), `Rcgen`
-- (rcgen), `Disk` (the file system, whose law is that two of the seven names that are written,
-- joined to one directory, are the same path just when they are the same; Tls.Pki.Join is
-- `Path::join` on Unix, and obeys it), `Display` and the parsers of the standard library. None but
-- `Rng` and `Disk` has a law.
--
-- Not modelled: the HTTP proxy, which is an empty structure; the metrics, a pair of a name and a
-- floating point number that nothing reads; the lines of the log and how they look, where only the
-- filter of umay/src/main.rs is; `poll_ready` of the services, which is always ready.
pub mod Base
pub mod Net
pub mod Balance
pub mod App
pub mod Tls
pub mod Proxy
