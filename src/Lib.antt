-- ===== src/Lib.antt =====
-- sshflow keeps SSH connections open: a daemon starts `ssh` control masters, reuses and watches
-- them, and a command line asks it for the socket to connect through. These files model the
-- daemon, the command line and the crates below them, and prove what makes them correct.
--
-- Parts and files (sources are relative to the root of the repository):
-- - Core/HostTarget: `HostTarget` of crates/core/src/lib.rs, its `parse`, `key`, `display` and
--   `socket_fingerprint`, and `destination_string` of crates/ssh/src/lib.rs. Core/Errors,
--   Core/Events and Core/Protocol are the errors, events (crates/core/src/events.rs), requests
--   and responses.
-- - Config: crates/config/src/lib.rs; `parse_duration` and the configuration are in Config,
--   directories, `load` and `save` in Config/Home; Config/Trim has lemmas on `str::trim`.
-- - System: what is asked of the operating system and of code outside the repository.
-- - Ssh: crates/ssh/src/lib.rs; `needs_interactive_auth` is in Ssh/Auth, and the search for the
--   binary, which only the doctor uses, in Daemon/Doctor.
-- - Manager: `ConnectionManager` of crates/daemon/src/connection_manager.rs.
-- - Metrics: `MetricsStore` of crates/metrics/src/lib.rs; `format_duration_ms` is in
--   Metrics/Duration.
-- - Plugins: crates/plugins/src/lib.rs.
-- - Daemon/State: `DaemonState` and `evict_lru` of crates/daemon/src/state.rs, and the calls on
--   its parts with their effects. Daemon/Ensure: `ensure_connection` of
--   crates/daemon/src/ipc.rs. Daemon/Requests: `dispatch`, `handle_stream` and
--   `handle_stream_with_token` of the same file. Daemon/Health: `check_all` of
--   crates/daemon/src/health.rs, and its `run` in Daemon/Health/Task. Daemon/Serve: `serve_unix`
--   of crates/daemon/src/ipc.rs; Daemon/Windows: `serve_windows` and `read_windows_endpoint`.
--   Daemon/Boot: `main` of crates/daemon/src/main.rs on both platforms. Daemon/Doctor:
--   crates/daemon/src/doctor.rs. Daemon/Reach: the daemon as a sequence of whole requests and
--   rounds. Daemon/Contract: what the daemon promises of the sockets that are known under the
--   keys, as an abstract daemon on functions from keys to sockets, which forget the order and
--   the detail of the table. Daemon/Interleaving: the same handlers cut at their awaits, and the
--   daemon as requests and rounds that interleave there. Daemon/Interleaving/Rule and
--   Daemon/Interleaving/Steps carry a property of the state from the parts of a handler to every
--   step and every run of it; the modules beside them use it.
-- - Cli: crates/cli/src; Cli/Exchange is `send_raw` of ipc_client.rs with both transports and
--   Cli/Ipc the rest of it, Cli/Connect, Cli/Print, Cli/Files and Cli/Format are commands.rs,
--   Cli itself main.rs. Cli/Process is what a command works on: the other end of the socket, the
--   trace, and what was printed. Cli/Live joins a command line and a daemon of one home
--   directory: what the one writes, `handle_stream` of the other reads. A line is read up to its
--   end, and one that has none leaves both sides waiting. `Delivers` is what the commands need
--   of that joint; Cli/Live/Unix and Cli/Live/Windows fill it.
-- - The modules below each of these hold its theorems; Tests has runs on concrete inputs.
--
-- How they interact: a request is read by Requests and handled there; a request for a connection
-- goes to Ensure, which looks the target's key up in Manager, checks or starts a master through
-- Ssh, records the outcome in Metrics and tells Plugins. Health does the same for every key of
-- the table, once in each round. All of them change one `DaemonState`. Boot builds that state
-- and Serve hands it the requests until the daemon is ordered to stop. The command line pings
-- the daemon, starts it where it does not answer, and sends one request; for `ssh` it puts a
-- client on the socket of the response in its own place, or on Windows runs it and exits with
-- its code.
--
-- How the code is read:
-- - `cfg!(windows)` and `cfg(unix)` are the field `windows` of `System`: definitions cover both
--   builds, but for `main` of the daemon, which has one definition for each. No other target is
--   covered.
-- - A text is the list of its code points; a path is a text. Lengths in bytes are computed from
--   UTF-8 where the code counts bytes (`split_at` in `parse_duration`).
-- - Numbers are natural numbers. The additions and products of `u64` are reduced modulo 2^64, as
--   in a release build; saturating subtraction is that of the natural numbers.
-- - A map (`DashMap`, `HashMap`) is the list of its entries in an order of iteration. Nothing is
--   assumed of that order: Daemon/Reach lets it change between steps, and the reload of the
--   metrics takes the hosts of the file in any order.
-- - An answer of the system (clock, file system, subprocesses, `serde_json` of an event, the
--   hash) is a field of `System` and may depend on everything that was done before, which a
--   state keeps as its trace, newest first. The other uses of serde are arguments of the
--   definitions.
-- - The command line's peer is a parameter `S` with the calls of `Desk`; Cli/Live takes the
--   daemon's state for it. An error of `anyhow` is the chain of its messages, outermost first.
--   The end of the process by `exec` or `exit` is a value, `Exit`.
-- - The accept loops go over a list of what they meet: a stream by its first line, an error of
--   accept, the order to stop, a signal. A stream is handled when it is accepted.
-- - A panic is the result `none`, or `panics` for the health check; the changes made before it
--   stay.
-- - In Requests, Health and Reach a request, and a round of the health check, is one step from
--   its first statement to its last. In Interleaving it stops at each await on a blocking
--   thread, and others go on; the subprocess takes its effect when the task is resumed. Awaits
--   on the streams come before and after a request and are no stops.
-- - A write of metrics.json that fails leaves the file as it was. The average latency is an
--   exact fraction, without the rounding of `f64`.
-- - `Path::join` is used with relative names only, and joins with a slash.
-- - Lower case is exact for ASCII letters and for the one other character whose lower case has
--   an ASCII letter in the phrases that are looked for; every other character is left alone.
--
-- Every loop of the code is over a list or a text, but for the 40 polls of the daemon's start,
-- which are counted, and for the accept loops and the loop of the health check, which go over
-- what they meet. No definition needs fuel beyond that, but for `complete` in
-- Daemon/Interleaving/Atomic, which runs a task through a number of awaits: two for a request,
-- and two for each connection for a round, after which the state is that of the handler in one
-- step.
--
-- Not modelled: the parsing of arguments (`clap`), the set-up of `tracing` but for the log file,
-- log messages everywhere, the reaping of hooks, and the process group of a daemon that is
-- started.
pub mod Prelude
pub mod Core
pub mod Config
pub mod System
pub mod Ssh
pub mod Manager
pub mod Metrics
pub mod Plugins
pub mod Daemon
pub mod Cli
pub mod Tests
