-- ===== src/Lib.antt =====
-- OpenCtrl's master runs child processes ("instances") of one executable: it starts, watches and
-- stops them, keeps their configuration and traffic in a state file, and offers them to clients
-- over an HTTP API with a stream of events. These files model the Go code of internal/master and
-- state what it promises.
--
-- State. Types has the structs of internal/master/types.go as records. A `Master` holds the map of
-- instances by id, and a heap of the objects, since a handler may still hold an instance that was
-- deleted. Channels, contexts, commands and process logs are numbers; the master lists the closed
-- channels, the cancelled contexts, the signals sent and the goroutines started. Env has what the
-- surroundings answer (URL parsing, the executable, the start of a command, failing file
-- operations, what other goroutines do while a stop waits): these are arguments of the operations.
-- An instance is called consistent if, when it runs, it has a process, a channel for its exit and
-- a context to cancel, if otherwise it has none of them, and if a failure of its process is
-- recorded only with the status error.
--
-- Parts, with their files:
-- * Instance (internal/master/instance.go). Snapshot: `snapshot`, `findInstance`,
--   `currentInstance`. Lifecycle.Start, Lifecycle.Stop and Lifecycle.Monitor: `startInstance`,
--   `stopInstance`, `monitorInstance`, `restartInstance`, `restartFailedInstance`, one function
--   each with helpers for the parts. Lifecycle.Cases has their branches as rules for the proofs;
--   Consistent, Exit and Ending have the properties.
-- * Output (internal/master/output.go): `processLog`, over byte strings. `Write` loops on fuel,
--   one round for each byte of its data, which is enough since a round takes at least one byte;
--   Output.Pieces and Output.Bytes compare the loop with a function of single bytes, so fuel that
--   is too small would show there. Output.Text follows the runes through it.
-- * Event (internal/master/event.go). Subscriber: the queue with `enqueue`, `next` and `close`.
--   Publish: `publishEvent`, `sendSSEEvent`, `shutdownSSEConnections`. Opening: `handleSSE` until
--   its loop, where `is_get` is the test of the method. Stream: its loops; the inner loop runs on
--   fuel, and one round more than there are events queued and acts of other goroutines to come is
--   enough, since each round but the last takes an event, and each act queues at most one.
-- * Telemetry (internal/master/runtime.go and telemetry.go). Counter: `applyCounter` and the other
--   steps of a traffic counter, with the wrap-around of uint64 written out. Apply: what greetings
--   and snapshots do to an instance. Frame: `readTelemetryFrame`. Discover: `discoverTelemetry`
--   and `validTelemetryRegistry`. Session: `connectTelemetry`, `consumeTelemetry` and
--   `runTelemetry`; the loop of `consumeTelemetry` runs on fuel, and one round more than there are
--   bytes to come is enough, since each frame takes some. Registry: the data, and JSON, whose
--   decoder is an argument. Unix: internal/master/unixipc.go, with linux.go and unix.go as Linux
--   and OtherUnix; Windows: winpipe.go; both over the answers of the operating system, and both
--   give Discover its platform and its directory.
-- * State (internal/master/state.go). Save: `saveStateToPath`, with each failure of a file
--   operation. Load: `loadState`, for every order of the map's entries.
-- * Rest (internal/master/rest.go). Patch: `handlePatchInstance`. Modify: the other handlers of
--   instances. Info: the change of the master's alias in `handleInfo`. Ping: `handleTCPPing`.
--   Common: answers and shared checks.
-- * Server (internal/master/master.go): the API key in `Run` and the middleware that asks for it.
--   Shutdown: `shutdown`, with the place where its deadline may end it. New: `NewMaster`. Run:
--   `Run` as the composition of its parts. Written: `setCORSHeaders`, `writeJSON` and `httpError`
--   of internal/master/util.go. Info: `masterInfo` and `handleInfo`. Serve: the table of handlers
--   in `Run`, and the answers to requests; http.ServeMux, which finds the entry of a path or
--   answers itself, is an argument. Tls (internal/master/tls.go): `newServerTLSConfig`, and the
--   reloading of certificates; Tls.SelfSigned: `newTLSConfig`.
-- * Command (cmd/openctrl/main.go): `start` and `createCore`.
-- * SysInfo (internal/master/sysinfo.go): `linuxSysInfo`; Proc: how it takes the texts of /proc
--   apart.
-- * Periodic (internal/master/periodic.go): a round of the hourly tasks.
-- * Registry (internal/master/instance.go, rest.go, state.go): the map of instances as an abstract
--   machine of six moves, with what every move keeps, and the operations as sequences of moves.
-- * System (all of these): the steps of requests, goroutines, processes and telemetry as one
--   relation. Invariant: consistency. Telemetry and Requests: the telemetry goroutine and the
--   server are sequences of steps. Moves: every step is a sequence of moves of Registry. Held and
--   Closed: an instance of the map while the server closes. Closing: `shutdown` among the steps.
--   Lifetime: from one process of the master to the next. Life and Program: whole processes, from
--   the command line to the shutdown.
-- * Util (internal/master/util.go): hexadecimal ids, `cloneTags`, `resetStoppedInstanceLocked`.
--   Base: the library's names and lemmas that all files share. Tests: the theorems at concrete
--   inputs.
--
-- How the parts meet: the handlers of Rest change instances through the operations of Instance,
-- which send events through Event and save through State; Server puts its middleware before the
-- handlers; telemetry and process output act on an instance only while its command is the current
-- one. The start of an instance puts the telemetry goroutine of Session on the list of tasks; it
-- takes its entries from Discover, reads through Frame, and acts through Apply.
--
-- Concurrency. A section under a mutex is one step. `lifecycleMu` is held throughout an operation
-- of the lifecycle, so each is one function; the code between is interrupted only where a stop
-- waits, and there the other goroutines are an arbitrary function, of which System asks that it
-- takes steps of the system. These may also be operations on the very instance that waits, which
-- `lifecycleMu` keeps out; so what is shown holds for more orders of the steps than the code
-- allows. A goroutine that an operation starts is put on the list of tasks. For the wake-up
-- channel of a subscriber, Event.Stream.Wakeup has a step relation of the handler and the other
-- goroutines.
--
-- Not modelled: listening, and the text of JSON (requests come decoded); that handles are closed;
-- the calls of crypto behind certificates; the end of the HTTP server in a shutdown, and the texts
-- that cmd/openctrl/main.go prints. Texts of errors and logs are kept only where a client sees
-- them.
mod Base
pub mod Types
pub mod Env
pub mod Instance
pub mod State
pub mod Output
pub mod Event
pub mod Util
pub mod Telemetry
pub mod Rest
pub mod Server
pub mod Command
pub mod Periodic
pub mod Proc
pub mod SysInfo
pub mod Registry
pub mod System
mod Tests
