-- ===== src/Lib.antt =====
-- kernmini: a Jupyter kernel's core, with a language behind an interface.
--
-- The program reads frames from ZMTP connections (src/transport.rs), decodes and verifies them
-- (src/wire.rs), and hands the shell requests to a scheduler per shell (`Shell` of src/engine.rs),
-- which runs one execution at a time, answers the other requests at once, holds requests that a
-- debugger has asked to hold, and aborts what is queued after an error or an interrupt. A loop of the
-- same file answers the control requests and keeps the table of shells. A language adapter
-- (src/language.rs) answers the requests; the one for Python is py/src/python.rs. src/dap.rs is a client
-- of a debug adapter, and src/thread_worker.rs gives an interpreter a thread of its own.
--
-- The files:
-- - Prelude, Json, Float: shared names, with the texts, numbers and UTF-8 of Rust's library that the
--   source uses; JSON values as serde_json presents them; 64-bit floats.
-- - Errors: src/error.rs, the errors as values with their causes.
-- - Wire: src/wire.rs, `Session::signature`, `decode`, `encode`, `message` and `reply`; Wire/Replay and
--   Wire/RoundTrip are on what a session accepts and on what it reads of what was written.
-- - Language: src/language.rs, the data that cross the boundary; an adapter is the record
--   `LanguageSession` of its answers, numbered by the calls.
-- - Connection: `ConnectionInfo::address` of src/connection.rs.
-- - Engine/Queue: the `BinaryHeap` of `QueueItem` and `pop_runnable` of src/engine.rs, as the list of
--   the items in the order in which `pop` returns them.
-- - Engine/Effects, Replies, Pump, Execute, Handler: the functions of src/engine.rs that send messages.
--   A handler is a function on a `World`, which records what is sent; sending, time and the peer are
--   answers of `Services`.
-- - Engine/Config: `KernelConfig::from_env` of src/engine.rs.
-- - Engine/Stdin: the table of the input requests that wait, of `Stdin` in src/engine.rs.
-- - Engine/Shell, Engine/Run: `Shell` of src/engine.rs, one function per method, and its loop. A pass
--   of the loop is a function of whether the running execution is finished and which branch of the
--   `select!` is taken; `run` goes through as many turns as are given, so no fuel is needed.
-- - Engine/Answers counts the replies that the handlers send to an execute request;
--   Engine/Balance sets them against the requests that wait, are queued, held or running.
-- - Language/Interrupt: `ExecutionInterrupt` of src/language.rs.
-- - Engine/Router: the table of shells and the routes of client sessions in src/engine.rs:
--   `route_shell`, `create_subshell`, the session commands and the deletion and end of a shell.
-- - Engine/Control: the arms of the `match` on a control request in `run_kernel_with_interrupter`, over
--   the table of shells and the requests that wait for a shell; a subshell that is deleted stops in the
--   background, and its request waits in `deleting`.
-- - Dap: the client of src/dap.rs; a call of a method is a function on the client's state. Dap/Framing is
--   `read_message` and Dap/Framing/Stream `read_messages`, on the bytes that a stream gives before it ends;
--   Dap/Waiting is `DapRequest::wait` at its end.
-- - Transport: src/transport.rs, the loop of `Iopub::publish` over the subscribers, the table of
--   `RouterPeers`, and what a ROUTER, an IOPub and a heartbeat peer do with what they read.
-- - Worker: src/thread_worker.rs, jobs as functions on a state; Worker/Sequential is an object that
--   answers them one after the other.
-- - Python: py/src/python.rs. Python/UserCode has the operations on the state that an execution shares
--   with its interrupts; Python/Carriers says in which order they may run, as a step relation.
--   Python/Outcome and Session turn what the interpreter answers into a `LanguageSession`, and
--   Python/Errors turns errors into exceptions.
-- - Tests: concrete data, on which the theorems are applied.
--
-- Bounds: sequences, arrival numbers and execution counts are 64 bits wide and wrap where the source's
-- arithmetic wraps in a release build. Recursion is structural, except in `Prelude.Text.replace` and
-- `decimal`, whose fuel is the length of the text and the number itself, in `Float.of_u64`, in
-- `publish_loop`, where each round passes a channel or removes one, in `read_headers`, where each round
-- takes a byte, and in `read_messages`, where each round takes a message or ends the loop.
--
-- Assumed of the environment: the interpreter handles a SIGINT that was sent to its main thread before
-- the event loop's next callback, a thread's number is its own, and an exit from user code follows an
-- entry (the premises of `Step` in Python/Carriers).
--
-- An interrupt request of an execution without the hook is one step there, and its `pthread_kill`
-- succeeds; the theorem of Python/Sigint runs another request between the two.
--
-- Not modelled: sockets and tasks, memory that runs out, and the end of a time's range, at which
-- `Instant::now() + hold_timeout` panics. A send to a subscriber's full channel is taken as it ends. An execution's output is sent in one step when the execution ends,
-- so interleavings of it with what the shell sends meanwhile are left out; a call of the DAP client runs
-- alone, but for a close in the middle of `send`. The HMAC, the JSON text, the identifiers and the clock
-- are parameters (`Crates`, `Services`), and so is the `{:?}` text of a string (`Runner`). Of
-- `run_kernel_with_interrupter` the `select!` over the channels and the sockets are left out. The
-- kernelspec files (src/kernelspec.rs) are the file system's; py/src/python_worker.rs waits for the
-- methods of src/thread_worker.rs; src/bin/kernmini-echo.rs is an example.
pub mod Prelude
pub mod Python
pub mod Worker
pub mod Transport
pub mod Json
pub mod Float
pub mod Errors
pub mod Wire
pub mod Language
pub mod Connection
pub mod Engine
pub mod Dap
pub mod Tests
