-- ===== src/Lib.antt =====
-- Developer Mount: a remote file system for editors. A client speaks a framed protocol to a
-- server that keeps sessions, a metadata cache over a local directory, open handles, and a
-- journal of changes that clients watch.
--
-- Protocol: internal/protocol/types.go, the constants and the records of the messages.
-- Transport: internal/transport/codec.go. EncodeFrame and DecodeFrame are `encode_frame` and
--   `decode_frame`, on lists of bytes; a stream is the list of the bytes that come before it
--   ends.
-- Session: internal/server/session_manager.go. Each method is a function on `SessionManager`
--   that takes the time in nanoseconds.
-- Journal: internal/server/journal.go. Each method is a function on `Journal`. Append is
--   `reserve`, which takes a number from the atomic counter, and `commit`, which runs under the
--   lock.
-- Directory: the sorted entries of a directory snapshot and the pages of ReadDir, from
--   internal/server/metadata_backend.go.
-- Control: internal/server/server.go, dispatch, dispatchControl and requireActiveSession. A
--   frame's payload is decoded by parameters; `serve_hello`, `serve_auth`, `serve_create`,
--   `serve_resume` and `serve_heartbeat` are the cases of the switch, and return the answer as
--   a value.
-- Backend: internal/server/metadata_backend.go and editor_profile.go. `Os` is the operating
--   system, a record of functions on its state; a method is a function in the monad `M`, which
--   keeps what a failed call has changed. Nodes and Cache are the tables, Refresh reads the
--   operating system into them, Entries has the calls on names and directories, Files and
--   Handles those on open files, Recovery those of the journal and of a client that reconnects.
-- Dispatch: internal/server/server.go, dispatchMetadata, dispatchData, dispatchEvents and
--   dispatchRecovery: a case of a switch is a function `serve_...` in the monad `Handler`, which
--   keeps the state where the answer is an error. `Site` is the server's backend and journal, and
--   `publish` is the Append of a handler. Connection joins these with Session and Control:
--   `dispatch` tests the channel and the session, and `answer_frame` goes from the bytes of a frame
--   to those of its answer.
-- Client: internal/clientcore. Tracking, Recovering and Seen are state.go: what a client tracks,
--   what it asks to recover, and how it takes the answers. Wire is `request` of rpc.go on a
--   connection that is a parameter, `Conn`. Calls has the calls of session.go, data.go,
--   metadata.go, watch.go and recovery.go. Loop joins a client and a server.
-- Mount: internal/platform/windows/path.go in Path, and internal/mountcore/mount.go, whose methods
--   are functions in the monad of Prelude.Steps over a record `ProtocolClient`, which OnClient
--   fills with the calls of Client.
-- Runtime: internal/winclientruntime/runtime.go. Start builds a session outside its lock, so an
--   `Event` is what happens in one hold of the lock, and `run_events` is an interleaving.
-- Winclient: internal/winclient/config.go, Normalized and Validate, which Start calls. Store is
--   internal/winclientstore/store.go, the profiles in a file; `Libraries` is what it takes of os,
--   path/filepath, time and encoding/json.
-- Winfsp: internal/winfsp/status.go, callbacks.go and security_descriptor.go on a mount. The adapter
--   of internal/winfsp/adapter/adapter.go only passes calls on. Native is
--   dispatcher_native_windows.go, the functions that the driver calls.
-- Materialize: internal/materialize/materialize.go over a mount. `LocalDisk` is the local system, a
--   record of functions on its state.
-- Observer: internal/server/lock_observer.go, control_observer.go and fault_log_observer.go, the
--   counters, and runtime_snapshot.go. In Waits a call of `observe` is cut at its atomic operations.
-- Prelude: shared names, Go's maps behind their laws, byte texts and path/filepath on Unix.
-- Tests: runs at fixed inputs and instances of the theorems.
--
-- A uint64 counter wraps at 2 ^ 64, and theorems that need fresh numbers say how far the
-- counter is from there. Every loop is a recursion on a list, or on fuel: sort.Search takes as
-- many rounds as there are entries; the walk of SnapshotSubtree takes one unit of fuel for each
-- level of directories and fails without; Sync and the pages of a listing take rounds, and without
-- them end with `unfinished` or `none`. The server and the local copy are on Unix: the separator of
-- paths is `/`. strings.TrimSpace is modelled on ASCII.
--
-- Parameters are the coding of payloads in JSON, the text of a time, the texts of errors, the
-- default mount point, and the connection. Not modelled are counters of statistics, logs and
-- traces, the network, DefaultBuilder, Snapshot and VolumeInfo of the mount, the start of the native
-- driver and its bindings, and the programs under cmd.
pub mod Prelude
pub mod Protocol
pub mod Transport
pub mod Session
pub mod Control
pub mod Directory
pub mod Dispatch
pub mod Backend
pub mod Journal
pub mod Observer
pub mod Client
pub mod Mount
pub mod Materialize
pub mod Runtime
pub mod Winclient
pub mod Winfsp
pub mod Tests
