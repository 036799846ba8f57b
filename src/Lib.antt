-- ===== src/Lib.antt =====
-- hostdeck, the Go core of a desktop application that manages servers over SSH. The managers below
-- internal/ each keep the sessions of one kind (monitor, terminals, SFTP, tunnels, batch commands),
-- and report to one tracker what they do; the application closes a connection through a coordinator.
--
-- The parts that are modelled, with their files here:
--
--   Common             the shared types: native numbers, the signed integers of Go as values in ℤ,
--                      texts as lists of code points, association lists and maps as functions.
--   Domain             internal/domain/models.go: the statuses and the records that are passed on.
--   ConnectionError    internal/connectionerror: Classify (ConnectionError.Classify.classify) over
--                      the chain of errors that errors.As and errors.Is walk (Chain), and
--                      StatusForCode (status_for_code).
--   ConnectionState    internal/connectionstate/tracker.go: Tracker, and a function for each of its
--                      methods (UpdateMonitor is update_monitor, and so on), which returns the new
--                      tracker and the states that it publishes. Events puts them into sequences.
--   ServerLifecycle    internal/serverlifecycle/coordinator.go: Disconnect over optional managers,
--                      as functions on any type of worlds; it is put together with the tracker in
--                      Final.
--   Keepalive          internal/sshclient/keepalive.go: the loop of runKeepalive as a step on the
--                      events of its select, and the normalisation of its policy.
--   BatchCommand       internal/batchcommand/manager.go, internal/domain/batch_command.go: the task
--                      and what changes it (Task, Lifecycle), the table of tasks (Manager), the
--                      methods with the guard that the task is still in it (Calls), the
--                      normalisation of requests, and the test for commands that need a terminal
--                      (Interactive).
--   Validation         internal/domain/validation.go: ValidateConnection and the display name.
--   Tunnel             internal/tunnelmanager/manager.go, internal/domain/tunnel.go: the request to
--                      start a tunnel, the SOCKS5 handshake of a dynamic one (Socks), its worker
--                      (Worker) and the ways to stop it (Stopping).
--   NetworkDiag        internal/networkdiag/commands.go: the check of a target, with net.ParseIP (Ip),
--                      the script that runs a diagnostic (Script) and its quoting (Quote), the time
--                      it may take, and the status read from its output (Output, Lines).
--   SavedCommands      internal/domain/commands.go, internal/commands/service.go: the text and the
--                      preview of a command, the commands that are not kept (Safety), the history
--                      (History, Batch), the favorites (Favorites) and the suggestions (Suggestions,
--                      Builtins) over an interface for the store (Store). Its reads see the world that
--                      its last write left: what another goroutine writes between two calls of one
--                      request is not modelled.
--   SftpTransfer       internal/sftpmanager/manager_transfer.go: one transfer and its goroutine, as a
--                      relation of steps (Steps) between the calls of the user (Control).
--                      ResumeTransfer closes its channel in a step of its own, after its unlock.
--   RemotePath         internal/sftpmanager/path.go, manager_paths.go, manager_conflict.go,
--                      recursive_delete.go: paths on a server, their checks (Checks), what an upload
--                      does where its target exists (Conflict), the list of paths to delete
--                      (Deleting), the deletion of a directory (Erasing), and Delete (Deletion).
--
-- How they interact: the tracker classifies a stored failure with StatusForCode; Disconnect calls
-- BeginDisconnect of the tracker, stops every manager, and calls CompleteDisconnect; a manager may
-- report to the tracker at any point between and after.
--
-- Conventions. A method that locks a mutex from its start to its end is one step, so interleavings
-- of goroutines are sequences of such steps. A pointer to shared state is the state itself, which a
-- step takes and returns; an event that is emitted, a cancel function that is called and a session
-- that is closed are values in a list of effects. Times are arguments, and ids are too, where the
-- code draws them at random. A Go string with named constants is a data type with a constructor for
-- any other string. Loops are structural recursions, so no fuel is needed, but for the decimal
-- digits of a number, which get one round more than the number, and the deletion of a directory, which
-- needs more fuel than the directory is deep.
--
-- Assumed of Go: its int and int64 do not overflow where the code counts (failures, bytes, lines),
-- and errors form a chain, as the program wraps one error at a time. A SOCKS5 host is kept as the
-- bytes that came: the text that net.IP makes of them is not modelled.
--
-- Not modelled: goroutines that only move bytes or wait, logging, the SQL store, the platform's
-- secret stores, the bindings of the user interface, and the managers of SFTP sessions and files, services, processes,
-- Docker, settings and the key vault.
pub mod Common
pub mod Domain
pub mod ConnectionError
pub mod ConnectionState
pub mod ServerLifecycle
pub mod Keepalive
pub mod BatchCommand
pub mod Validation
pub mod Tunnel
pub mod NetworkDiag
pub mod SavedCommands
pub mod SftpTransfer
pub mod RemotePath
