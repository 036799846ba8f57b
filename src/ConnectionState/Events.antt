-- ===== src/ConnectionState/Events.antt =====
-- The calls that the application makes of the tracker, as one type, and runs of them.
use myapptest.Common.{ℤ, String, Bool, true, false, Option, List, [], ◌∷◌}
use myapptest.Domain.{ConnectionError, ConnectionRuntimeState}
use myapptest.ConnectionState.{
  Tracker, MonitorSnapshot, SftpState, TerminalStatus, update_monitor, update_terminal, update_sftp,
  record_failure, begin_connect, begin_disconnect, complete_disconnect, remove,
}

pub data Event : Type 0 where
  monitor : MonitorSnapshot → Event
  terminal : String → ℤ → TerminalStatus → Option ConnectionError → Event
  sftp : SftpState → Event
  failure : ℤ → ConnectionError → Event
  connecting : ℤ → Event
  disconnecting : ℤ → Event
  disconnected : ℤ → Event
  removed : ℤ → Event

-- The connection that a call is about.
abbrev pub subject : Event → ℤ
subject (monitor s) = s.connection_id
subject (terminal session id status err) = id
subject (sftp s) = s.connection_id
subject (failure id err) = id
subject (connecting id) = id
subject (disconnecting id) = id
subject (disconnected id) = id
subject (removed id) = id

-- A report of a worker, which a blocked connection ignores; the other calls are the application's.
abbrev pub is_report : Event → Bool
is_report (monitor s) = true
is_report (terminal session id status err) = true
is_report (sftp s) = true
is_report (failure id err) = true
is_report _ = false

unfoldable pub step : Tracker → Event → String → Tracker × List ConnectionRuntimeState
unfolding update_monitor update_terminal update_sftp record_failure begin_connect begin_disconnect
    complete_disconnect remove
step t (monitor s) now = update_monitor t s now
step t (terminal session id status err) now = update_terminal t session id status err now
step t (sftp s) now = update_sftp t s now
step t (failure id err) now = record_failure t id err now
step t (connecting id) now = (begin_connect t id, [])
step t (disconnecting id) now = begin_disconnect t id now
step t (disconnected id) now = complete_disconnect t id now
step t (removed id) now = remove t id now

-- Calls in order, each with its time.
unfoldable pub run : Tracker → List (Event × String) → Tracker
run t [] = t
run t ((e, now) ∷ es) = run (step t e now).0 es
