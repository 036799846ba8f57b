-- ===== src/BatchCommand/Events.antt =====
-- internal/batchcommand/manager.go: the methods on one task, in sequences.
use myapptest.Common.{ℕ, ℤ, Bool, true, false, Option, List, [], ◌∷◌, Text}
use myapptest.BatchCommand.{BatchCommandStatus, Instant, ServerResult}
use myapptest.BatchCommand.Task.{
  TaskRuntime, Stream, transition_server, finish_server, set_server_identity, append_output,
}
use myapptest.BatchCommand.Lifecycle.{
  set_server_cancel, set_session, close_session, clear_server_runtime, cancel_server, cancel_task,
  finish_task,
}

-- Everything that the manager does to a task after its start.
pub data Event : Type 0 where
  transition : ℤ → BatchCommandStatus → Option Instant → Event
  finish : ℤ → BatchCommandStatus → ℤ → Text → Event
  identity : ℤ → Text → Text → ℤ → Event
  output : ℤ → Stream → List ℕ → Event
  register_cancel : ℤ → ℕ → Event
  register_session : ℤ → ℕ → Event
  drop_session : ℤ → Event
  drop_runtime : ℤ → Event
  cancel : ℤ → Event
  cancel_all : Event
  finish_all : Event

unfoldable pub step : TaskRuntime → Event → Instant → TaskRuntime
step t (Event.transition id status start) now = (transition_server t id status start now).0
step t (Event.finish id status code message) now = (finish_server t id status code message now).0
step t (Event.identity id name host port) now = (set_server_identity t id name host port now).0
step t (Event.output id stream chunk) now = (append_output t id stream chunk).0
step t (Event.register_cancel id handle) now = set_server_cancel t id handle
step t (Event.register_session id handle) now = set_session t id handle
step t (Event.drop_session id) now = (close_session t id).0
step t (Event.drop_runtime id) now = (clear_server_runtime t id).0
step t (Event.cancel id) now = (cancel_server t id now).0
step t Event.cancel_all now = (cancel_task t now).0
step t Event.finish_all now = (finish_task t now).0

unfoldable pub run : TaskRuntime → List (Event × Instant) → TaskRuntime
run t [] = t
run t ((e, now) ∷ es) = run (step t e now) es

abbrev pub results_of : TaskRuntime → List ServerResult
results_of t = t.task.results

-- Does the call add output?
abbrev pub is_output : Event → Bool
is_output (Event.output id stream chunk) = true
is_output _ = false
