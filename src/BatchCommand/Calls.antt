-- ===== src/BatchCommand/Calls.antt =====
-- The methods that `runServer` and its helpers call on a task, with their guard
-- `m.tasks[current.task.TaskID] != current`: a task that is no longer in the table is not changed
-- and nothing is emitted for it. A runtime is known by its id, which `Start` draws for it alone.
use myapptest.Common.{ℕ, ℤ, Option, List, [], ◌∷◌, Text}
use myapptest.BatchCommand.{BatchCommandStatus, Instant}
use myapptest.BatchCommand.Task.{
  Stream, Effect, transition_server, finish_server, set_server_identity, append_output,
}
use myapptest.BatchCommand.Lifecycle.{
  set_server_cancel, set_session, close_session, clear_server_runtime, cancel_server, cancel_task,
  finish_task,
}
use myapptest.BatchCommand.Manager.{Manager, on_task, clear}
use myapptest.BatchCommand.Events.{Event}

unfoldable pub transition_in :
    Manager → Text → ℤ → BatchCommandStatus → Option Instant → Instant → Manager × List Effect
unfolding on_task
transition_in m task id status start now =
    on_task m task
      (λ t. let (t', effects, _) = transition_server t id status start now in (t', effects))

unfoldable pub finish_in :
    Manager → Text → ℤ → BatchCommandStatus → ℤ → Text → Instant → Manager × List Effect
unfolding on_task
finish_in m task id status code message now =
    on_task m task (λ t. finish_server t id status code message now)

unfoldable pub identity_in : Manager → Text → ℤ → Text → Text → ℤ → Instant → Manager × List Effect
unfolding on_task
identity_in m task id name host port now =
    on_task m task (λ t. set_server_identity t id name host port now)

unfoldable pub output_in : Manager → Text → ℤ → Stream → List ℕ → Manager × List Effect
unfolding on_task
output_in m task id stream chunk = on_task m task (λ t. append_output t id stream chunk)

unfoldable pub register_cancel_in : Manager → Text → ℤ → ℕ → Manager × List Effect
unfolding on_task
register_cancel_in m task id cancel = on_task m task (λ t. (set_server_cancel t id cancel, []))

unfoldable pub register_session_in : Manager → Text → ℤ → ℕ → Manager × List Effect
unfolding on_task
register_session_in m task id session = on_task m task (λ t. (set_session t id session, []))

unfoldable pub cancel_in : Manager → Text → ℤ → Instant → Manager × List Effect
unfolding on_task
cancel_in m task id now = on_task m task (λ t. cancel_server t id now)

unfoldable pub cancel_all_in : Manager → Text → Instant → Manager × List Effect
unfolding on_task
cancel_all_in m task now = on_task m task (λ t. cancel_task t now)

unfoldable pub finish_all_in : Manager → Text → Instant → Manager × List Effect
unfolding on_task
finish_all_in m task now = on_task m task (λ t. finish_task t now)

-- A call on a task; the two that drop handles have no guard in the code.
unfoldable pub call : Manager → Text → Event → Instant → Manager × List Effect
unfolding transition_in finish_in identity_in output_in register_cancel_in register_session_in
    cancel_in cancel_all_in finish_all_in on_task
call m task (Event.transition id status start) now = transition_in m task id status start now
call m task (Event.finish id status code message) now = finish_in m task id status code message now
call m task (Event.identity id name host port) now = identity_in m task id name host port now
call m task (Event.output id stream chunk) now = output_in m task id stream chunk
call m task (Event.register_cancel id handle) now = register_cancel_in m task id handle
call m task (Event.register_session id handle) now = register_session_in m task id handle
call m task (Event.drop_session id) now = on_task m task (λ t. close_session t id)
call m task (Event.drop_runtime id) now = on_task m task (λ t. clear_server_runtime t id)
call m task (Event.cancel id) now = cancel_in m task id now
call m task Event.cancel_all now = cancel_all_in m task now
call m task Event.finish_all now = finish_all_in m task now

-- What happens to the table: a call on a task, or a task that the user clears.
pub data Action : Type 0 where
  on : Text → Event → Instant → Action
  cleared : Text → Action

unfoldable pub act : Manager → Action → Manager
unfolding call
act m (Action.on task e now) = (call m task e now).0
act m (Action.cleared given) = (clear m given).0

unfoldable pub act_all : Manager → List Action → Manager
unfolding act
act_all m [] = m
act_all m (a ∷ actions) = act_all (act m a) actions
