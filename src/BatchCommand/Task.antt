-- ===== src/BatchCommand/Task.antt =====
-- What happens to one running task (`taskRuntime`). Each function is the part of a method of the
-- manager that runs under its lock once the task is known to be in the table; it returns the new
-- runtime with what the method does outside the lock, in order.
use myapptest.Common.{
  ℕ, ◌+◌, ◌-◌, ◌/◌, ◌*◌, ltb, ℤ, int_eq, Bool, true, false, ◌||◌, not, Option, none, some, List, [],
  ◌∷◌, ◌++◌, ◌==◌, if◌then◌else◌, length, Dict, put, Text, codes, decimal, utf8, ends_with,
  count_of, is_empty,
}
use myapptest.BatchCommand.{
  BatchCommandStatus, Instant, ServerResult, BatchCommandTask, is_active_status,
}

-- `outputState`
pub record OutputState : Type 0 where
  pub bytes : ℕ
  pub lines : ℕ
  pub truncated : Bool

-- The runtime of a task. A session or a cancel function is a number that stands for it.
pub record TaskRuntime : Type 0 where
  pub task : BatchCommandTask
  pub server_cancels : Dict ℤ ℕ
  pub sessions : Dict ℤ ℕ
  pub outputs : ℤ → OutputState
  pub done : Bool  -- `done` is closed

pub data Stream : Type 0 where
  stdout stderr : Stream

pub data Effect : Type 0 where
  state_event : ℤ → Instant → ServerResult → Effect
  output_event : ℤ → Stream → List ℕ → Effect
  completed_event : Option Instant → BatchCommandTask → Effect
  cancel_task : Effect
  cancel : ℕ → Effect
  close_session : ℕ → Effect

-- `resultByServer`, over `resultIndex`: the first result of the server.
unfoldable pub result_by_server : ℤ → List ServerResult → Option ServerResult
result_by_server id [] = none
result_by_server id (r ∷ rs) =
    let later = result_by_server id rs in if r.server_id == id then some r else later

-- `Results[index] = r`, at the first result of the server.
unfoldable pub set_result : ℤ → ServerResult → List ServerResult → List ServerResult
set_result id new [] = []
set_result id new (r ∷ rs) =
    let later = r ∷ set_result id new rs in if r.server_id == id then new ∷ rs else later

with_result : TaskRuntime → ℤ → ServerResult → TaskRuntime
with_result t id r = record t {
  task = record (t.task) { results = set_result id r t.task.results };
}

-- The task's own status, when the first server leaves the queue.
abbrev is_queued : BatchCommandStatus → Bool
is_queued BatchCommandStatus.queued = true
is_queued _ = false

abbrev started : BatchCommandTask → Instant → BatchCommandTask
started task now = record task {
  status = if is_queued task.status then BatchCommandStatus.running else task.status;
  started_at = if is_queued task.status then some now else task.started_at;
}

abbrev pub started_result : ServerResult → BatchCommandStatus → Option Instant → ServerResult
started_result r status (some start) = record r { status = status; started_at = some start }
started_result r status none = record r { status = status }

-- `transitionServer`
unfoldable pub transition_server :
    TaskRuntime
    → ℤ
    → BatchCommandStatus
    → Option Instant
    → Instant
    → TaskRuntime × List Effect × Bool
unfolding result_by_server with_result set_result
transition_server t id status start now = elim (result_by_server id t.task.results) [
  | none ↦ (t, [], false)
  | some r ↦
      let r' = started_result r status start in
      if is_active_status r.status
      then (
        with_result (record t { task = started t.task now }) id r',
        Effect.state_event id now r' ∷ [],
        true,
      )
      else (t, [], false)
]

-- `maxInt64(duration.Milliseconds(), 0)` between two instants, 0 where there is no start.
abbrev duration_of : Option Instant → Instant → ℕ
duration_of none finish = 0
duration_of (some start) finish = (finish - start) / 1000000

abbrev finished_result : ServerResult → BatchCommandStatus → ℤ → Text → Instant → ServerResult
finished_result r status exit_code message finish = record r {
  status = status;
  exit_code = exit_code;
  completed_at = some finish;
  duration_ms = duration_of r.started_at finish;
  error = message;
}

-- `finishServer`; its callers leave `finishedAt` zero, so it is the time of the call.
unfoldable pub finish_server :
    TaskRuntime → ℤ → BatchCommandStatus → ℤ → Text → Instant → TaskRuntime × List Effect
unfolding result_by_server with_result set_result
finish_server t id status exit_code message now = elim (result_by_server id t.task.results) [
  | none ↦ (t, [])
  | some r ↦
      let r' = finished_result r status exit_code message now in
      if is_active_status r.status
      then (with_result t id r', Effect.state_event id now r' ∷ [])
      else (t, [])
]

-- `setServerIdentity`, with the connection's name, host and port.
unfoldable pub set_server_identity :
    TaskRuntime → ℤ → Text → Text → ℤ → Instant → TaskRuntime × List Effect
unfolding result_by_server with_result set_result
set_server_identity t id name host port now = elim (result_by_server id t.task.results) [
  | none ↦ (t, [])
  | some r ↦
      let r' = record r { server_name = name; host = host ++ b':' ∷ decimal port } in
      (with_result t id r', Effect.state_event id now r' ∷ [])
]

abbrev pub output_limit_bytes : ℕ
output_limit_bytes = 1024 * 1024

abbrev pub output_limit_lines : ℕ
output_limit_lines = 5000

-- `outputTruncatedNotice + "\n"`
unfoldable pub truncated_notice : List ℕ
unfolding utf8
truncated_notice = utf8 (codes "输出过多，已截断。") ++ 10 ∷ []

abbrev pub append_result_output : ServerResult → Stream → List ℕ → ServerResult
append_result_output r Stream.stderr chunk = record r { stderr = r.stderr ++ chunk }
append_result_output r Stream.stdout chunk = record r { stdout = r.stdout ++ chunk }

abbrev pub is_running : BatchCommandStatus → Bool
is_running BatchCommandStatus.running = true
is_running _ = false

-- The lines that a chunk adds: its line ends, and one more if it does not end with one.
unfoldable pub chunk_lines : List ℕ → ℕ
unfolding count_of
chunk_lines chunk = if ends_with 10 chunk then count_of 10 chunk else count_of 10 chunk + 1

-- `appendOutput` once the result is known.
unfoldable pub append_to :
    TaskRuntime → ℤ → ServerResult → Stream → List ℕ → TaskRuntime × List Effect
unfolding with_result set_result
append_to t id r stream chunk =
    let state = t.outputs id in
    let bytes = state.bytes + length chunk in
    let lines = state.lines + chunk_lines chunk in
    let full = record (append_result_output r stream truncated_notice) {
      output_truncated = true;
    } in
    if state.truncated
    then (t, [])
    else if ltb output_limit_bytes bytes || ltb output_limit_lines lines
    then (
      with_result (record t { outputs = put id (record state { truncated = true }) t.outputs }) id
          full,
      Effect.output_event id stream truncated_notice ∷ [],
    )
    else (
      with_result
          (record t { outputs = put id (record state { bytes = bytes; lines = lines }) t.outputs })
          id (append_result_output r stream chunk),
      Effect.output_event id stream chunk ∷ [],
    )

-- `appendOutput`
unfoldable pub append_output : TaskRuntime → ℤ → Stream → List ℕ → TaskRuntime × List Effect
unfolding result_by_server with_result set_result append_to
append_output t id stream chunk = elim (result_by_server id t.task.results) [
  | none ↦ (t, [])
  | some r ↦
      if is_empty chunk || not (is_running r.status) then (t, []) else append_to t id r stream chunk
]
