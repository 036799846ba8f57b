-- ===== src/BatchCommand/Manager.antt =====
-- The manager's table of tasks. A task's id is random, so the code's test that the table still
-- holds this very runtime is a lookup of its id here.
use myapptest.Common.{
  ℤ, negsuc, int_eq, is_positive, nat_eq, list_eq, trim_space, Bool, false, ◌||◌, not, none, some,
  List, [], ◌∷◌, ◌++◌, map, if◌then◌else◌, Dict, lookup, insert, delete, Text, is_empty,
}
use myapptest.BatchCommand.{
  BatchCommandStatus, Instant, ServerResult, BatchCommandTask, StartRequest, is_active_status,
  normalize_start_request,
}
use myapptest.BatchCommand.Interactive.{is_interactive_command}
use myapptest.BatchCommand.Task.{TaskRuntime, Effect, result_by_server}
use myapptest.BatchCommand.Lifecycle.{cancel_server, cancel_task}

pub record Manager : Type 0 where
  pub is_initialized : Bool  -- `getConn`, `auth` and `dial` are set
  pub tasks : Dict Text TaskRuntime

pub data Error : Type 0 where
  empty_command interactive_command no_server not_initialized : Error
  ids_required server_not_found task_id_required task_not_found still_active : Error

pub data Result {ℓ} (A : Type ℓ) : Type ℓ where
  ok : A → Result A
  err : Error → Result A

unfoldable pub queued_result : Text → ℤ → ServerResult
queued_result task_id id = record {
  task_id = task_id;
  server_id = id;
  server_name = [];
  host = [];
  status = BatchCommandStatus.queued;
  exit_code = negsuc 0;
  stdout = [];
  stderr = [];
  started_at = none;
  completed_at = none;
  duration_ms = 0;
  error = [];
  output_truncated = false;
}

queued_task : Text → StartRequest → Instant → BatchCommandTask
unfolding queued_result
queued_task task_id r now = record {
  task_id = task_id;
  command = r.command;
  server_ids = r.server_ids;
  status = BatchCommandStatus.queued;
  created_at = some now;
  started_at = none;
  completed_at = none;
  concurrency = r.concurrency;
  timeout_seconds = r.timeout_seconds;
  results = map (queued_result task_id) r.server_ids;
}

unfoldable pub new_runtime : Text → StartRequest → Instant → TaskRuntime
unfolding queued_task
new_runtime task_id r now = record {
  task = queued_task task_id r now;
  server_cancels = [];
  sessions = [];
  outputs = λ _. record { bytes = 0; lines = 0; truncated = false };
  done = false;
}

-- `Start`, with the new id and the time. The servers' goroutines run on their own.
unfoldable pub start : Manager → Text → StartRequest → Instant → Manager × Result BatchCommandTask
start m task_id request now =
    let r = normalize_start_request request in
    let current = new_runtime task_id r now in
    if is_empty r.command
    then (m, Result.err Error.empty_command)
    else if is_interactive_command r.command
    then (m, Result.err Error.interactive_command)
    else elim (r.server_ids) [
      | [] ↦ (m, Result.err Error.no_server)
      | _ ∷ _ ↦
          if not m.is_initialized
          then (m, Result.err Error.not_initialized)
          else (record m { tasks = insert task_id current m.tasks }, Result.ok current.task)
    ]

-- Run a part of a method on the task, if the table has it.
unfoldable pub on_task :
    Manager → Text → (TaskRuntime → TaskRuntime × List Effect) → Manager × List Effect
on_task m task_id f = elim (lookup task_id m.tasks) [
  | none ↦ (m, [])
  | some t ↦ let (t', effects) = f t in (record m { tasks = insert task_id t' m.tasks }, effects)
]

-- `CancelServer`
unfoldable pub cancel_server_request : Manager → Text → ℤ → Instant → Manager × Result (List Effect)
unfolding on_task cancel_server result_by_server
cancel_server_request m task_id id now =
    let (m', effects) = on_task m task_id (λ t. cancel_server t id now) in
    if is_empty task_id || not (is_positive id)
    then (m, Result.err Error.ids_required)
    else elim (lookup task_id m.tasks) [
      | none ↦ (m, Result.err Error.server_not_found)
      | some t ↦ elim (result_by_server id t.task.results) [
        | none ↦ (m, Result.err Error.server_not_found)
        | some r ↦ if is_active_status r.status then (m', Result.ok effects) else (m, Result.ok [])
      ]
    ]

-- `CancelTask`
unfoldable pub cancel_task_request : Manager → Text → Instant → Manager × Result (List Effect)
unfolding on_task cancel_task
cancel_task_request m task_id now =
    let (m', effects) = on_task m task_id (λ t. cancel_task t now) in
    if is_empty task_id
    then (m, Result.err Error.task_id_required)
    else elim (lookup task_id m.tasks) [
      | none ↦ (m, Result.err Error.task_not_found)
      | some t ↦ (m', Result.ok effects)
    ]

-- `Get`
unfoldable pub get : Manager → Text → Result BatchCommandTask
get m task_id = elim (lookup (trim_space task_id) m.tasks) [
  | none ↦ Result.err Error.task_not_found
  | some t ↦ Result.ok t.task
]

-- `Clear`
unfoldable pub clear : Manager → Text → Manager × Result (Unit {0})
clear m given =
    let task_id = trim_space given in
    if is_empty task_id
    then (m, Result.err Error.task_id_required)
    else elim (lookup task_id m.tasks) [
      | none ↦ (m, Result.ok tt)
      | some t ↦
          if is_active_status t.task.status
          then (m, Result.err Error.still_active)
          else (record m { tasks = delete task_id m.tasks }, Result.ok tt)
    ]

-- Has the task an active result for the server?
unfoldable pub is_target : ℤ → TaskRuntime → Bool
unfolding result_by_server
is_target id t = elim (result_by_server id t.task.results) [
  | none ↦ false
  | some r ↦ is_active_status r.status
]

-- The loops of `StopServer` and `StopAll`, over the tasks in the order of the table.
unfoldable pub stop_each :
    (TaskRuntime → Bool)
    → (TaskRuntime → TaskRuntime × List Effect)
    → Dict Text TaskRuntime
    → Dict Text TaskRuntime × List Effect
stop_each test f [] = ([], [])
stop_each test f ((task_id, t) ∷ rest) =
    let (rest', later) = stop_each test f rest in
    let (t', effects) = f t in
    if test t then ((task_id, t') ∷ rest', effects ++ later) else ((task_id, t) ∷ rest', later)

-- `StopServer`
unfoldable pub stop_server : Manager → ℤ → Instant → Manager × List Effect
unfolding is_target stop_each cancel_server
stop_server m id now =
    let (tasks, effects) = stop_each (is_target id) (λ t. cancel_server t id now) m.tasks in
    if is_positive id then (record m { tasks = tasks }, effects) else (m, [])

-- `StopAll`, up to its wait for the tasks' ends.
unfoldable pub stop_all : Manager → Instant → Manager × List Effect
unfolding stop_each cancel_task
stop_all m now =
    let (tasks, effects) =
      stop_each (λ t. is_active_status t.task.status) (λ t. cancel_task t now) m.tasks in
    (record m { tasks = tasks }, effects)
