-- ===== src/BatchCommand/Tests.antt =====
-- Runs of a batch command, and the theorems at concrete inputs.
use myapptest.Common.{
  ◌⊎◌, ◌+◌, ◌≤◌, ℤ, int_eq, true, false, none, some, List, [], ◌∷◌, ◌≡◌, refl, length, codes,
  nat_eq, list_eq, lookup, trim_space,
}
use myapptest.BatchCommand.{
  BatchCommandStatus, BatchCommandTask, Instant, ServerResult, StartRequest,
  normalize_start_request,
}
use myapptest.BatchCommand.Interactive.{is_interactive_command}
use myapptest.BatchCommand.Task.{
  TaskRuntime, Stream, result_by_server, transition_server, finish_server, append_output,
  output_limit_bytes, truncated_notice, chunk_lines,
}
use myapptest.BatchCommand.Lifecycle.{aggregate_status, cancel_task}
use myapptest.BatchCommand.Manager.{Manager, Error, Result, new_runtime, queued_result, start}
use myapptest.BatchCommand.Aggregate.{aggregate_status-worst}
use myapptest.BatchCommand.Events.{Event, step, run}
use myapptest.BatchCommand.Calls.{Action, act_all}
use myapptest.BatchCommand.Whole.{act_all-final}
use myapptest.BatchCommand.Output.{output_bounded}
use myapptest.BatchCommand.Cancel.{IsDone, cancel_task-IsDone}
use myapptest.BatchCommand.Starting.{IsStarted, start_lem}

abbrev request : StartRequest
request = record {
  command = codes " uptime ";
  server_ids = ℤ.pos 7 ∷ ℤ.negsuc 1 ∷ ℤ.pos 8 ∷ ℤ.pos 7 ∷ [];
  timeout_seconds = ℤ.pos 4;
  concurrency = ℤ.pos 50;
}

abbrev two_servers : StartRequest
two_servers = record {
  command = codes "uptime";
  server_ids = ℤ.pos 7 ∷ ℤ.pos 8 ∷ [];
  timeout_seconds = ℤ.pos 5;
  concurrency = ℤ.pos 10;
}

normalized : normalize_start_request request ≡ two_servers
unfolding normalize_start_request trim_space
normalized = refl

interactive_commands :
    (is_interactive_command (codes "uptime; VIM /etc/hosts") ≡ true)
    × (is_interactive_command (codes "tail  -f log") ≡ true)
    × (is_interactive_command (codes " bash ") ≡ true)
    × (is_interactive_command (codes "sudo reboot") ≡ true)
    × (is_interactive_command (codes "sudo -n reboot") ≡ false)
    × (is_interactive_command (codes "vimdiff a b") ≡ false)
    × (is_interactive_command (codes "uptime") ≡ false)
unfolding is_interactive_command
interactive_commands = (refl, refl, refl, refl, refl, refl, refl)

abbrev fresh : TaskRuntime
fresh = new_runtime (codes "t") two_servers 1000

abbrev calls : List (Event × Instant)
calls =
    (Event.transition (ℤ.pos 7) BatchCommandStatus.running (some 5000000), 5000000)
    ∷ (Event.output (ℤ.pos 7) Stream.stdout (codes "up"), 6000000)
    ∷ (Event.finish (ℤ.pos 7) BatchCommandStatus.completed (ℤ.pos 0) [], 9000000)
    ∷ []

abbrev server_7 : ServerResult
server_7 = record {
  task_id = codes "t";
  server_id = ℤ.pos 7;
  server_name = [];
  host = [];
  status = BatchCommandStatus.completed;
  exit_code = ℤ.pos 0;
  stdout = codes "up";
  stderr = [];
  started_at = some 5000000;
  completed_at = some 9000000;
  duration_ms = 4;
  error = [];
  output_truncated = false;
}

ran : result_by_server (ℤ.pos 7) (run fresh calls).task.results ≡ some server_7
unfolding run step new_runtime queued_result transition_server finish_server append_output
    chunk_lines
ran = refl

abbrev late_calls : List (Event × Instant)
late_calls =
    (Event.cancel (ℤ.pos 7), 10000000)
    ∷ (Event.output (ℤ.pos 7) Stream.stderr (codes "late"), 11000000)
    ∷ []

-- The task `t` after its server 7 has finished, which is then canceled and cleared.
abbrev finished_table : Manager
finished_table = record { is_initialized = true; tasks = (codes "t", run fresh calls) ∷ [] }

abbrev later_actions : List Action
later_actions =
    Action.on (codes "t") (Event.cancel (ℤ.pos 7)) 10000000
    ∷ Action.on (codes "u") Event.finish_all 11000000
    ∷ Action.cleared (codes "t")
    ∷ []

act_all-final_example :
    (lookup (codes "t") (act_all finished_table later_actions).tasks ≡ none)
    ⊎ ((t' : TaskRuntime) × (r' : ServerResult) × (lookup
            (codes "t")
            (act_all finished_table later_actions).tasks
          ≡ some t')
        × (result_by_server (ℤ.pos 7) t'.task.results ≡ some r')
        × (r' ≡ record server_7 { server_name = r'.server_name; host = r'.host }))
unfolding lookup
act_all-final_example =
    act_all-final finished_table later_actions (codes "t") (run fresh calls) (ℤ.pos 7) server_7 refl
      ran refl

output_bounded_example :
    (length (codes "up") + 0 ≤ output_limit_bytes + length truncated_notice)
    × (false ≡ false → length (codes "up") + 0 ≤ output_limit_bytes)
output_bounded_example = output_bounded (codes "t") two_servers 1000 calls (ℤ.pos 7) server_7 ran

cancel_task-IsDone_example :
    IsDone (ℤ.pos 8) (run (cancel_task fresh 2000).0 late_calls).task.results
unfolding new_runtime
cancel_task-IsDone_example = cancel_task-IsDone fresh 2000 late_calls (ℤ.pos 8) refl

aggregate_status-worst_example :
    aggregate_status (server_7 ∷ record server_7 { status = BatchCommandStatus.canceled } ∷ [])
    ≡ BatchCommandStatus.canceled
aggregate_status-worst_example =
    aggregate_status-worst
      (server_7 ∷ record server_7 { status = BatchCommandStatus.canceled } ∷ [])

abbrev table : Manager
table = record { is_initialized = true; tasks = (codes "t", fresh) ∷ [] }

start_lem_example :
    let (m', result) = start table (codes "u") request 4000 in
    ((task : BatchCommandTask) → result ≡ Result.ok task → IsStarted m' (codes "u") task)
    × ((e : Error) → result ≡ Result.err e → m' ≡ table)
start_lem_example = start_lem table (codes "u") request 4000
