-- ===== src/BatchCommand/Lifecycle.antt =====
-- The sessions, the cancellation and the end of a running task.
use myapptest.Common.{
  ℕ, suc, ℤ, int_eq, Bool, true, false, ltb, nat_beq, Option, none, some, List, [], ◌∷◌, ◌++◌, map,
  if◌then◌else◌, length, any, lookup, insert, delete,
}
use myapptest.BatchCommand.{BatchCommandStatus, Instant, ServerResult, is_active_status}
use myapptest.BatchCommand.Task.{TaskRuntime, Effect, result_by_server, set_result}

abbrev pub same_status : BatchCommandStatus → BatchCommandStatus → Bool
same_status BatchCommandStatus.queued BatchCommandStatus.queued = true
same_status BatchCommandStatus.connecting BatchCommandStatus.connecting = true
same_status BatchCommandStatus.running BatchCommandStatus.running = true
same_status BatchCommandStatus.completed BatchCommandStatus.completed = true
same_status BatchCommandStatus.failed BatchCommandStatus.failed = true
same_status BatchCommandStatus.canceled BatchCommandStatus.canceled = true
same_status BatchCommandStatus.timeout BatchCommandStatus.timeout = true
same_status _ _ = false

-- `counts[status]`
unfoldable pub count_status : BatchCommandStatus → List ServerResult → ℕ
count_status status [] = 0
count_status status (r ∷ rs) =
    let rest = count_status status rs in if same_status r.status status then suc rest else rest

-- `aggregateStatus`: the loop returns at the first active result.
unfoldable pub aggregate_status : List ServerResult → BatchCommandStatus
unfolding count_status
aggregate_status [] = BatchCommandStatus.completed
aggregate_status (r ∷ rs) =
    let all = r ∷ rs in
    if any (λ (s : ServerResult). is_active_status s.status) all
    then BatchCommandStatus.running
    else if nat_beq (count_status BatchCommandStatus.completed all) (length all)
    then BatchCommandStatus.completed
    else if nat_beq (count_status BatchCommandStatus.canceled all) (length all)
    then BatchCommandStatus.canceled
    else if ltb 0 (count_status BatchCommandStatus.timeout all)
    then BatchCommandStatus.timeout
    else if ltb 0 (count_status BatchCommandStatus.failed all)
    then BatchCommandStatus.failed
    else BatchCommandStatus.canceled

-- `setServerCancel`
unfoldable pub set_server_cancel : TaskRuntime → ℤ → ℕ → TaskRuntime
set_server_cancel t id cancel = record t { server_cancels = insert id cancel t.server_cancels }

-- `setSession`
unfoldable pub set_session : TaskRuntime → ℤ → ℕ → TaskRuntime
set_session t id session = record t { sessions = insert id session t.sessions }

abbrev on_some : Option ℕ → (ℕ → Effect) → List Effect
on_some none f = []
on_some (some x) f = f x ∷ []

-- `closeSession`
unfoldable pub close_session : TaskRuntime → ℤ → TaskRuntime × List Effect
close_session t id = (
  record t { sessions = delete id t.sessions },
  on_some (lookup id t.sessions) Effect.close_session,
)

-- `clearServerRuntime`
unfoldable pub clear_server_runtime : TaskRuntime → ℤ → TaskRuntime × List Effect
clear_server_runtime t id = (
  record t { server_cancels = delete id t.server_cancels; sessions = delete id t.sessions },
  on_some (lookup id t.sessions) Effect.close_session,
)

abbrev pub canceled_result : ServerResult → Instant → ServerResult
canceled_result r now = record r { status = BatchCommandStatus.canceled; completed_at = some now }

-- The new results of `cancelServer`, with the event that it emits at the end.
unfoldable pub cancel_result : List ServerResult → ℤ → Instant → List ServerResult × List Effect
unfolding result_by_server set_result
cancel_result results id now = elim (result_by_server id results) [
  | none ↦ (results, [])
  | some r ↦
      let r' = canceled_result r now in
      if is_active_status r.status
      then (set_result id r' results, Effect.state_event id now r' ∷ [])
      else (results, [])
]

-- `cancelServer`
unfoldable pub cancel_server : TaskRuntime → ℤ → Instant → TaskRuntime × List Effect
unfolding cancel_result
cancel_server t id now =
    let (results, event) = cancel_result t.task.results id now in
    (
      record t { task = record (t.task) { results = results } },
      on_some (lookup id t.server_cancels) Effect.cancel
          ++ on_some (lookup id t.sessions) Effect.close_session
          ++ event,
    )

-- `cancelServer` for each of the servers, in order.
unfoldable pub cancel_servers : TaskRuntime → List ℤ → Instant → TaskRuntime × List Effect
cancel_servers t [] now = (t, [])
cancel_servers t (id ∷ ids) now =
    let (t1, effects) = cancel_server t id now in
    let (t2, later) = cancel_servers t1 ids now in (t2, effects ++ later)

-- `cancelTask`
unfoldable pub cancel_task : TaskRuntime → Instant → TaskRuntime × List Effect
unfolding cancel_servers
cancel_task t now =
    let (t', effects) = cancel_servers t t.task.server_ids now in
    (
      t',
      Effect.cancel_task ∷ map (λ (e : ℤ × ℕ). Effect.cancel e.1) t.server_cancels
          ++ map (λ (e : ℤ × ℕ). Effect.close_session e.1) t.sessions
          ++ effects,
    )

-- `finishTask`
unfoldable pub finish_task : TaskRuntime → Instant → TaskRuntime × List Effect
unfolding aggregate_status
finish_task t now =
    let task = record (t.task) {
      completed_at = some now;
      status = aggregate_status t.task.results;
    } in
    (record t { task = task; done = true }, Effect.completed_event (some now) task ∷ [])
