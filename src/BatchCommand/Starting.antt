-- ===== src/BatchCommand/Starting.antt =====
-- Which requests start a task, and what the started task is.
use myapptest.Common.{
  ℤ, int_eq, false, some, List, [], ◌∷◌, ◌≡◌, ◌≢◌, refl, sym, ap, arith, Text, nat_eq, list_eq,
  ==_self, is_empty, lookup, insert, lookup-insert, map,
}
use mathlib.Core.Path.{subst₂}
use myapptest.BatchCommand.{
  BatchCommandTask, BatchCommandStatus, Instant, ServerResult, StartRequest,
  normalize_start_request,
}
use myapptest.BatchCommand.Interactive.{is_interactive_command}
use myapptest.BatchCommand.Requests.{IsUnique, unique_positive_server_ids_lem}
use myapptest.BatchCommand.Task.{TaskRuntime}
use myapptest.BatchCommand.Manager.{Manager, Error, Result, queued_result, new_runtime, start}

abbrev pub servers_of : List ServerResult → List ℤ
servers_of = map (λ (r : ServerResult). r.server_id)

queued-servers :
    (task_id : Text) (ids : List ℤ) → servers_of (map (queued_result task_id) ids) ≡ ids
unfolding queued_result
queued-servers task_id [] = refl
queued-servers task_id (id ∷ ids) = ap (λ rest. id ∷ rest) (queued-servers task_id ids)

request_servers-IsUnique : (r : StartRequest) → IsUnique (normalize_start_request r).server_ids
unfolding normalize_start_request
request_servers-IsUnique r = (unique_positive_server_ids_lem r.server_ids).0

-- What a started task promises.
pub record IsStarted (m : Manager) (task_id : Text) (task : BatchCommandTask) : Type 0 where
  pub has_command : is_empty task.command ≡ false
  pub not_interactive : is_interactive_command task.command ≡ false
  pub has_servers : task.server_ids ≢ []
  pub servers_unique : IsUnique task.server_ids
  pub a_result_each : servers_of task.results ≡ task.server_ids
  pub is_queued : task.status ≡ BatchCommandStatus.queued
  pub in_table : (t : TaskRuntime) × (lookup task_id m.tasks ≡ some t) × (t.task ≡ task)

-- The tests that an accepted request has passed, and the state behind it.
start_accepted :
    (m : Manager) (task_id : Text) (request : StartRequest) (now : Instant)
    (task : BatchCommandTask)
    → (start m task_id request now).1 ≡ Result.ok task
    → let r = normalize_start_request request in
      let current = new_runtime task_id r now in
      (is_empty r.command ≡ false)
      × (is_interactive_command r.command ≡ false)
      × (r.server_ids ≢ [])
      × (current.task ≡ task)
      × ((start m task_id request now).0 ≡ record m { tasks = insert task_id current m.tasks })
unfolding start
start_accepted m task_id request now task h =
    (ground arith, ground arith, ground arith, ground arith, ground arith)

new_runtime-IsStarted :
    (m : Manager) (task_id : Text) (request : StartRequest) (now : Instant)
    → let r = normalize_start_request request in
      let current = new_runtime task_id r now in
      is_empty r.command ≡ false
      → is_interactive_command r.command ≡ false
      → r.server_ids ≢ []
      → IsStarted (record m { tasks = insert task_id current m.tasks }) task_id current.task
unfolding new_runtime
new_runtime-IsStarted m task_id request now given plain some_server = record {
  has_command = given;
  not_interactive = plain;
  has_servers = some_server;
  servers_unique = request_servers-IsUnique request;
  a_result_each = queued-servers task_id (normalize_start_request request).server_ids;
  is_queued = refl;
  in_table = (
    new_runtime task_id (normalize_start_request request) now,
    rw
        (
          lookup-insert m.tasks task_id task_id
              (new_runtime task_id (normalize_start_request request) now),
          ==_self task_id,
        )
        refl,
    refl,
  );
}

-- A request starts a task only with a command that needs no terminal and at least one server; the
-- task is queued and in the table, with one result for each of its servers, no server twice. A
-- refused request changes nothing.
pub start_lem :
    (m : Manager) (task_id : Text) (request : StartRequest) (now : Instant)
    → let (m', result) = start m task_id request now in
      ((task : BatchCommandTask) → result ≡ Result.ok task → IsStarted m' task_id task)
      × ((e : Error) → result ≡ Result.err e → m' ≡ m)
unfolding start
start_lem m task_id request now = (
  λ task h.
      (let (given, plain, some_server, same, state) = start_accepted m task_id request now task h in
        subst₂ (λ m' t. IsStarted m' task_id t) (sym state) same
          (new_runtime-IsStarted m task_id request now given plain some_server)),
  λ e h. ground arith,
)
