-- ===== src/BatchCommand/Cancel.antt =====
-- What a cancelled task is, and which tasks the table gives up.
use myapptest.Common.{
  ℤ, int_eq, int_beq_iff, true, false, none, some, List, [], ◌∷◌, ◌≡◌, ◌≢◌, refl, sym, ◌∙◌, ap,
  arith, ==_self, is_positive, some_inj, ◌⊎◌, Option-cases, Bool-cases, inl, inr, ◌==◌,
  if◌then◌else◌, Text, nat_eq, list_eq, list_beq_iff, trim_space, lookup, lookup-delete, All,
}
use mathlib.Core.Path.{subst}
use myapptest.BatchCommand.{Instant, ServerResult, is_active_status}
use myapptest.BatchCommand.Task.{TaskRuntime, result_by_server, set_result}
use myapptest.BatchCommand.Lifecycle.{
  cancel_result, cancel_server, canceled_result, cancel_servers, cancel_task,
}
use myapptest.BatchCommand.Results.{
  Kept, KeptAll, evolving, found_server, result_by_server-set_result,
}
use myapptest.BatchCommand.Events.{results_of, Event, run, step}
use myapptest.BatchCommand.Frozen.{step-KeptAll, run-KeptAll}
use myapptest.BatchCommand.Requests.{has_id}
use myapptest.BatchCommand.Manager.{
  Manager, Error, Result, clear, is_target, stop_each, stop_server,
}

-- The server has no active result.
abbrev pub IsDone : ℤ → List ServerResult → Type 0
IsDone id rs =
    (r : ServerResult) → result_by_server id rs ≡ some r → is_active_status r.status ≡ false

set_result_self :
    (id : ℤ) (r new : ServerResult) (rs : List ServerResult)
    → result_by_server id rs ≡ some r
    → new.server_id ≡ r.server_id
    → result_by_server id (set_result id new rs) ≡ some new
set_result_self id r new rs found e =
    rw
      (result_by_server-set_result id id new rs (e ∙ found_server id rs r found), found, ==_self id)

cancel_result-IsDone :
    (rs : List ServerResult) (id : ℤ) (now : Instant) → IsDone id (cancel_result rs id now).0
unfolding cancel_result
cancel_result-IsDone rs id now = elim (Option-cases (result_by_server id rs)) [
  | inl e ↦ rw (e, cancel_result) (λ r h. cc (e, h))
  | inr (s, e) ↦
      rw (e, cancel_result)
        (elim (Bool-cases (is_active_status s.status)) [
          | inl a ↦ rw a (λ r h. cc (set_result_self id s (canceled_result s now) rs e refl, h))
          | inr b ↦ rw b (λ r h. cc (e, h, b))
        ])
]

Kept-IsDone :
    (id : ℤ) (rs rs' : List ServerResult) → KeptAll evolving rs rs' → IsDone id rs → IsDone id rs'
Kept-IsDone id rs rs' kept done r h = elim (Option-cases (result_by_server id rs)) [
  | inl e ↦ cc (subst (λ o. Kept evolving o (result_by_server id rs')) e (kept id), h)
  | inr (s, e) ↦
      let (r', found, v) = subst (λ o. Kept evolving o (result_by_server id rs')) e (kept id) in
      let final = v.final (done s e) in
      ap (λ x. is_active_status x.status) (some_inj (sym h ∙ found) ∙ final) ∙ done s e
]

cancel_servers-IsDone :
    (t : TaskRuntime) (ids : List ℤ) (now : Instant) (id : ℤ)
    → (has_id id ids ≡ true) ⊎ IsDone id (results_of t)
    → IsDone id (results_of (cancel_servers t ids now).0)
unfolding cancel_servers cancel_server step
cancel_servers-IsDone t [] now id (inl h) = cc
cancel_servers-IsDone t [] now id (inr done) = done
cancel_servers-IsDone t (i ∷ ids) now id h =
    let u = (cancel_server t i now).0 in
    cancel_servers-IsDone u ids now id (elim (Bool-cases (i == id)) [
      | inl same ↦ inr (
          subst (λ k. IsDone k (cancel_result t.task.results i now).0) ((int_beq_iff i id).0 same)
            (cancel_result-IsDone t.task.results i now))
      | inr distinct ↦ elim h [
        | inl listed ↦ inl (ground arith)
        | inr done ↦
            inr (Kept-IsDone id (results_of t) _ (step-KeptAll t (Event.cancel i) now) done)
      ]
    ])

-- After a task is cancelled none of its servers has an active result, and none ever has again,
-- whatever the servers' goroutines still do.
pub cancel_task-IsDone :
    (t : TaskRuntime) (now : Instant) (es : List (Event × Instant)) (id : ℤ)
    → has_id id t.task.server_ids ≡ true
    → IsDone id (run (cancel_task t now).0 es).task.results
unfolding cancel_task
cancel_task-IsDone t now es id listed =
    Kept-IsDone id (results_of (cancel_task t now).0) _ (run-KeptAll (cancel_task t now).0 es)
      (cancel_servers-IsDone t t.task.server_ids now id (inl listed))

-- A task is given up only on its own id and when it is not active: a success removes that task
-- alone, a refusal changes nothing, and an active task is refused.
pub clear_lem :
    (m : Manager) (given : Text) (j : Text)
    → let id = trim_space given in
      let (m', result) = clear m given in
      (result ≡ Result.ok tt → lookup j m'.tasks ≡ (if id == j then none else lookup j m.tasks))
      × ((e : Error) → result ≡ Result.err e → m' ≡ m)
      × ((t : TaskRuntime)
          → lookup id m.tasks ≡ some t
          → is_active_status t.task.status ≡ true
          → (clear m given).1 ≢ Result.ok tt)
unfolding clear
clear_lem m given j =
    let id = trim_space given in
    (
      ground (arith, list_beq_iff {0} id j, lookup-delete m.tasks id j),
      λ e h. ground arith,
      λ t found a h. ground arith,
    )

-- No task of the table has an active result for the server.
abbrev pub IsStopped : ℤ → Manager → Type 0
IsStopped id m = All (λ (entry : Text × TaskRuntime). IsDone id entry.1.task.results) m.tasks

not_target-IsDone : (id : ℤ) (t : TaskRuntime) → is_target id t ≡ false → IsDone id t.task.results
unfolding is_target
not_target-IsDone id t h r found = ground arith

stop_each-IsDone :
    (id : ℤ) (now : Instant) (tasks : List (Text × TaskRuntime))
    → All
        (λ (entry : Text × TaskRuntime). IsDone id entry.1.task.results)
        (stop_each (is_target id) (λ t. cancel_server t id now) tasks).0
unfolding stop_each cancel_server
stop_each-IsDone id now [] = tt
stop_each-IsDone id now ((task_id, t) ∷ rest) = elim (Bool-cases (is_target id t)) [
  | inl h ↦ rw h (cancel_result-IsDone t.task.results id now, stop_each-IsDone id now rest)
  | inr h ↦ rw h (not_target-IsDone id t h, stop_each-IsDone id now rest)
]

-- When a server is stopped, no task is left with an active result for it.
pub stop_server-IsStopped :
    (m : Manager) (id : ℤ) (now : Instant)
    → is_positive id ≡ true
    → IsStopped id (stop_server m id now).0
unfolding stop_server
stop_server-IsStopped m id now h = rw h (stop_each-IsDone id now m.tasks)
