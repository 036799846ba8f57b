-- ===== src/BatchCommand/Whole.antt =====
-- What holds of a task holds of it in the table, until it is cleared.
use myapptest.Common.{
  ℤ, none, some, List, [], ◌∷◌, Text, true, false, ◌≡◌, refl, ap, ◌∙◌, ◌⊎◌, inl, inr, lookup,
  lookup-insert, lookup-delete, ◌==◌, list_eq, nat_eq, Option-cases, Bool-cases, eq_of_==,
  trim_space, is_empty,
}
use myapptest.BatchCommand.{ServerResult, Instant, is_active_status}
use myapptest.BatchCommand.Task.{TaskRuntime, Effect, result_by_server}
use myapptest.BatchCommand.Manager.{Manager, on_task, clear}
use myapptest.BatchCommand.Events.{Event, step, run}
use myapptest.BatchCommand.Frozen.{result_final}
use myapptest.BatchCommand.Calls.{
  Action, call, act, act_all, transition_in, finish_in, identity_in, output_in, register_cancel_in,
  register_session_in, cancel_in, cancel_all_in, finish_all_in,
}

-- The task is gone, or it is what events have made of it.
abbrev Follows : Text → TaskRuntime → Manager → Type 0
Follows id t m =
    (lookup id m.tasks ≡ none)
    ⊎ ((es : List (Event × Instant)) × (lookup id m.tasks ≡ some (run t es)))

on_task-same :
    (m : Manager) (task id : Text) (f : TaskRuntime → TaskRuntime × List Effect) (t : TaskRuntime)
    → task == id ≡ true
    → lookup id m.tasks ≡ some t
    → lookup id (on_task m task f).0.tasks ≡ some (f t).0
unfolding on_task
on_task-same m task id f t b h =
    let e = ap (λ (j : Text). lookup j m.tasks) (eq_of_== task id b) ∙ h in
    rw (e, on_task) (lookup-insert m.tasks task id (f t).0 ∙ rw b refl)

on_task-other :
    (m : Manager) (task id : Text) (f : TaskRuntime → TaskRuntime × List Effect)
    → task == id ≡ false
    → lookup id (on_task m task f).0.tasks ≡ lookup id m.tasks
unfolding on_task
on_task-other m task id f b = elim (Option-cases (lookup task m.tasks)) [
  | inl n ↦ rw (n, on_task) refl
  | inr (s, e) ↦ rw (e, on_task) (lookup-insert m.tasks task id (f s).0 ∙ rw b refl)
]

on_task-missing :
    (m : Manager) (task id : Text) (f : TaskRuntime → TaskRuntime × List Effect)
    → lookup id m.tasks ≡ none
    → lookup id (on_task m task f).0.tasks ≡ none
unfolding on_task
on_task-missing m task id f n = elim (Bool-cases (task == id)) [
  | inl b ↦
      let e = ap (λ (j : Text). lookup j m.tasks) (eq_of_== task id b) ∙ n in rw (e, on_task) n
  | inr b ↦ on_task-other m task id f b ∙ n
]

-- A call runs its event on the task, if that is in the table.
call-on_task :
    (m : Manager) (task : Text) (e : Event) (now : Instant)
    → (f : TaskRuntime → TaskRuntime × List Effect) × (call m task e now ≡ on_task m task f)
      × ((t : TaskRuntime) → (f t).0 ≡ step t e now)
unfolding call step transition_in finish_in identity_in output_in register_cancel_in
    register_session_in cancel_in cancel_all_in finish_all_in
call-on_task m task (Event.transition _ _ _) now = (_, refl, λ t. refl)
call-on_task m task (Event.finish _ _ _ _) now = (_, refl, λ t. refl)
call-on_task m task (Event.identity _ _ _ _) now = (_, refl, λ t. refl)
call-on_task m task (Event.output _ _ _) now = (_, refl, λ t. refl)
call-on_task m task (Event.register_cancel _ _) now = (_, refl, λ t. refl)
call-on_task m task (Event.register_session _ _) now = (_, refl, λ t. refl)
call-on_task m task (Event.drop_session _) now = (_, refl, λ t. refl)
call-on_task m task (Event.drop_runtime _) now = (_, refl, λ t. refl)
call-on_task m task (Event.cancel _) now = (_, refl, λ t. refl)
call-on_task m task Event.cancel_all now = (_, refl, λ t. refl)
call-on_task m task Event.finish_all now = (_, refl, λ t. refl)

-- A clearing leaves the table, or takes one task out.
clear-tasks :
    (m : Manager) (given id : Text)
    → (lookup id (clear m given).0.tasks ≡ none)
      ⊎ (lookup id (clear m given).0.tasks ≡ lookup id m.tasks)
unfolding clear
clear-tasks m given id = elim (Bool-cases (is_empty (trim_space given))) [
  | inl b ↦ inr (rw (b, clear) refl)
  | inr b ↦ elim (Option-cases (lookup (trim_space given) m.tasks)) [
    | inl n ↦ inr (rw (b, n, clear) refl)
    | inr (t, e) ↦ elim (Bool-cases (is_active_status t.task.status)) [
      | inl a ↦ inr (rw (b, e, clear, a) refl)
      | inr a ↦ elim (Bool-cases (trim_space given == id)) [
        | inl k ↦
            inl (rw (b, e, clear, a) (lookup-delete m.tasks (trim_space given) id ∙ rw k refl))
        | inr k ↦
            inr (rw (b, e, clear, a) (lookup-delete m.tasks (trim_space given) id ∙ rw k refl))
      ]
    ]
  ]
]

act-gone :
    (m : Manager) (a : Action) (id : Text)
    → lookup id m.tasks ≡ none
    → lookup id (act m a).tasks ≡ none
unfolding act
act-gone m (Action.on task e now) id n =
    let (f, c, _) = call-on_task m task e now in rw (c, act) (on_task-missing m task id f n)
act-gone m (Action.cleared given) id n = elim (clear-tasks m given id) [ inl x ↦ x | inr x ↦ x ∙ n ]

-- One more event, or none.
act-Follows :
    (m : Manager) (a : Action) (id : Text) (t : TaskRuntime)
    → lookup id m.tasks ≡ some t
    → (lookup id (act m a).tasks ≡ none)
      ⊎ (lookup id (act m a).tasks ≡ some t)
      ⊎ ((e : Event) × (now : Instant) × (lookup id (act m a).tasks ≡ some (step t e now)))
unfolding act
act-Follows m (Action.on task e now) id t h =
    let (f, c, s) = call-on_task m task e now in
    elim (Bool-cases (task == id)) [
      | inl b ↦ inr (inr (e, now, rw (c, act) (on_task-same m task id f t b h ∙ ap some (s t))))
      | inr b ↦ inr (inl (rw (c, act) (on_task-other m task id f b ∙ h)))
    ]
act-Follows m (Action.cleared given) id t h = elim (clear-tasks m given id) [
  | inl x ↦ inl x
  | inr x ↦ inr (inl (x ∙ h))
]

act_all-gone :
    (m : Manager) (actions : List Action) (id : Text)
    → lookup id m.tasks ≡ none
    → lookup id (act_all m actions).tasks ≡ none
unfolding act_all
act_all-gone m [] id n = n
act_all-gone m (a ∷ actions) id n = act_all-gone (act m a) actions id (act-gone m a id n)

act_all-Follows :
    (m : Manager) (actions : List Action) (id : Text) (t : TaskRuntime)
    → lookup id m.tasks ≡ some t
    → Follows id t (act_all m actions)
unfolding act_all run
act_all-Follows m [] id t h = inr ([], h)
act_all-Follows m (a ∷ actions) id t h = elim (act-Follows m a id t h) [
  | inl n ↦ inl (act_all-gone (act m a) actions id n)
  | inr (inl k) ↦ act_all-Follows (act m a) actions id t k
  | inr (inr (e, now, k)) ↦ elim (act_all-Follows (act m a) actions id (step t e now) k) [
    | inl n ↦ inl n
    | inr (es, r) ↦ inr ((e, now) ∷ es, r)
  ]
]

-- Once a server has finished for a task in the table, its result is final: whatever is called on
-- the tasks and whichever are cleared, the task is gone in the end, or the result is as it was, up
-- to the name and the host that the server is shown with.
pub act_all-final :
    (m : Manager) (actions : List Action) (id : Text) (t : TaskRuntime) (server : ℤ)
    (r : ServerResult)
    → lookup id m.tasks ≡ some t
    → result_by_server server t.task.results ≡ some r
    → is_active_status r.status ≡ false
    → (lookup id (act_all m actions).tasks ≡ none)
      ⊎ ((t' : TaskRuntime) × (r' : ServerResult) × (lookup id (act_all m actions).tasks ≡ some t')
          × (result_by_server server t'.task.results ≡ some r')
          × (r' ≡ record r { server_name = r'.server_name; host = r'.host }))
act_all-final m actions id t server r h k a = elim (act_all-Follows m actions id t h) [
  | inl n ↦ inl n
  | inr (es, e) ↦ let (r', x, y) = result_final t es server r k a in inr (run t es, r', e, x, y)
]
