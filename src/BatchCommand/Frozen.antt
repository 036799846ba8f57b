-- ===== src/BatchCommand/Frozen.antt =====
-- A server's result is final once the server has finished.
use myapptest.Common.{
  ℕ, ℤ, true, false, Option, some, List, [], ◌∷◌, ◌≡◌, refl, arith, Option-cases, inl, inr, Text,
  Bool-cases, ◌||◌, ◌+◌, not, ltb, length, is_empty,
}
use mathlib.Core.Path.{subst}
use myapptest.BatchCommand.{BatchCommandStatus, Instant, ServerResult, is_active_status}
use myapptest.BatchCommand.Task.{
  TaskRuntime, Stream, result_by_server, transition_server, finish_server, set_server_identity,
  append_output, append_to, started_result, is_running, chunk_lines, output_limit_bytes,
  output_limit_lines,
}
use myapptest.BatchCommand.Lifecycle.{
  set_server_cancel, set_session, close_session, clear_server_runtime, cancel_result, cancel_server,
  cancel_servers, cancel_task, finish_task,
}
use myapptest.BatchCommand.Events.{Event, step, run, results_of, is_output}
use myapptest.BatchCommand.Results.{
  Evolves, IsSilent, evolving, silent, Kept, KeptAll, KeptAll-refl, KeptAll-trans, KeptAll-map,
  set_result-KeptAll,
}

-- A change of an active result evolves from it.
active_Evolves :
    (r r' : ServerResult)
    → r'.server_id ≡ r.server_id
    → is_active_status r.status ≡ true
    → Evolves r r'
active_Evolves r r' e a = record { server = e; final = λ b. cc (a, b) }

-- A change of an active result that leaves its output alone is silent.
active_IsSilent :
    (r r' : ServerResult)
    → r'.server_id ≡ r.server_id
    → (r'.stdout ≡ r.stdout) × (r'.stderr ≡ r.stderr) × (r'.output_truncated ≡ r.output_truncated)
    → is_active_status r.status ≡ true
    → IsSilent r r'
active_IsSilent r r' e (out, err, cut) a = record {
  evolves = active_Evolves r r' e a;
  stdout_kept = out;
  stderr_kept = err;
  truncation_kept = cut;
}

transition_server-KeptAll :
    (t : TaskRuntime) (id : ℤ) (status : BatchCommandStatus) (start : Option Instant)
    (now : Instant)
    → KeptAll silent (results_of t) (results_of (transition_server t id status start now).0)
unfolding transition_server
transition_server-KeptAll t id status start now =
    elim (Option-cases (result_by_server id t.task.results)) [
      | inl e ↦ rw (e, transition_server) (KeptAll-refl silent (results_of t))
      | inr (r, e) ↦
          rw (e, transition_server)
            (elim (Bool-cases (is_active_status r.status)) [
              | inl a ↦ rw a (
                  set_result-KeptAll silent id r (started_result r status start) _ e
                    (active_IsSilent r _ (ground arith) (ground arith) a))
              | inr b ↦ rw b (KeptAll-refl silent (results_of t))
            ])
    ]

finish_server-KeptAll :
    (t : TaskRuntime) (id : ℤ) (status : BatchCommandStatus) (code : ℤ) (message : Text)
    (now : Instant)
    → KeptAll silent (results_of t) (results_of (finish_server t id status code message now).0)
unfolding finish_server
finish_server-KeptAll t id status code message now =
    elim (Option-cases (result_by_server id t.task.results)) [
      | inl e ↦ rw (e, finish_server) (KeptAll-refl silent (results_of t))
      | inr (r, e) ↦
          rw (e, finish_server)
            (elim (Bool-cases (is_active_status r.status)) [
              | inl a ↦ rw a (
                  set_result-KeptAll silent id r _ _ e
                    (active_IsSilent r _ refl (refl, refl, refl) a))
              | inr b ↦ rw b (KeptAll-refl silent (results_of t))
            ])
    ]

set_server_identity-KeptAll :
    (t : TaskRuntime) (id : ℤ) (name host : Text) (port : ℤ) (now : Instant)
    → KeptAll silent (results_of t) (results_of (set_server_identity t id name host port now).0)
unfolding set_server_identity
set_server_identity-KeptAll t id name host port now =
    elim (Option-cases (result_by_server id t.task.results)) [
      | inl e ↦ rw (e, set_server_identity) (KeptAll-refl silent (results_of t))
      | inr (r, e) ↦
          rw (e, set_server_identity)
            (set_result-KeptAll silent id r _ _ e (record {
              evolves = record { server = refl; final = λ h. refl };
              stdout_kept = refl;
              stderr_kept = refl;
              truncation_kept = refl;
            }))
    ]

-- Output goes to a running result only.
running-active : (r : ServerResult) → is_running r.status ≡ true → is_active_status r.status ≡ true
running-active r h = ground arith

append_to-KeptAll :
    (t : TaskRuntime) (id : ℤ) (r : ServerResult) (stream : Stream) (chunk : List ℕ)
    → result_by_server id t.task.results ≡ some r
    → is_active_status r.status ≡ true
    → KeptAll evolving (results_of t) (results_of (append_to t id r stream chunk).0)
unfolding append_to
append_to-KeptAll t id r stream chunk e a =
    let state = t.outputs id in
    elim (Bool-cases state.truncated) [
      | inl full ↦ rw full (KeptAll-refl evolving (results_of t))
      | inr open_still ↦
          rw open_still
            (elim (Bool-cases (
              ltb output_limit_bytes (state.bytes + length chunk)
              || ltb output_limit_lines (state.lines + chunk_lines chunk))) [
                | inl over ↦
                    rw over
                      (set_result-KeptAll evolving id r _ _ e (active_Evolves r _ (ground arith) a))
                | inr fits ↦
                    rw fits
                      (set_result-KeptAll evolving id r _ _ e (active_Evolves r _ (ground arith) a))
              ])
    ]

append_output-KeptAll :
    (t : TaskRuntime) (id : ℤ) (stream : Stream) (chunk : List ℕ)
    → KeptAll evolving (results_of t) (results_of (append_output t id stream chunk).0)
unfolding append_output
append_output-KeptAll t id stream chunk = elim (Option-cases (result_by_server id t.task.results)) [
  | inl e ↦ rw (e, append_output) (KeptAll-refl evolving (results_of t))
  | inr (r, e) ↦
      rw (e, append_output)
        (elim (Bool-cases (is_empty chunk || not (is_running r.status))) [
          | inl ignored ↦ rw ignored (KeptAll-refl evolving (results_of t))
          | inr taken ↦
              rw taken (append_to-KeptAll t id r stream chunk e (running-active r (ground arith)))
        ])
]

cancel_result-KeptAll :
    (rs : List ServerResult) (id : ℤ) (now : Instant)
    → KeptAll silent rs (cancel_result rs id now).0
unfolding cancel_result
cancel_result-KeptAll rs id now = elim (Option-cases (result_by_server id rs)) [
  | inl e ↦ rw (e, cancel_result) (KeptAll-refl silent rs)
  | inr (r, e) ↦
      rw (e, cancel_result)
        (elim (Bool-cases (is_active_status r.status)) [
          | inl a ↦
              rw a (
                set_result-KeptAll silent id r _ _ e
                  (active_IsSilent r _ refl (refl, refl, refl) a))
          | inr b ↦ rw b (KeptAll-refl silent rs)
        ])
]

cancel_server-KeptAll :
    (t : TaskRuntime) (id : ℤ) (now : Instant)
    → KeptAll silent (results_of t) (results_of (cancel_server t id now).0)
unfolding cancel_server
cancel_server-KeptAll t id now = cancel_result-KeptAll t.task.results id now

cancel_servers-KeptAll :
    (t : TaskRuntime) (ids : List ℤ) (now : Instant)
    → KeptAll silent (results_of t) (results_of (cancel_servers t ids now).0)
unfolding cancel_servers
cancel_servers-KeptAll t [] now = KeptAll-refl silent (results_of t)
cancel_servers-KeptAll t (id ∷ ids) now =
    KeptAll-trans silent (results_of t) _ _ (cancel_server-KeptAll t id now)
      (cancel_servers-KeptAll (cancel_server t id now).0 ids now)

-- All calls but those that add output leave every result's output alone.
pub step-silent :
    (t : TaskRuntime) (e : Event) (now : Instant)
    → is_output e ≡ false
    → KeptAll silent (results_of t) (results_of (step t e now))
unfolding step set_server_cancel set_session close_session clear_server_runtime cancel_task
    finish_task
step-silent t (Event.transition id status start) now h =
    transition_server-KeptAll t id status start now
step-silent t (Event.finish id status code message) now h =
    finish_server-KeptAll t id status code message now
step-silent t (Event.identity id name host port) now h =
    set_server_identity-KeptAll t id name host port now
step-silent t (Event.output id stream chunk) now h = cc
step-silent t (Event.cancel id) now h = cancel_server-KeptAll t id now
step-silent t Event.cancel_all now h = cancel_servers-KeptAll t t.task.server_ids now
step-silent t _ now h = KeptAll-refl silent (results_of t)

pub step-KeptAll :
    (t : TaskRuntime) (e : Event) (now : Instant)
    → KeptAll evolving (results_of t) (results_of (step t e now))
unfolding step
step-KeptAll t (Event.output id stream chunk) now = append_output-KeptAll t id stream chunk
step-KeptAll t e now =
    KeptAll-map silent evolving (λ r r' v. v.evolves) (results_of t) (results_of (step t e now))
      (step-silent t e now refl)

pub run-KeptAll :
    (t : TaskRuntime) (es : List (Event × Instant))
    → KeptAll evolving (results_of t) (results_of (run t es))
unfolding run
run-KeptAll t [] = KeptAll-refl evolving (results_of t)
run-KeptAll t ((e, now) ∷ es) =
    KeptAll-trans evolving (results_of t) _ _ (step-KeptAll t e now) (run-KeptAll (step t e now) es)

-- Once a server's result is no longer active, nothing that happens to the task changes its status,
-- exit code, output, error or times: only the server's name and host may still be filled in.
pub result_final :
    (t : TaskRuntime) (es : List (Event × Instant)) (id : ℤ) (r : ServerResult)
    → result_by_server id t.task.results ≡ some r
    → is_active_status r.status ≡ false
    → (r' : ServerResult) × (result_by_server id (run t es).task.results ≡ some r')
      × (r' ≡ record r { server_name = r'.server_name; host = r'.host })
result_final t es id r found done =
    let (r', e, v) =
      subst (λ o. Kept evolving o (result_by_server id (run t es).task.results)) found
        (run-KeptAll t es id) in
    (r', e, v.final done)
