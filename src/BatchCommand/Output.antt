-- ===== src/BatchCommand/Output.antt =====
-- How much output a task keeps of each server.
use myapptest.Common.{
  ℕ, ◌+◌, ◌≤◌, ltb, ℤ, int_eq, int_beq, int_beq_comm, Bool, true, false, ◌||◌, not, Option, none,
  some, List, [], ◌∷◌, ◌≡◌, refl, sym, ◌∙◌, ap, arith, Option-cases, Bool-cases, inl, inr, length,
  length-append, ◌==◌, if◌then◌else◌, put, is_empty, Text, map,
}
use mathlib.Core.Path.{subst}
use myapptest.BatchCommand.{Instant, ServerResult, StartRequest}
use myapptest.BatchCommand.Task.{
  OutputState, TaskRuntime, Stream, result_by_server, set_result, append_output, append_to,
  chunk_lines, append_result_output, output_limit_bytes, output_limit_lines, truncated_notice,
  is_running, transition_server, finish_server, set_server_identity,
}
use myapptest.BatchCommand.Lifecycle.{
  set_server_cancel, set_session, close_session, clear_server_runtime, cancel_server,
  cancel_servers, cancel_task, finish_task,
}
use myapptest.BatchCommand.Results.{
  replaced, silent, Kept, found_server, result_by_server-set_result,
}
use myapptest.BatchCommand.Events.{Event, step, run, is_output}
use myapptest.BatchCommand.Frozen.{step-silent}
use myapptest.BatchCommand.Manager.{queued_result, new_runtime}

-- The counters are within the limits, and the output is what they count, with the notice behind it
-- where it was cut.
pub record IsWithin (o : OutputState) (r : ServerResult) : Type 0 where
  pub bytes_bounded : o.bytes ≤ output_limit_bytes
  pub lines_bounded : o.lines ≤ output_limit_lines
  pub counted :
      length r.stdout + length r.stderr
      ≡ o.bytes + (if o.truncated then length truncated_notice else 0)
  pub flagged : r.output_truncated ≡ o.truncated

abbrev pub IsWithinAt : OutputState → Option ServerResult → Type 0
IsWithinAt o none = Unit
IsWithinAt o (some r) = IsWithin o r

abbrev pub IsBounded : TaskRuntime → Type 0
IsBounded t = (id : ℤ) → IsWithinAt (t.outputs id) (result_by_server id t.task.results)

cancel_servers-outputs :
    (t : TaskRuntime) (ids : List ℤ) (now : Instant)
    → (cancel_servers t ids now).0.outputs ≡ t.outputs
unfolding cancel_servers cancel_server
cancel_servers-outputs t [] now = refl
cancel_servers-outputs t (id ∷ ids) now = cancel_servers-outputs (cancel_server t id now).0 ids now

step-outputs :
    (t : TaskRuntime) (e : Event) (now : Instant)
    → is_output e ≡ false
    → (step t e now).outputs ≡ t.outputs
unfolding step transition_server finish_server set_server_identity set_server_cancel set_session
    close_session clear_server_runtime cancel_server cancel_task finish_task
step-outputs t (Event.transition id status start) now h = ground arith
step-outputs t (Event.finish id status code message) now h = ground arith
step-outputs t (Event.identity id name host port) now h = ground arith
step-outputs t (Event.output id stream chunk) now h = cc
step-outputs t (Event.cancel_all) now h = cancel_servers-outputs t t.task.server_ids now
step-outputs t _ now h = refl

silent-IsWithinAt :
    (o : OutputState) (a b : Option ServerResult)
    → Kept silent a b
    → IsWithinAt o a
    → IsWithinAt o b
silent-IsWithinAt o none b e w = subst (IsWithinAt o) (sym e) tt
silent-IsWithinAt o (some r) b (r', e, v) w = subst (IsWithinAt o) (sym e) (record {
  bytes_bounded = w.bytes_bounded;
  lines_bounded = w.lines_bounded;
  counted = rw (v.stdout_kept, v.stderr_kept) w.counted;
  flagged = v.truncation_kept ∙ w.flagged;
})

replaced-IsWithinAt :
    (o : OutputState) (new : ServerResult) (found : Option ServerResult)
    → IsWithin o new
    → IsWithinAt o (replaced new found)
replaced-IsWithinAt o new none w = tt
replaced-IsWithinAt o new (some r) w = w

-- Writing one server's result and counters together.
written-IsWithinAt :
    (t : TaskRuntime) (id j : ℤ) (o : OutputState) (new : ServerResult)
    → new.server_id ≡ id
    → IsWithin o new
    → IsBounded t
    → IsWithinAt (put id o t.outputs j) (result_by_server j (set_result id new t.task.results))
written-IsWithinAt t id j o new e w all =
    rw (result_by_server-set_result id j new t.task.results e, int_beq_comm j id)
      (elim (Bool-cases (int_beq id j)) [
        | inl same ↦ rw same (replaced-IsWithinAt o new (result_by_server j t.task.results) w)
        | inr distinct ↦ rw distinct (all j)
      ])

size-append_result_output :
    (r : ServerResult) (stream : Stream) (chunk : List ℕ)
    → let r' = append_result_output r stream chunk in
      length r'.stdout + length r'.stderr ≡ length r.stdout + length r.stderr + length chunk
size-append_result_output r Stream.stdout chunk = omega (arith, length-append {0} r.stdout chunk)
size-append_result_output r Stream.stderr chunk = omega (arith, length-append {0} r.stderr chunk)

server-append_result_output :
    (r : ServerResult) (stream : Stream) (chunk : List ℕ)
    → let r' = append_result_output r stream chunk in
      (r'.server_id ≡ r.server_id) × (r'.output_truncated ≡ r.output_truncated)
server-append_result_output r Stream.stdout chunk = (refl, refl)
server-append_result_output r Stream.stderr chunk = (refl, refl)

abbrev is_over : OutputState → List ℕ → Bool
is_over o chunk =
    ltb output_limit_bytes (o.bytes + length chunk)
    || ltb output_limit_lines (o.lines + chunk_lines chunk)

cut_IsWithin :
    (o : OutputState) (r : ServerResult) (stream : Stream)
    → o.truncated ≡ false
    → IsWithin o r
    → IsWithin
        (record o { truncated = true })
        (record (append_result_output r stream truncated_notice) { output_truncated = true })
cut_IsWithin o r stream still w = record {
  bytes_bounded = w.bytes_bounded;
  lines_bounded = w.lines_bounded;
  counted =
      size-append_result_output r stream truncated_notice
      ∙ ap (λ n. n + length truncated_notice) (w.counted ∙ (rw still (omega arith)));
  flagged = refl;
}

added_IsWithin :
    (o : OutputState) (r : ServerResult) (stream : Stream) (chunk : List ℕ)
    → o.truncated ≡ false
    → is_over o chunk ≡ false
    → IsWithin o r
    → IsWithin
        (record o {
          bytes = o.bytes + length chunk;
          lines = o.lines + chunk_lines chunk;
          truncated = false;
        })
        (append_result_output r stream chunk)
added_IsWithin o r stream chunk still fits w = record {
  bytes_bounded = ground arith;
  lines_bounded = ground arith;
  counted = size-append_result_output r stream chunk ∙ (rw w.counted (rw still (omega arith)));
  flagged = (server-append_result_output r stream chunk).1 ∙ w.flagged ∙ still;
}

append_to-IsBounded :
    (t : TaskRuntime) (id : ℤ) (r : ServerResult) (stream : Stream) (chunk : List ℕ)
    → result_by_server id t.task.results ≡ some r
    → IsBounded t
    → IsBounded (append_to t id r stream chunk).0
unfolding append_to
append_to-IsBounded t id r stream chunk e all j =
    let state = t.outputs id in
    let w : IsWithin (t.outputs id) r = subst (IsWithinAt (t.outputs id)) e (all id) in
    let at_id = found_server id t.task.results r e in
    elim (Bool-cases state.truncated) [
      | inl full ↦ rw full (all j)
      | inr still ↦
          rw (still, append_to)
            (elim (Bool-cases (is_over state chunk)) [
              | inl over ↦ rw over (
                  written-IsWithinAt t id j _ _
                    ((server-append_result_output r stream truncated_notice).0 ∙ at_id)
                    (cut_IsWithin state r stream still w) all)
              | inr fits ↦ rw fits (
                  written-IsWithinAt t id j _ _
                    ((server-append_result_output r stream chunk).0 ∙ at_id)
                    (added_IsWithin state r stream chunk still fits w) all)
            ])
    ]

within_size :
    (o : OutputState) (r : ServerResult)
    → IsWithin o r
    → (length r.stdout + length r.stderr ≤ output_limit_bytes + length truncated_notice)
      × (r.output_truncated ≡ false → length r.stdout + length r.stderr ≤ output_limit_bytes)
within_size o r w = elim (Bool-cases o.truncated) [
  | inl e ↦
      let size : length r.stdout + length r.stderr ≡ o.bytes + length truncated_notice =
        w.counted ∙ rw e refl in
      (omega (arith, size, w.bytes_bounded), λ h. cc (h, w.flagged, e))
  | inr e ↦
      let size : length r.stdout + length r.stderr ≡ o.bytes = w.counted ∙ rw e (omega arith) in
      (omega (arith, size, w.bytes_bounded), λ h. omega (arith, size, w.bytes_bounded))
]

append_output-IsBounded :
    (t : TaskRuntime) (id : ℤ) (stream : Stream) (chunk : List ℕ)
    → IsBounded t
    → IsBounded (append_output t id stream chunk).0
unfolding append_output
append_output-IsBounded t id stream chunk all =
    elim (Option-cases (result_by_server id t.task.results)) [
      | inl e ↦ rw (e, append_output) all
      | inr (r, e) ↦
          rw (e, append_output)
            (elim (Bool-cases (is_empty chunk || not (is_running r.status))) [
              | inl ignored ↦ rw ignored all
              | inr taken ↦ rw taken (append_to-IsBounded t id r stream chunk e all)
            ])
    ]

step_silent-IsBounded :
    (t : TaskRuntime) (e : Event) (now : Instant)
    → is_output e ≡ false
    → IsBounded t
    → IsBounded (step t e now)
step_silent-IsBounded t e now quiet all j =
    rw (step-outputs t e now quiet)
      (silent-IsWithinAt (t.outputs j) _ _ (step-silent t e now quiet j) (all j))

step-IsBounded :
    (t : TaskRuntime) (e : Event) (now : Instant) → IsBounded t → IsBounded (step t e now)
unfolding step
step-IsBounded t (Event.output id stream chunk) now all =
    append_output-IsBounded t id stream chunk all
step-IsBounded t e now all = step_silent-IsBounded t e now refl all

run-IsBounded : (t : TaskRuntime) (es : List (Event × Instant)) → IsBounded t → IsBounded (run t es)
unfolding run
run-IsBounded t [] all = all
run-IsBounded t ((e, now) ∷ es) all = run-IsBounded (step t e now) es (step-IsBounded t e now all)

queued-IsWithinAt :
    (task_id : Text) (ids : List ℤ) (j : ℤ)
    → IsWithinAt
        (record { bytes = 0; lines = 0; truncated = false })
        (result_by_server j (map (queued_result task_id) ids))
unfolding result_by_server queued_result
queued-IsWithinAt task_id [] j = tt
queued-IsWithinAt task_id (id ∷ ids) j = elim (Bool-cases (id == j)) [
  | inl e ↦ rw e (ground arith)
  | inr e ↦ rw e (queued-IsWithinAt task_id ids j)
]

new_runtime-IsBounded :
    (task_id : Text) (r : StartRequest) (now : Instant) → IsBounded (new_runtime task_id r now)
unfolding new_runtime
new_runtime-IsBounded task_id r now j = queued-IsWithinAt task_id r.server_ids j

-- Of every server of a task, whatever it writes and in whatever order, the task keeps at most the
-- limit of bytes, and behind a cut the notice; as long as the result is not marked as cut, the
-- output kept is within the limit.
pub output_bounded :
    (task_id : Text) (request : StartRequest) (now : Instant) (es : List (Event × Instant)) (id : ℤ)
    (r : ServerResult)
    → result_by_server id (run (new_runtime task_id request now) es).task.results ≡ some r
    → (length r.stdout + length r.stderr ≤ output_limit_bytes + length truncated_notice)
      × (r.output_truncated ≡ false → length r.stdout + length r.stderr ≤ output_limit_bytes)
output_bounded task_id request now es id r found =
    let t = run (new_runtime task_id request now) es in
    let all =
      run-IsBounded (new_runtime task_id request now) es
        (new_runtime-IsBounded task_id request now) in
    within_size (t.outputs id) r (subst (IsWithinAt (t.outputs id)) found (all id))
