-- ===== src/Keepalive/Detection.antt =====
-- How the loop finds that the other side is gone, and what does not count against it.
use myapptest.Common.{
  ℕ, zero, suc, ◌+◌, ◌<◌, is_positive, pos_part, Bool, true, false, none, some, List, [], ◌∷◌, ◌≡◌,
  ◌≢◌, refl, arith, sym, ◌-◌, nat_beq, if◌then◌else◌, String,
}
use mathlib.Core.Path.{subst}
use myapptest.Keepalive.{Policy, Event, Reply, KeepaliveState, KeepaliveError, Outcome, step, run}
use myapptest.Keepalive.Bounds.{IsValid}

abbrev pub timeouts : ℕ → List Event
timeouts zero = []
timeouts (suc n) = Event.timeout ∷ timeouts n

-- Counting `k` more timeouts of the pending request.
abbrev waiting : Policy → KeepaliveState → ℕ → KeepaliveState
waiting p s zero = s
waiting p s (suc k) =
    waiting p
      (record s {
        timeout_timer = some p.interval;
        timed_out_current_request = true;
        failures = s.failures + 1;
      })
      k

timeout_step :
    (p : Policy) (s : KeepaliveState)
    → s.pending ≡ true
    → s.timeout_timer ≢ none
    → s.failures + 1 < pos_part p.max_failures
    → step p s Event.timeout ≡ some (Outcome.running (waiting p s 1))
unfolding step
timeout_step p s out armed more = ground arith

abbrev pub dead : Policy → Outcome
dead p = Outcome.closed (record {
  failure_count = pos_part p.max_failures;
  err = KeepaliveError.request_timed_out;
  timed_out = true;
})

timeout_last :
    (p : Policy) (s : KeepaliveState)
    → is_positive p.max_failures ≡ true
    → s.pending ≡ true
    → s.timeout_timer ≢ none
    → s.failures + 1 ≡ pos_part p.max_failures
    → step p s Event.timeout ≡ some (dead p)
unfolding step
timeout_last p s pos out armed last = ground arith

run-timeouts :
    (k : ℕ) (p : Policy) (s : KeepaliveState)
    → is_positive p.max_failures ≡ true
    → s.pending ≡ true
    → s.timeout_timer ≢ none
    → s.failures + suc k ≡ pos_part p.max_failures
    → run p (Outcome.running s) (timeouts (suc k)) ≡ some (dead p)
unfolding run
run-timeouts zero p s pos out armed last = rw (timeout_last p s pos out armed last, run) refl
run-timeouts (suc k) p s pos out armed last =
    rw (timeout_step p s out armed (omega arith), run)
      (run-timeouts k p (waiting p s 1) pos out (λ e. cc e) (omega arith))

run_fewer_timeouts :
    (k : ℕ) (p : Policy) (s : KeepaliveState)
    → s.pending ≡ true
    → s.timeout_timer ≢ none
    → s.failures + k < pos_part p.max_failures
    → (t : KeepaliveState) × (run p (Outcome.running s) (timeouts k) ≡ some (Outcome.running t))
      × (t.failures ≡ s.failures + k)
unfolding run
run_fewer_timeouts zero p s out armed few = (s, refl, omega arith)
run_fewer_timeouts (suc k) p s out armed few =
    let (t, q, count) = run_fewer_timeouts k p (waiting p s 1) out (λ e. cc e) (omega arith) in
    (t, rw (timeout_step p s out armed (omega arith), run) q, omega arith)

abbrev asking : Policy → KeepaliveState → KeepaliveState
asking p s = record s {
  pending = true;
  timer = none;
  timed_out_current_request = false;
  timeout_timer = some p.timeout;
}

ask_step :
    (p : Policy) (s : KeepaliveState)
    → IsValid p s
    → s.pending ≡ false
    → step p s Event.timer ≡ some (Outcome.running (asking p s))
unfolding step
ask_step p s v idle = ground arith

-- From a waiting loop with no failure so far, a server that never replies is found dead by exactly
-- as many timeouts as the limit allows: the connection is closed, and the report says so.
pub silent_server_detected :
    (p : Policy) (s : KeepaliveState)
    → is_positive p.max_failures ≡ true
    → IsValid p s
    → s.pending ≡ false
    → s.failures ≡ 0
    → run p (Outcome.running s) (Event.timer ∷ timeouts (pos_part p.max_failures)) ≡ some (dead p)
unfolding run
silent_server_detected p s pos v idle clean =
    let e : pos_part p.max_failures ≡ suc (pos_part p.max_failures - 1) = ground arith in
    let q =
      run-timeouts (pos_part p.max_failures - 1) p (asking p s) pos refl (λ x. cc x)
        (omega arith) in
    rw (ask_step p s v idle, run)
      (subst (λ n. run p (Outcome.running (asking p s)) (timeouts n) ≡ some (dead p)) (sym e) q)

-- With fewer timeouts the loop still runs, and has counted each of them once.
pub slow_server_tolerated :
    (p : Policy) (s : KeepaliveState) (k : ℕ)
    → IsValid p s
    → s.pending ≡ false
    → s.failures + k < pos_part p.max_failures
    → (t : KeepaliveState) × (run p (Outcome.running s) (Event.timer ∷ timeouts k)
        ≡ some (Outcome.running t))
      × (t.failures ≡ s.failures + k)
unfolding run
slow_server_tolerated p s k v idle few =
    let (t, q, count) = run_fewer_timeouts k p (asking p s) refl (λ x. cc x) few in
    (t, rw (ask_step p s v idle, run) q, count)

abbrev forgiven : Policy → KeepaliveState → KeepaliveState
forgiven p s = record s {
  timeout_timer = none;
  pending = false;
  failures = 0;
  timer = some p.interval;
}

answer_step :
    (p : Policy) (s : KeepaliveState) (accepted : Bool)
    → s.pending ≡ true
    → step p s (Event.reply (Reply.answered accepted)) ≡ some (Outcome.running (forgiven p s))
unfolding step
answer_step p s accepted out = ground arith

-- A reply, be it a refusal, forgives all failures so far: a server that falls silent after it is
-- closed only by the full number of timeouts.
pub answer_forgives :
    (p : Policy) (s : KeepaliveState) (accepted : Bool)
    → is_positive p.max_failures ≡ true
    → s.pending ≡ true
    → run p
        (Outcome.running s)
        (Event.reply (Reply.answered accepted) ∷ Event.timer ∷ timeouts (pos_part p.max_failures))
      ≡ some (dead p)
unfolding run
answer_forgives p s accepted pos out =
    rw (answer_step p s accepted out, run)
      (silent_server_detected p (forgiven p s) pos (ground arith) refl refl)

-- An error that arrives for a request that has timed out before is not counted again: the loop
-- goes on, waits an interval, and has the failures that it had.
pub late_error_uncounted :
    (p : Policy) (s : KeepaliveState) (err : String)
    → IsValid p s
    → s.pending ≡ true
    → s.timed_out_current_request ≡ true
    → step p s (Event.reply (Reply.failed err))
      ≡ some (Outcome.running (record (forgiven p s) { failures = s.failures }))
unfolding step
late_error_uncounted p s err v out late = ground arith

-- An error for a request that has not timed out counts one failure, and closes the connection with
-- that error exactly when it is the last that the limit allows.
pub early_error_counted :
    (p : Policy) (s : KeepaliveState) (err : String)
    → IsValid p s
    → s.pending ≡ true
    → s.timed_out_current_request ≡ false
    → step p s (Event.reply (Reply.failed err))
      ≡ some (
          if nat_beq (s.failures + 1) (pos_part p.max_failures)
          then Outcome.closed (record {
            failure_count = pos_part p.max_failures;
            err = KeepaliveError.request_failed err;
            timed_out = false;
          })
          else Outcome.running (record (forgiven p s) { failures = s.failures + 1 }))
unfolding step
early_error_counted p s err v out early = ground arith
