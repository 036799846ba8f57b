-- ===== src/Keepalive.antt =====
-- internal/sshclient/keepalive.go: the keepalive loop of an SSH connection.
-- One round of the loop's `select` is `step`. An event is what the select may receive; the timers
-- and the pending channel of the loop say which events can come (`none` for one that cannot).
pub mod Bounds
pub mod Detection
mod Tests
use myapptest.Common.{
  ℕ, suc, ◌+◌, ◌*◌, ℤ, ltb_ℤ, is_positive, Bool, true, false, not, Option, none, some, String, List,
  [], ◌∷◌, if◌then◌else◌, ◌&&◌,
}

-- Durations in nanoseconds.
pub record Policy : Type 0 where
  pub enabled : Bool
  pub interval : ℤ
  pub timeout : ℤ
  pub max_failures : ℤ

abbrev pub second : ℕ
second = 1000000000

abbrev default_interval : ℤ
default_interval = ℤ.pos (30 * second)

abbrev default_timeout : ℤ
default_timeout = ℤ.pos (10 * second)

abbrev default_max_failures : ℤ
default_max_failures = ℤ.pos 3

unfoldable pub normalize_policy : Policy → Policy
normalize_policy p = record {
  enabled = p.enabled;
  interval = if is_positive p.interval then p.interval else default_interval;
  timeout = if is_positive p.timeout then p.timeout else default_timeout;
  max_failures = if is_positive p.max_failures then p.max_failures else default_max_failures;
}

-- What `SendRequest` gives: an error, or the server's answer, which may be a refusal.
pub data Reply : Type 0 where
  answered : Bool → Reply
  failed : String → Reply

pub data Event : Type 0 where
  ctx_done stop timer timeout : Event
  reply : Reply → Event

-- The local variables of `runKeepalive`. A timer is the duration for which it was last started,
-- and `none` once it has fired or been stopped.
pub record KeepaliveState : Type 0 where
  pub pending : Bool
  pub timer : Option ℤ
  pub timeout_timer : Option ℤ
  pub timed_out_current_request : Bool
  pub failures : ℕ

-- The error that a failure carries.
pub data KeepaliveError : Type 0 where
  request_timed_out : KeepaliveError
  request_failed : String → KeepaliveError

-- `KeepaliveFailure`, less the metadata, which the loop passes on as it is.
pub record KeepaliveFailure : Type 0 where
  pub failure_count : ℕ
  pub err : KeepaliveError
  pub timed_out : Bool

-- The loop goes on, or returns; it returns with a failure after it has closed the requester, and
-- the failure goes to the handler if there is one.
pub data Outcome : Type 0 where
  running : KeepaliveState → Outcome
  returned : Outcome
  closed : KeepaliveFailure → Outcome

unfoldable pub start : Policy → KeepaliveState
start p = record {
  pending = false;
  timer = some p.interval;
  timeout_timer = none;
  timed_out_current_request = false;
  failures = 0;
}

start_request : Policy → KeepaliveState → KeepaliveState
start_request p s = record s {
  pending = true;
  timer = none;
  timed_out_current_request = false;
  timeout_timer = some p.timeout;
}

-- `keepaliveFailureError(err, timedOut)`, with `err` present when the request did not time out.
keepalive_failure_error : Option String → KeepaliveError
keepalive_failure_error none = KeepaliveError.request_timed_out
keepalive_failure_error (some err) = KeepaliveError.request_failed err

-- `fail(err, timedOut, counted)`, and what the loop does when it returns false.
fail : Policy → KeepaliveState → Option String → Bool → (KeepaliveState → KeepaliveState) → Outcome
fail p s err counted continue =
    let count = if counted then s.failures + 1 else s.failures in
    if ltb_ℤ (ℤ.pos count) p.max_failures
    then Outcome.running (continue (record s { failures = count }))
    else Outcome.closed (record {
      failure_count = count;
      err = keepalive_failure_error err;
      timed_out = elim err [ none ↦ true | some e ↦ false ];
    })

reset_timer : Policy → KeepaliveState → KeepaliveState
reset_timer p s = record s { timer = some p.interval }

-- The select while no request is pending.
idle_step : Policy → KeepaliveState → Event → Option Outcome
idle_step p s Event.ctx_done = some Outcome.returned
idle_step p s Event.stop = some Outcome.returned
idle_step p s Event.timer = elim s.timer [
  | none ↦ none
  | some d ↦ some (Outcome.running (start_request p s))
]
idle_step p s Event.timeout = none
idle_step p s (Event.reply r) = none

-- The select while a request is pending.
pending_step : Policy → KeepaliveState → Event → Option Outcome
pending_step p s Event.ctx_done = some Outcome.returned
pending_step p s Event.stop = some Outcome.returned
pending_step p s Event.timer = none
pending_step p s Event.timeout =
    let late = record s { timeout_timer = none; timed_out_current_request = true } in
    elim s.timeout_timer [
      | none ↦ none
      | some d ↦ some (fail p late none true (λ t. record t { timeout_timer = some p.interval }))
    ]
pending_step p s (Event.reply (Reply.failed err)) =
    let done = record s { timeout_timer = none; pending = false } in
    some (fail p done (some err) (not s.timed_out_current_request) (reset_timer p))
pending_step p s (Event.reply (Reply.answered accepted)) =
    let done = record s { timeout_timer = none; pending = false; failures = 0 } in
    some (Outcome.running (reset_timer p done))

pub step : Policy → KeepaliveState → Event → Option Outcome
unfolding start_request keepalive_failure_error fail reset_timer idle_step pending_step
step p s e = if s.pending then pending_step p s e else idle_step p s e

-- `StartKeepalive`: the loop starts unless there is no requester or the policy is off; the handle
-- is done at once where it does not start (`none`).
pub start_keepalive : Bool → Policy → Option (Policy × KeepaliveState)
unfolding start normalize_policy
start_keepalive has_requester policy =
    let p = normalize_policy policy in
    if has_requester && p.enabled then some (p, start p) else none

-- The loop over a sequence of events; `none` if one of them cannot come where it stands. After the
-- loop has returned nothing is received.
pub run : Policy → Outcome → List Event → Option Outcome
run p o [] = some o
run p (Outcome.running s) (e ∷ es) = elim (step p s e) [ none ↦ none | some o ↦ run p o es ]
run p Outcome.returned (e ∷ es) = some Outcome.returned
run p (Outcome.closed f) (e ∷ es) = some (Outcome.closed f)
