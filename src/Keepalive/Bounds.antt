-- ===== src/Keepalive/Bounds.antt =====
-- The failure counter, the timers, and what a report says.
use myapptest.Common.{
  ◌<◌, is_positive, pos_part, Bool, true, false, none, some, List, [], ◌∷◌, ◌≡◌, ◌≢◌, arith,
  Option-cases, inl, inr, some_inj, ◌↔◌,
}
use mathlib.Core.Path.{subst}
use myapptest.Keepalive.{
  Policy, normalize_policy, Event, KeepaliveState, Outcome, start, step, run, start_keepalive,
  Reply,
}

-- A running loop has fewer failures than the limit, and exactly one of its two timers is set: the
-- interval's while it waits to ask, the timeout's while a request is out.
pub record IsValid (p : Policy) (s : KeepaliveState) : Type 0 where
  pub below : s.failures < pos_part p.max_failures
  pub idle_timer : s.pending ≡ false → (s.timer ≢ none) × (s.timeout_timer ≡ none)
  pub pending_timer : s.pending ≡ true → (s.timer ≡ none) × (s.timeout_timer ≢ none)

abbrev pub IsValidOutcome : Policy → Outcome → Type 0
IsValidOutcome p (Outcome.running s) = IsValid p s
IsValidOutcome p Outcome.returned = Unit
IsValidOutcome p (Outcome.closed f) = f.failure_count ≡ pos_part p.max_failures

-- A normalised policy allows at least one failure, and waits for positive times.
pub normalize_policy_positive :
    (q : Policy)
    → let p = normalize_policy q in
      (is_positive p.interval ≡ true)
      × (is_positive p.timeout ≡ true)
      × (is_positive p.max_failures ≡ true)
unfolding normalize_policy
normalize_policy_positive q = (ground arith, ground arith, ground arith)

start-IsValid : (p : Policy) → is_positive p.max_failures ≡ true → IsValid p (start p)
unfolding start
start-IsValid p h = ground arith

step-IsValidOutcome :
    (p : Policy) (s : KeepaliveState) (e : Event) (o : Outcome)
    → is_positive p.max_failures ≡ true
    → IsValid p s
    → step p s e ≡ some o
    → IsValidOutcome p o
unfolding step
step-IsValidOutcome p s e o pos v h = ground arith

start_keepalive-IsValid :
    (has_requester : Bool) (q p : Policy) (s : KeepaliveState)
    → start_keepalive has_requester q ≡ some (p, s)
    → (is_positive p.max_failures ≡ true) × IsValid p s
unfolding start_keepalive
start_keepalive-IsValid has_requester q p s h = (ground arith, ground arith)

run-IsValidOutcome :
    (p : Policy) (o o' : Outcome) (es : List Event)
    → is_positive p.max_failures ≡ true
    → IsValidOutcome p o
    → run p o es ≡ some o'
    → IsValidOutcome p o'
unfolding run
run-IsValidOutcome p o o' [] pos v h = subst (IsValidOutcome p) (some_inj h) v
run-IsValidOutcome p (Outcome.running s) o' (e ∷ es) pos v h = elim (Option-cases (step p s e)) [
  | inl stuck ↦ cc (rw (stuck, run) at h)
  | inr (u, q) ↦
      run-IsValidOutcome p u o' es pos (step-IsValidOutcome p s e u pos v q) (rw (q, run) at h)
]
run-IsValidOutcome p Outcome.returned o' (e ∷ es) pos v h = subst (IsValidOutcome p) (some_inj h) v
run-IsValidOutcome p (Outcome.closed f) o' (e ∷ es) pos v h =
    subst (IsValidOutcome p) (some_inj h) v

-- From any policy, over any events that can come: while the loop runs its failures stay below the
-- limit of the normalised policy and exactly one timer is set, and when it closes the connection
-- the count that it reports is exactly the limit.
pub run_from_start-IsValidOutcome :
    (has_requester : Bool) (q p : Policy) (s : KeepaliveState) (es : List Event) (o : Outcome)
    → start_keepalive has_requester q ≡ some (p, s)
    → run p (Outcome.running s) es ≡ some o
    → IsValidOutcome p o
run_from_start-IsValidOutcome has_requester q p s es o started h =
    let (pos, v) = start_keepalive-IsValid has_requester q p s started in
    run-IsValidOutcome p (Outcome.running s) o es pos v h

abbrev pub CanCome : Policy → KeepaliveState → Event → Type 0
CanCome p s e = step p s e ≢ none

-- In a valid state the interval's timer can fire exactly while no request is out; the timeout, and
-- a reply, can come exactly while one is: so the loop never waits for nothing.
pub CanCome-iff :
    (p : Policy) (s : KeepaliveState) (r : Reply)
    → IsValid p s
    → (CanCome p s Event.timer ↔ (s.pending ≡ false))
      × (CanCome p s Event.timeout ↔ (s.pending ≡ true))
      × (CanCome p s (Event.reply r) ↔ (s.pending ≡ true))
unfolding step
CanCome-iff p s (Reply.answered b) v =
    ((ground arith, ground arith), (ground arith, ground arith), (ground arith, ground arith))
CanCome-iff p s (Reply.failed err) v =
    ((ground arith, ground arith), (ground arith, ground arith), (ground arith, ground arith))
