-- ===== src/SftpTransfer/Promises.antt =====
-- The calls of the user of internal/sftpmanager/manager_transfer.go, on a transfer whose goroutine
-- is blocked or has ended.
use mathlib.Core.Path.{subst}
use myapptest.Common.{
  ℕ, Bool, true, false, Option, some, List, ◌≡◌, refl, sym, ap, ◌∙◌, ◌⊎◌, inl, inr, any, nat_beq,
  ==_self, nat_eq, Bool-cases,
}
use myapptest.SftpTransfer.{
  SftpTransferStatus, SftpTransferState, Transfer, Worker, waiting, going, ended, blocked, queued,
  planning, running, pausing, paused, resuming, completed, partial_failed, failed, canceled,
  skipped, is_transfer_cancelable, wake,
}
use myapptest.SftpTransfer.Control.{
  pause_transfer, pause_from, resume_transfer, resume_from, cancel_transfer, or_same, go_on,
  take_channel, forget_pause, close_channel,
}
use myapptest.SftpTransfer.Steps.{
  Step, Reachable, Steps, no_step, one_more, IsClosed, IsTaken, channel_closed, file_refused,
  pause_called, resume_called, cancel_called, got_slot, gave_up, checked, progressed, plan_applied,
  finished_run, woken, refused, interrupted,
}
use myapptest.SftpTransfer.Invariant.{IsValid, IsValidAt}
use myapptest.SftpTransfer.Reached.{Reachable-IsValid}
use myapptest.SftpTransfer.Preserved.{taken-kept}

blocked_inj : (b c : ℕ) → blocked b ≡ blocked c → b ≡ c
blocked_inj b c e = cc

blocked-IsValidAt :
    (k : Worker) (c : ℕ) (ch : Option ℕ) (taken : List ℕ) (s : SftpTransferStatus) (p : Bool)
    → k ≡ blocked c
    → IsValidAt k ch taken s p
    → (any (nat_beq c) taken ≡ true) ⊎ ((ch ≡ some c) × (s ≡ paused))
unfolding IsValidAt
blocked-IsValidAt waiting c ch taken s p e v = cc
blocked-IsValidAt going c ch taken s p e v = cc
blocked-IsValidAt ended c ch taken s p e v = cc
blocked-IsValidAt (blocked b) c ch taken s p e (inl (d, n, l)) =
    inl (subst (λ x. any (nat_beq x) taken ≡ true) (blocked_inj b c e) d)
blocked-IsValidAt (blocked b) c ch taken s p e (inr (o, n, h, r)) =
    inr (n ∙ ap some (blocked_inj b c e), h)

take_channel-some :
    (c : ℕ) (ch : Option ℕ) (taken : List ℕ)
    → ch ≡ some c
    → any (nat_beq c) (take_channel ch taken) ≡ true
unfolding take_channel
take_channel-some c ch taken e = rw e (rw (==_self c) refl)

-- ResumeTransfer leaves the goroutine where it is, and closes nothing before its unlock.
resume_from-IsTaken :
    (s : SftpTransferStatus) (item : Transfer) (c : ℕ)
    → IsTaken c item
    → IsTaken c (or_same (resume_from s item) item)
unfolding resume_from go_on forget_pause
resume_from-IsTaken paused item c h = taken-kept c item.resume_ch item.taken h
resume_from-IsTaken pausing item c h = taken-kept c item.resume_ch item.taken h
resume_from-IsTaken running item c h = h
resume_from-IsTaken planning item c h = h
resume_from-IsTaken queued item c h = h
resume_from-IsTaken resuming item c h = h
resume_from-IsTaken completed item c h = h
resume_from-IsTaken partial_failed item c h = h
resume_from-IsTaken failed item c h = h
resume_from-IsTaken canceled item c h = h
resume_from-IsTaken skipped item c h = h

resume_from-worker :
    (s : SftpTransferStatus) (item : Transfer)
    → (or_same (resume_from s item) item).worker ≡ item.worker
unfolding resume_from go_on forget_pause
resume_from-worker paused item = refl
resume_from-worker pausing item = refl
resume_from-worker running item = refl
resume_from-worker planning item = refl
resume_from-worker queued item = refl
resume_from-worker resuming item = refl
resume_from-worker completed item = refl
resume_from-worker partial_failed item = refl
resume_from-worker failed item = refl
resume_from-worker canceled item = refl
resume_from-worker skipped item = refl

resume_from-takes :
    (item : Transfer) (c : ℕ)
    → item.resume_ch ≡ some c
    → IsTaken c (or_same (resume_from paused item) item)
unfolding resume_from go_on
resume_from-takes item c e = take_channel-some c item.resume_ch item.taken e

-- A goroutine goes on: its channel is closed already, or the next step closes it.
abbrev pub CanWake : ℕ → Transfer → Type 0
CanWake c item =
    (IsClosed c item × Step item (wake item))
    ⊎ (Step item (close_channel c item) × Step (close_channel c item) (wake (close_channel c item)))

taken-CanWake :
    (c : ℕ) (item : Transfer) → item.worker ≡ blocked c → IsTaken c item → CanWake c item
unfolding close_channel
taken-CanWake c item b h = elim (Bool-cases (any (nat_beq c) item.closed)) [
  | inl d ↦ inl (d, woken item c b d)
  | inr o ↦ inr (channel_closed item c h o, woken (close_channel c item) c b (rw (==_self c) refl))
]

-- A goroutine that is blocked can go on after one call of ResumeTransfer: its channel is taken at the
-- unlock, and once the call has closed it, where it is not closed already, the goroutine can wake,
-- with nothing else to be done by the user. Until that call the transfer is shown as paused, unless
-- an earlier call took the channel, and then it is woken in the same way without a new call.
pub resume_wakes :
    (item : Transfer) (c : ℕ)
    → Reachable item
    → item.worker ≡ blocked c
    → ((item.state.status ≡ paused) ⊎ CanWake c item)
      × IsTaken c (or_same (resume_transfer item) item)
      × CanWake c (or_same (resume_transfer item) item)
unfolding IsValid resume_transfer
resume_wakes item c r b =
    let (v, m, _) = Reachable-IsValid item r in
    let worker = resume_from-worker item.state.status item ∙ b in
    elim (blocked-IsValidAt _ _ _ _ _ _ b v) [
      | inl d ↦
          let t = resume_from-IsTaken item.state.status item c d in
          (inr (taken-CanWake c item b d), t, taken-CanWake c _ worker t)
      | inr (n, h) ↦
          let t =
            subst (λ s. IsTaken c (or_same (resume_from s item) item)) (sym h)
              (resume_from-takes item c n) in
          (inl h, t, taken-CanWake c _ worker t)
    ]

pause_from-ended :
    (s : SftpTransferStatus) (item : Transfer)
    → is_transfer_cancelable s ≡ false
    → or_same (pause_from s item) item ≡ item
unfolding pause_from is_transfer_cancelable
pause_from-ended queued item h = cc
pause_from-ended planning item h = cc
pause_from-ended running item h = cc
pause_from-ended pausing item h = cc
pause_from-ended paused item h = cc
pause_from-ended resuming item h = cc
pause_from-ended completed item h = refl
pause_from-ended partial_failed item h = refl
pause_from-ended failed item h = refl
pause_from-ended canceled item h = refl
pause_from-ended skipped item h = refl

resume_from-ended :
    (s : SftpTransferStatus) (item : Transfer)
    → is_transfer_cancelable s ≡ false
    → or_same (resume_from s item) item ≡ item
unfolding resume_from is_transfer_cancelable
resume_from-ended queued item h = cc
resume_from-ended planning item h = cc
resume_from-ended running item h = cc
resume_from-ended pausing item h = cc
resume_from-ended paused item h = cc
resume_from-ended resuming item h = cc
resume_from-ended completed item h = refl
resume_from-ended partial_failed item h = refl
resume_from-ended failed item h = refl
resume_from-ended canceled item h = refl
resume_from-ended skipped item h = refl

-- A transfer whose goroutine has ended, with a status that is final.
abbrev HasEnded : Transfer → SftpTransferState → Type 0
HasEnded item state =
    (item.worker ≡ ended) × (item.state ≡ state) × (is_transfer_cancelable state.status ≡ false)

same-HasEnded :
    (item after : Transfer) (state : SftpTransferState)
    → after ≡ item
    → HasEnded item state
    → HasEnded after state
same-HasEnded item after state e h = subst (λ x. HasEnded x state) (sym e) h

step-HasEnded :
    (before after : Transfer) (state : SftpTransferState)
    → Step before after
    → HasEnded before state
    → HasEnded after state
unfolding pause_transfer resume_transfer cancel_transfer close_channel
step-HasEnded _ _ state (pause_called item) (w, e, c) =
    same-HasEnded item _ state
      (pause_from-ended item.state.status item (ap (λ s. is_transfer_cancelable s.status) e ∙ c))
      (w, e, c)
step-HasEnded _ _ state (resume_called item) (w, e, c) =
    same-HasEnded item _ state
      (resume_from-ended item.state.status item (ap (λ s. is_transfer_cancelable s.status) e ∙ c))
      (w, e, c)
step-HasEnded _ _ state (channel_closed item c t o) h = h
step-HasEnded _ _ state (cancel_called item) h = h
step-HasEnded _ _ state (got_slot item now g) (w, e, f) = cc
step-HasEnded _ _ state (gave_up item message now g d) (w, e, f) = cc
step-HasEnded _ _ state (checked item offset g) (w, e, f) = cc
step-HasEnded _ _ state (progressed item mutate g p) (w, e, f) = cc
step-HasEnded _ _ state (plan_applied item files bytes g) (w, e, f) = cc
step-HasEnded _ _ state (finished_run item status message now g l) (w, e, f) = cc
step-HasEnded _ _ state (woken item c b d) (w, e, f) = cc
step-HasEnded _ _ state (refused item c status message now b d l) (w, e, f) = cc
step-HasEnded _ _ state (file_refused item c b d l) (w, e, f) = cc
step-HasEnded _ _ state (interrupted item c message now b d) (w, e, f) = cc

Steps-HasEnded :
    (item later : Transfer) (state : SftpTransferState)
    → Steps item later
    → HasEnded item state
    → HasEnded later state
Steps-HasEnded _ _ state (no_step item) h = h
Steps-HasEnded _ _ state (one_more first next last s more) h =
    Steps-HasEnded next last state more (step-HasEnded first next state s h)

ended-IsValidAt :
    (k : Worker) (ch : Option ℕ) (closed : List ℕ) (s : SftpTransferStatus) (p : Bool)
    → k ≡ ended
    → IsValidAt k ch closed s p
    → is_transfer_cancelable s ≡ false
unfolding IsValidAt
ended-IsValidAt waiting ch closed s p e v = cc
ended-IsValidAt going ch closed s p e v = cc
ended-IsValidAt ended ch closed s p e v = v
ended-IsValidAt (blocked c) ch closed s p e v = cc

-- Once the goroutine of a transfer has ended, its status is final, and whatever is called after
-- that in whatever order, its state stays as it is.
pub ended_final :
    (item later : Transfer)
    → Reachable item
    → item.worker ≡ ended
    → Steps item later
    → (is_transfer_cancelable item.state.status ≡ false) × (later.state ≡ item.state)
unfolding IsValid
ended_final item later r w steps =
    let (v, m, _) = Reachable-IsValid item r in
    let c = ended-IsValidAt _ _ _ _ _ w v in
    let (_, e, _) = Steps-HasEnded item later item.state steps (w, refl, c) in (c, e)
