-- ===== src/SftpTransfer/Reached.antt =====
-- The steps of a transfer of internal/sftpmanager/manager_transfer.go, and the transfers that they
-- can reach.
use mathlib.Core.Path.{subst}
use myapptest.Common.{
  ℕ, suc, ◌<◌, ℤ, true, false, Option, none, some, List, [], ◌∷◌, Text, ◌≡◌, refl, sym, ap, ◌∙◌,
  inl, inr, arith, any, nat_beq, All, Bool-cases, if◌then◌else◌, nat_eq,
}
use myapptest.SftpTransfer.{
  SftpTransferStatus, SftpTransferState, Transfer, going, queued, planning, running, pausing,
  paused, resuming, completed, partial_failed, failed, canceled, skipped, update_transfer,
  begin_transfer, wait_if_paused, hold, held, wake, apply_transfer_controls, is_transfer_cancelable,
  started, resumed, running_again,
}
use myapptest.SftpTransfer.Control.{pause_transfer, resume_transfer, close_channel, cancel_transfer}
use myapptest.SftpTransfer.Steps.{
  start_transfer, start_skipped_transfer, leave_file, Step, Reachable, at_start, at_skip,
  channel_closed, file_refused, then_step, IsProgress, planned, pause_called, resume_called,
  cancel_called, got_slot, gave_up, checked, progressed, plan_applied, finished_run, woken, refused,
  interrupted,
}
use myapptest.SftpTransfer.Invariant.{
  IsValid, IsValidAt, AreMade, AreTaken, is_live, live-IsValid, pause_from-IsValid,
}
use myapptest.SftpTransfer.Preserved.{
  resume_from-IsValid, finish_transfer-IsValid, going-IsValidAt, waiting-IsValidAt, woken-IsValidAt,
  closed-taken,
}

-- A goroutine that goes on, with a live status and no channel.
going-IsValid :
    (item : Transfer) (state : SftpTransferState)
    → item.resume_ch ≡ none
    → is_live state.status ≡ true
    → AreMade item.made item.resume_ch item.taken
    → AreTaken item.taken item.closed
    → IsValid (record item { state = apply_transfer_controls state; worker = going })
unfolding IsValid IsValidAt apply_transfer_controls
going-IsValid item state n l m s = ((n, l), m, s)

started-live : (now : Text) (state : SftpTransferState) → is_live (started now state).status ≡ true
unfolding started
started-live now state = elim (Bool-cases state.recursive) [ inl h ↦ rw h refl | inr h ↦ rw h refl ]

running_again-live : (s : SftpTransferStatus) → is_live s ≡ true → is_live (running_again s) ≡ true
running_again-live queued l = refl
running_again-live planning l = refl
running_again-live running l = refl
running_again-live pausing l = refl
running_again-live resuming l = refl
running_again-live paused l = cc
running_again-live completed l = cc
running_again-live partial_failed l = cc
running_again-live failed l = cc
running_again-live canceled l = cc
running_again-live skipped l = cc

-- A channel that is not made yet is not taken.
unmade-open :
    (made : ℕ) (closed : List ℕ) → All (λ c. c < made) closed → any (nat_beq made) closed ≡ false
unmade-open made [] h = refl
unmade-open made (c ∷ closed) (l, h) = ground (arith, unmade-open made closed h)

more-made :
    (made : ℕ) (closed : List ℕ) → All (λ c. c < made) closed → All (λ c. c < suc made) closed
more-made made [] h = tt
more-made made (c ∷ closed) (l, h) = (omega arith, more-made made closed h)

none-AreMade :
    (made : ℕ) (ch : Option ℕ) (closed : List ℕ)
    → ch ≡ none
    → AreMade made ch closed
    → All (λ c. c < made) closed
none-AreMade made none closed n m = m
none-AreMade made (some c) closed n m = cc

hold-IsValid :
    (item : Transfer) (offset : ℤ)
    → item.state.pause_requested ≡ true
    → All (λ c. c < item.made) item.taken
    → AreTaken item.taken item.closed
    → IsValid (hold offset none item)
unfolding IsValid IsValidAt hold held apply_transfer_controls
hold-IsValid item offset p m s = (
  inr (unmade-open item.made item.taken m, refl, refl, p),
  (omega arith, more-made item.made item.taken m),
  s,
)

pub wait_if_paused-held :
    (item : Transfer) (offset : ℤ)
    → item.state.pause_requested ≡ true
    → item.resume_ch ≡ none
    → wait_if_paused offset item ≡ hold offset none item
unfolding wait_if_paused
wait_if_paused-held item offset p n =
    ap (λ b. if b then hold offset item.resume_ch item else item) p
    ∙ ap (λ ch. hold offset ch item) n

pub wait_if_paused-free :
    (item : Transfer) (offset : ℤ)
    → item.state.pause_requested ≡ false
    → wait_if_paused offset item ≡ item
unfolding wait_if_paused
wait_if_paused-free item offset p = ap (λ b. if b then hold offset item.resume_ch item else item) p

wait_if_paused-IsValid :
    (item : Transfer) (offset : ℤ)
    → item.worker ≡ going
    → IsValid item
    → IsValid (wait_if_paused offset item)
unfolding IsValid
wait_if_paused-IsValid item offset g (v, m, s) =
    let (n, l) = going-IsValidAt _ _ _ _ _ g v in
    elim (Bool-cases item.state.pause_requested) [
      | inl h ↦
          subst IsValid (sym (wait_if_paused-held item offset h n))
            (hold-IsValid item offset h (none-AreMade item.made item.resume_ch item.taken n m) s)
      | inr h ↦ subst IsValid (sym (wait_if_paused-free item offset h)) (v, m, s)
    ]

is_canceled : is_transfer_cancelable canceled ≡ false
unfolding is_transfer_cancelable
is_canceled = refl

mutate-live :
    (mutate : SftpTransferState → SftpTransferState) (state : SftpTransferState)
    → IsProgress mutate
    → is_live state.status ≡ true
    → is_live (apply_transfer_controls (mutate state)).status ≡ true
unfolding apply_transfer_controls
mutate-live mutate state p l = ap is_live (p state).0 ∙ l

planned-live :
    (files bytes : ℤ) (state : SftpTransferState)
    → is_live (apply_transfer_controls (planned files bytes state)).status ≡ true
unfolding apply_transfer_controls planned
planned-live files bytes state = refl

-- Every step of a transfer that is valid leaves it valid.
pub step-IsValid : (before after : Transfer) → Step before after → IsValid before → IsValid after
unfolding IsValid begin_transfer update_transfer cancel_transfer pause_transfer resume_transfer wake
    planned resumed close_channel leave_file
step-IsValid _ _ (pause_called item) v = pause_from-IsValid item.state.status item refl v
step-IsValid _ _ (resume_called item) v = resume_from-IsValid item.state.status item refl v
step-IsValid _ _ (channel_closed item c h o) (v, m, s) = (v, m, (h, s))
step-IsValid _ _ (cancel_called item) v = v
step-IsValid _ _ (got_slot item now w) (v, m, s) =
    let (n, l) = waiting-IsValidAt _ _ _ _ _ w v in
    going-IsValid item (started now item.state) n (started-live now item.state) m s
step-IsValid _ _ (gave_up item message now w d) v =
    finish_transfer-IsValid item canceled message now is_canceled v
step-IsValid _ _ (checked item offset g) v = wait_if_paused-IsValid item offset g v
step-IsValid _ _ (progressed item mutate g p) (v, m, s) =
    let (n, l) = going-IsValidAt _ _ _ _ _ g v in
    live-IsValid item (apply_transfer_controls (mutate item.state)) l
      (mutate-live mutate item.state p l) (v, m, s)
step-IsValid _ _ (plan_applied item files bytes g) (v, m, s) =
    let (n, l) = going-IsValidAt _ _ _ _ _ g v in
    live-IsValid item (apply_transfer_controls (planned files bytes item.state)) l
      (planned-live files bytes item.state) (v, m, s)
step-IsValid _ _ (finished_run item status message now g f) v =
    finish_transfer-IsValid item status message now f v
step-IsValid _ _ (woken item c b d) (v, m, s) =
    let (n, l) = woken-IsValidAt _ _ _ _ _ _ b (closed-taken c item.taken item.closed s d) v in
    going-IsValid item (resumed item.state) n (running_again-live item.state.status l) m s
step-IsValid _ _ (refused item c status message now b d f) v =
    finish_transfer-IsValid item status message now f v
step-IsValid _ _ (file_refused item c b d r) (v, m, s) =
    (woken-IsValidAt _ _ _ _ _ _ b (closed-taken c item.taken item.closed s d) v, m, s)
step-IsValid _ _ (interrupted item c message now b d) v =
    finish_transfer-IsValid item canceled message now is_canceled v

-- Every transfer that the code can reach is valid. While its goroutine waits for a slot or goes on,
-- it has no channel, and it has not ended and is not paused. A goroutine that is blocked has a
-- channel that a ResumeTransfer took to close it, or the transfer is paused, a pause is requested,
-- and it has that channel still, which no ResumeTransfer took. Where the goroutine has ended, the
-- status is final. No channel is closed but one that was taken.
pub Reachable-IsValid : (item : Transfer) → Reachable item → IsValid item
unfolding IsValid IsValidAt start_transfer start_skipped_transfer apply_transfer_controls
    is_transfer_cancelable
Reachable-IsValid _ (at_start state) = ((refl, refl), tt, tt)
Reachable-IsValid _ (at_skip state) = (refl, tt, tt)
Reachable-IsValid _ (then_step before after r s) =
    step-IsValid before after s (Reachable-IsValid before r)
