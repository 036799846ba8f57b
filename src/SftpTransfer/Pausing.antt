-- ===== src/SftpTransfer/Pausing.antt =====
-- Which pauses are followed, and which is lost: PauseTransfer and WaitIfPaused of
-- internal/sftpmanager/manager_transfer.go.
use mathlib.Core.Path.{subst}
use myapptest.Common.{ℕ, ℤ, true, false, none, ◌≡◌, refl, sym, ap, ◌∙◌, inr, nat_eq}
use myapptest.SftpTransfer.{
  SftpTransferStatus, SftpTransferState, Transfer, going, blocked, queued, planning, running,
  pausing, paused, resuming, completed, partial_failed, failed, canceled, skipped, update_transfer,
  wait_if_paused, hold, held, wake, apply_transfer_controls, can_pause_now, resumed,
}
use myapptest.SftpTransfer.Control.{
  pause_transfer, pause_from, or_same, to_pausing, cancel_transfer, close_channel,
}
use myapptest.SftpTransfer.Steps.{Reachable, IsProgress, planned}
use myapptest.SftpTransfer.Invariant.{IsValid}
use myapptest.SftpTransfer.Reached.{Reachable-IsValid, wait_if_paused-held, wait_if_paused-free}
use myapptest.SftpTransfer.Preserved.{going-IsValidAt}

-- A pause of a transfer that shows that it can be paused.
pause_from-accepted :
    (s : SftpTransferStatus) (item : Transfer)
    → can_pause_now s ≡ true
    → pause_from s item ≡ inr (record item { state = to_pausing item.state })
unfolding pause_from can_pause_now
pause_from-accepted queued item h = refl
pause_from-accepted planning item h = refl
pause_from-accepted running item h = refl
pause_from-accepted resuming item h = refl
pause_from-accepted pausing item h = cc
pause_from-accepted paused item h = cc
pause_from-accepted completed item h = cc
pause_from-accepted partial_failed item h = cc
pause_from-accepted failed item h = cc
pause_from-accepted canceled item h = cc
pause_from-accepted skipped item h = cc

unfoldable pub paused_by_user : Transfer → Transfer
unfolding pause_transfer
paused_by_user item = or_same (pause_transfer item) item

paused_by_user-accepted :
    (item : Transfer)
    → can_pause_now item.state.status ≡ true
    → paused_by_user item ≡ record item { state = to_pausing item.state }
unfolding paused_by_user
paused_by_user-accepted item h =
    ap (λ r. or_same r item) (pause_from-accepted item.state.status item h)

hold-paused :
    (item : Transfer) (offset : ℤ)
    → ((hold offset none item).state.status ≡ paused)
      × ((hold offset none item).worker ≡ blocked item.made)
unfolding hold held apply_transfer_controls
hold-paused item offset = (refl, refl)

-- What comes between a pause and the next look of the goroutine: its progress, the plan of a
-- directory, and the calls of the user that do not resume the transfer.
pub data WorkStep : Transfer → Transfer → Type 0 where
  progress_made :
      (item : Transfer) (mutate : SftpTransferState → SftpTransferState)
      → IsProgress mutate
      → WorkStep item (update_transfer mutate item)
  plan_made :
      (item : Transfer) (files bytes : ℤ)
      → WorkStep item (update_transfer (planned files bytes) item)
  paused_again : (item : Transfer) → WorkStep item (paused_by_user item)
  closed_late : (item : Transfer) (c : ℕ) → WorkStep item (close_channel c item)
  cancelled_too : (item : Transfer) → WorkStep item (cancel_transfer item)

pub data Working : Transfer → Transfer → Type 0 where
  at_once : (item : Transfer) → Working item item
  works :
      (first next last : Transfer) → WorkStep first next → Working next last → Working first last

-- A pause that is requested, of a transfer that has no channel.
abbrev IsRequested : Transfer → Type 0
IsRequested item = (item.state.pause_requested ≡ true) × (item.resume_ch ≡ none)

pause_from-IsRequested :
    (s : SftpTransferStatus) (item : Transfer)
    → IsRequested item
    → IsRequested (or_same (pause_from s item) item)
unfolding pause_from to_pausing apply_transfer_controls
pause_from-IsRequested queued item (p, n) = (refl, n)
pause_from-IsRequested planning item (p, n) = (refl, n)
pause_from-IsRequested running item (p, n) = (refl, n)
pause_from-IsRequested resuming item (p, n) = (refl, n)
pause_from-IsRequested pausing item h = h
pause_from-IsRequested paused item h = h
pause_from-IsRequested completed item h = h
pause_from-IsRequested partial_failed item h = h
pause_from-IsRequested failed item h = h
pause_from-IsRequested canceled item h = h
pause_from-IsRequested skipped item h = h

step-IsRequested : (item next : Transfer) → WorkStep item next → IsRequested item → IsRequested next
unfolding update_transfer planned apply_transfer_controls paused_by_user cancel_transfer
    close_channel
step-IsRequested _ _ (progress_made item mutate p) (h, n) = ((p item.state).1 ∙ h, n)
step-IsRequested _ _ (plan_made item files bytes) h = h
step-IsRequested _ _ (paused_again item) h = pause_from-IsRequested item.state.status item h
step-IsRequested _ _ (closed_late item c) h = h
step-IsRequested _ _ (cancelled_too item) h = h

Working-IsRequested :
    (item later : Transfer) → Working item later → IsRequested item → IsRequested later
Working-IsRequested _ _ (at_once item) h = h
Working-IsRequested _ _ (works first next last s more) h =
    Working-IsRequested next last more (step-IsRequested first next s h)

-- While the goroutine goes on, a pause of a transfer that shows that it can be paused is followed:
-- whatever progress is made, plan is applied, pause or cancellation is called between, the next time
-- that the goroutine looks, the transfer is paused and the goroutine is blocked, unless the user
-- resumes the transfer before.
pub pause_followed :
    (item later : Transfer) (offset : ℤ)
    → Reachable item
    → item.worker ≡ going
    → can_pause_now item.state.status ≡ true
    → Working (paused_by_user item) later
    → ((wait_if_paused offset later).state.status ≡ paused)
      × ((c : ℕ) × ((wait_if_paused offset later).worker ≡ blocked c))
unfolding IsValid to_pausing apply_transfer_controls
pause_followed item later offset r g h steps =
    let (v, m, _) = Reachable-IsValid item r in
    let (n, l) = going-IsValidAt _ _ _ _ _ g v in
    let asked = subst IsRequested (sym (paused_by_user-accepted item h)) (refl, n) in
    let (p, none_later) = Working-IsRequested (paused_by_user item) later steps asked in
    let e = wait_if_paused-held later offset p none_later in
    let (s, b) = hold-paused later offset in
    (ap (λ t. t.state.status) e ∙ s, (later.made, ap (λ t. t.worker) e ∙ b))

pausing_lost :
    (item : Transfer) (offset : ℤ)
    → ((wake (record item { state = to_pausing item.state })).state.status ≡ pausing)
      × ((wake (record item { state = to_pausing item.state })).state.pause_requested ≡ false)
      × ((wake (record item { state = to_pausing item.state })).worker ≡ going)
unfolding wake update_transfer resumed to_pausing apply_transfer_controls
pausing_lost item offset = (refl, refl, refl)

pause_pausing :
    (item : Transfer)
    → item.state.status ≡ pausing
    → (paused_by_user item).state.pause_requested ≡ item.state.pause_requested
unfolding paused_by_user pause_from apply_transfer_controls
pause_pausing item e = ap (λ s. (or_same (pause_from s item) item).state.pause_requested) e

-- A goroutine that wakes after a pause loses it, as it does where PauseTransfer comes between
-- ResumeTransfer and the moment that the goroutine takes the lock. The pause is taken where the
-- transfer shows that it can be paused. Once awake the goroutine goes on, and the transfer is shown
-- as pausing; the goroutine does not stop the next time that it looks, and after another pause none
-- is requested.
pub pause_lost :
    (item : Transfer) (offset : ℤ)
    → can_pause_now item.state.status ≡ true
    → ((wake (paused_by_user item)).worker ≡ going)
      × ((wake (paused_by_user item)).state.status ≡ pausing)
      × (wait_if_paused offset (wake (paused_by_user item)) ≡ wake (paused_by_user item))
      × ((paused_by_user (wake (paused_by_user item))).state.pause_requested ≡ false)
pause_lost item offset h =
    let e = ap wake (paused_by_user-accepted item h) in
    let (s, p, w) = pausing_lost item offset in
    let free = ap (λ t. t.state.pause_requested) e ∙ p in
    let shown = ap (λ t. t.state.status) e ∙ s in
    (
      ap (λ t. t.worker) e ∙ w,
      shown,
      wait_if_paused-free (wake (paused_by_user item)) offset free,
      pause_pausing (wake (paused_by_user item)) shown ∙ free,
    )
