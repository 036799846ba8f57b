-- ===== src/SftpTransfer/Tests.antt =====
-- Examples for the transfers of internal/sftpmanager/manager_transfer.go.
use myapptest.Common.{ℕ, pos, true, false, some, [], codes, ◌≡◌, refl, ◌⊎◌, inl}
use myapptest.SftpTransfer.{
  SftpTransferState, SftpMode, Transfer, going, ended, blocked, queued, pausing, paused, completed,
  begin_transfer, finish_transfer, update_transfer, wait_if_paused, wake, is_transfer_cancelable,
  can_pause_now,
}
use myapptest.SftpTransfer.Control.{
  pause_transfer, resume_transfer, cancel_transfer, or_same, transfer_for_control, has_ended,
  other_context,
}
use myapptest.SftpTransfer.Steps.{
  start_transfer, Reachable, at_start, then_step, Steps, no_step, one_more, pause_called,
  cancel_called, got_slot, checked, finished_run, IsTaken,
}
use myapptest.SftpTransfer.Invariant.{IsValid}
use myapptest.SftpTransfer.Reached.{Reachable-IsValid}
use myapptest.SftpTransfer.Promises.{CanWake, resume_wakes, ended_final}
use myapptest.SftpTransfer.Pausing.{
  Working, at_once, works, progress_made, pause_followed, pause_lost, paused_by_user,
}

abbrev a_state : SftpTransferState
a_state = record {
  id = codes "t";
  connection_id = pos 7;
  context_id = codes "server:7";
  mode = SftpMode.sftp;
  recursive = false;
  total_bytes = pos 10;
  transferred_bytes = pos 0;
  current_file = [];
  current_file_bytes_done = pos 0;
  resume_offset = pos 0;
  files_total = pos 1;
  files_done = pos 0;
  failed_count = pos 0;
  status = queued;
  error_message = [];
  pause_requested = false;
  can_pause = true;
  can_resume = false;
  can_cancel = true;
  cancelable = true;
  started_at = [];
  finished_at = [];
}

unfoldable begun : Transfer
unfolding start_transfer begin_transfer
begun = begin_transfer (codes "now") (start_transfer a_state)

begun-Reachable : Reachable begun
unfolding begun
begun-Reachable =
    then_step _ _ (at_start a_state) (got_slot (start_transfer a_state) (codes "now") refl)

-- Paused by its user, and held at its fourth byte.
unfoldable waits : Transfer
unfolding begun paused_by_user wait_if_paused
waits = wait_if_paused (pos 4) (paused_by_user begun)

waits-Reachable : Reachable waits
unfolding waits
waits-Reachable =
    then_step _ _ (then_step _ _ begun-Reachable (pause_called begun))
      (checked (paused_by_user begun) (pos 4) refl)

waits_test : (waits.state.status ≡ paused) × (waits.state.resume_offset ≡ pos 4)
unfolding waits
waits_test = (refl, refl)

Reachable-IsValid_example : IsValid waits
Reachable-IsValid_example = Reachable-IsValid waits waits-Reachable

waits_blocked : waits.worker ≡ blocked 0
unfolding waits
waits_blocked = refl

resume_wakes_example :
    ((waits.state.status ≡ paused) ⊎ CanWake 0 waits)
    × IsTaken 0 (or_same (resume_transfer waits) waits)
    × CanWake 0 (or_same (resume_transfer waits) waits)
resume_wakes_example = resume_wakes waits 0 waits-Reachable waits_blocked

unfoldable done : Transfer
unfolding begun finish_transfer
done = finish_transfer completed [] (codes "later") begun

done_test : done.state.transferred_bytes ≡ pos 10
unfolding done
done_test = refl

late_pause_test : pause_transfer done ≡ inl (has_ended completed)
unfolding done pause_transfer
late_pause_test = refl

final_completed : is_transfer_cancelable completed ≡ false
unfolding is_transfer_cancelable
final_completed = refl

done-Reachable : Reachable done
unfolding done
done-Reachable =
    then_step _ _ begun-Reachable
      (finished_run begun completed [] (codes "later") refl final_completed)

done_ended : done.worker ≡ ended
unfolding done
done_ended = refl

unfoldable paused_late : Transfer
unfolding done paused_by_user cancel_transfer
paused_late = cancel_transfer (paused_by_user done)

late-Steps : Steps done paused_late
unfolding paused_late
late-Steps =
    one_more _ _ _ (pause_called done)
      (one_more _ _ _ (cancel_called (paused_by_user done)) (no_step _))

ended_final_example :
    (is_transfer_cancelable done.state.status ≡ false) × (paused_late.state ≡ done.state)
ended_final_example = ended_final done paused_late done-Reachable done_ended late-Steps

begun_going : begun.worker ≡ going
unfolding begun
begun_going = refl

begun_can_pause : can_pause_now begun.state.status ≡ true
unfolding begun can_pause_now
begun_can_pause = refl

-- Two bytes more, after the pause.
unfoldable progressed_too : Transfer
unfolding begun paused_by_user update_transfer
progressed_too =
    update_transfer (λ state. record state { transferred_bytes = pos 2 }) (paused_by_user begun)

begun_works : Working (paused_by_user begun) progressed_too
unfolding progressed_too
begun_works =
    works _ _ _
      (progress_made (paused_by_user begun) (λ state. record state { transferred_bytes = pos 2 })
        (λ state. (refl, refl)))
      (at_once _)

pause_followed_example :
    ((wait_if_paused (pos 4) progressed_too).state.status ≡ paused)
    × ((c : ℕ) × ((wait_if_paused (pos 4) progressed_too).worker ≡ blocked c))
pause_followed_example =
    pause_followed begun progressed_too (pos 4) begun-Reachable begun_going begun_can_pause
      begun_works

-- Resumed by its user, whose goroutine has not taken the lock yet.
unfoldable resumed_by_user : Transfer
unfolding waits resume_transfer
resumed_by_user = or_same (resume_transfer waits) waits

resumed_can_pause : can_pause_now resumed_by_user.state.status ≡ true
unfolding resumed_by_user can_pause_now
resumed_can_pause = refl

pause_lost_example :
    ((wake (paused_by_user resumed_by_user)).worker ≡ going)
    × ((wake (paused_by_user resumed_by_user)).state.status ≡ pausing)
    × (wait_if_paused (pos 9) (wake (paused_by_user resumed_by_user))
        ≡ wake (paused_by_user resumed_by_user))
    × ((paused_by_user (wake (paused_by_user resumed_by_user))).state.pause_requested ≡ false)
pause_lost_example = pause_lost resumed_by_user (pos 9) resumed_can_pause

other_context_test :
    transfer_for_control
      (record { connection_id = pos 7; context_id = codes "tab"; transfer_id = codes "t" })
      (some begun)
    ≡ inl other_context
unfolding transfer_for_control begun
other_context_test = refl
