-- ===== src/SftpTransfer/Control.antt =====
-- PauseTransfer, ResumeTransfer and CancelTransfer of internal/sftpmanager/manager_transfer.go, on
-- the transfer that they find.
use myapptest.Common.{
  ℕ, ℤ, true, false, Option, none, some, List, [], ◌∷◌, Text, codes, ◌⊎◌, inl, inr, if◌then◌else◌,
  not, ◌==◌, int_eq, list_eq, nat_eq, trim_space, is_empty, decimal, ◌++◌,
}
use myapptest.SftpTransfer.{
  SftpTransferStatus, SftpMode, SftpTransferState, Transfer, apply_transfer_controls, queued,
  planning, running, pausing, paused, resuming, sftp, scp,
}

pub data ControlError : Type 0 where
  unknown_transfer other_server other_context : ControlError
  has_ended cannot_resume : SftpTransferStatus → ControlError

pub record SftpTransferControlRequest : Type 0 where
  pub connection_id : ℤ
  pub context_id : Text
  pub transfer_id : Text

unfoldable pub normalize_context_id : ℤ → Text → Text
unfolding trim_space decimal
normalize_context_id connection_id context_id =
    let trimmed = trim_space context_id in
    if is_empty trimmed then codes "server:" ++ decimal connection_id else trimmed

-- The check of TransferForControl on the transfer that has the id, if there is one.
unfoldable pub transfer_for_control :
    SftpTransferControlRequest → Option Transfer → ControlError ⊎ Transfer
unfolding normalize_context_id trim_space
transfer_for_control request none = inl unknown_transfer
transfer_for_control request (some item) =
    if is_empty (trim_space request.transfer_id)
    then inl unknown_transfer
    else if not (item.state.connection_id == request.connection_id)
    then inl other_server
    else if not
        (item.state.context_id == normalize_context_id request.connection_id request.context_id)
    then inl other_context
    else inr item

abbrev pause_message : SftpMode → Text → Text
pause_message scp message = codes "SCP 模式将在当前文件完成后暂停"
pause_message sftp message = message

-- What a pause does to a state that it is a change to.
unfoldable pub to_pausing : SftpTransferState → SftpTransferState
unfolding apply_transfer_controls
to_pausing state = apply_transfer_controls (record state {
  pause_requested = true;
  status = pausing;
  error_message = pause_message state.mode state.error_message;
})

-- The switch of PauseTransfer on the status.
unfoldable pub pause_from : SftpTransferStatus → Transfer → ControlError ⊎ Transfer
unfolding apply_transfer_controls to_pausing
pause_from paused item = inr (record item { state = apply_transfer_controls item.state })
pause_from pausing item = inr (record item { state = apply_transfer_controls item.state })
pause_from queued item = inr (record item { state = to_pausing item.state })
pause_from planning item = inr (record item { state = to_pausing item.state })
pause_from running item = inr (record item { state = to_pausing item.state })
pause_from resuming item = inr (record item { state = to_pausing item.state })
pause_from status item = inl (has_ended status)

unfoldable pub pause_transfer : Transfer → ControlError ⊎ Transfer
unfolding pause_from
pause_transfer item = pause_from item.state.status item

-- The channels that are to be closed, with the one that is taken now, if there is one.
unfoldable pub take_channel : Option ℕ → List ℕ → List ℕ
take_channel none taken = taken
take_channel (some c) taken = c ∷ taken

-- The state to go on with.
unfoldable pub to_status : SftpTransferStatus → SftpTransferState → SftpTransferState
unfolding apply_transfer_controls
to_status status state =
    apply_transfer_controls
      (record state { pause_requested = false; status = status; error_message = [] })

abbrev pub after_pausing : Option ℕ → SftpTransferStatus
after_pausing none = running
after_pausing (some c) = resuming

-- The transfer without its channel, which is closed once the lock is given back.
unfoldable pub go_on : SftpTransferStatus → Transfer → Transfer
unfolding to_status take_channel
go_on status item = record item {
  state = to_status status item.state;
  resume_ch = none;
  taken = take_channel item.resume_ch item.taken;
}

unfoldable pub forget_pause : Transfer → Transfer
unfolding apply_transfer_controls
forget_pause item = record item {
  state = apply_transfer_controls (record item.state { pause_requested = false });
}

-- The switch of ResumeTransfer on the status.
unfoldable pub resume_from : SftpTransferStatus → Transfer → ControlError ⊎ Transfer
unfolding go_on forget_pause
resume_from paused item = inr (go_on resuming item)
resume_from pausing item = inr (go_on (after_pausing item.resume_ch) item)
resume_from running item = inr (forget_pause item)
resume_from planning item = inr (forget_pause item)
resume_from queued item = inr (forget_pause item)
resume_from resuming item = inr (forget_pause item)
resume_from status item = inl (cannot_resume status)

-- ResumeTransfer up to its unlock.
unfoldable pub resume_transfer : Transfer → ControlError ⊎ Transfer
unfolding resume_from
resume_transfer item = resume_from item.state.status item

-- The close at the end of ResumeTransfer.
unfoldable pub close_channel : ℕ → Transfer → Transfer
close_channel c item = record item { closed = c ∷ item.closed }

unfoldable pub cancel_transfer : Transfer → Transfer
cancel_transfer item = record item { context_done = true }

-- A call that returns an error leaves the transfer as it is.
abbrev pub or_same : ControlError ⊎ Transfer → Transfer → Transfer
or_same (inl e) item = item
or_same (inr changed) item = changed
