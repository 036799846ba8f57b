-- ===== src/SftpTransfer/Steps.antt =====
-- What can happen to a transfer: its goroutine, RunTransfer of
-- internal/sftpmanager/manager_transfer.go, in pieces that its mutex keeps whole, between the calls
-- of the user.
use myapptest.Common.{ℕ, ℤ, pos, true, false, none, [], Text, codes, ◌≡◌, any, nat_beq}
use myapptest.SftpTransfer.{
  SftpTransferStatus, SftpTransferState, Transfer, waiting, going, ended, blocked, queued, running,
  skipped, canceled, update_transfer, finish_transfer, begin_transfer, wait_if_paused, wake,
  apply_transfer_controls, is_transfer_cancelable,
}
use myapptest.SftpTransfer.Control.{
  pause_transfer, resume_transfer, close_channel, cancel_transfer, or_same,
}

-- StartTransfer: a transfer that is queued, whose goroutine waits for a slot.
unfoldable pub start_transfer : SftpTransferState → Transfer
unfolding apply_transfer_controls
start_transfer state = record {
  state = apply_transfer_controls (record state { status = queued; pause_requested = false });
  resume_ch = none;
  made = 0;
  taken = [];
  closed = [];
  context_done = false;
  worker = waiting;
}

-- A change of the bytes, the files and the texts of a transfer.
abbrev pub IsProgress : (SftpTransferState → SftpTransferState) → Type 0
IsProgress mutate =
    (state : SftpTransferState)
    → ((mutate state).status ≡ state.status)
      × ((mutate state).pause_requested ≡ state.pause_requested)

-- SkippedTransfer: a transfer that has no goroutine, and is at its end.
unfoldable pub start_skipped_transfer : SftpTransferState → Transfer
start_skipped_transfer state = record {
  state = record state {
    status = skipped;
    transferred_bytes = pos 0;
    files_total = pos 1;
    files_done = pos 1;
    error_message = codes "已跳过同名文件";
    pause_requested = false;
    recursive = false;
    current_file_bytes_done = pos 0;
    resume_offset = pos 0;
    failed_count = pos 0;
    can_pause = false;
    can_resume = false;
    can_cancel = false;
    cancelable = false;
  };
  resume_ch = none;
  made = 0;
  taken = [];
  closed = [];
  context_done = false;
  worker = ended;
}

-- WaitIfPaused where its check refuses, in a transfer of a directory.
unfoldable pub leave_file : Transfer → Transfer
leave_file item = record item { worker = going }

-- ApplyRecursivePlan: a transfer whose files are known runs.
unfoldable pub planned : (files bytes : ℤ) → SftpTransferState → SftpTransferState
planned files bytes state = record state {
  status = running;
  total_bytes = bytes;
  files_total = files;
  files_done = pos 0;
  current_file = [];
}

abbrev pub IsTaken : ℕ → Transfer → Type 0
IsTaken c item = any (nat_beq c) item.taken ≡ true

abbrev pub IsClosed : ℕ → Transfer → Type 0
IsClosed c item = any (nat_beq c) item.closed ≡ true

pub data Step : Transfer → Transfer → Type 0 where
  -- The calls of the user.
  pause_called : (item : Transfer) → Step item (or_same (pause_transfer item) item)
  resume_called : (item : Transfer) → Step item (or_same (resume_transfer item) item)
  -- A ResumeTransfer that took a channel closes it, some time after.
  channel_closed :
      (item : Transfer) (c : ℕ)
      → IsTaken c item
      → any (nat_beq c) item.closed ≡ false
      → Step item (close_channel c item)
  cancel_called : (item : Transfer) → Step item (cancel_transfer item)
  -- The goroutine gets its slot, or sees that the context is done before.
  got_slot :
      (item : Transfer) (now : Text) → item.worker ≡ waiting → Step item (begin_transfer now item)
  gave_up :
      (item : Transfer) (message now : Text)
      → item.worker ≡ waiting
      → item.context_done ≡ true
      → Step item (finish_transfer canceled message now item)
  -- It looks whether it is to pause, which it does now and then while it goes on.
  checked :
      (item : Transfer) (offset : ℤ) → item.worker ≡ going → Step item (wait_if_paused offset item)
  progressed :
      (item : Transfer) (mutate : SftpTransferState → SftpTransferState)
      → item.worker ≡ going
      → IsProgress mutate
      → Step item (update_transfer mutate item)
  plan_applied :
      (item : Transfer) (files bytes : ℤ)
      → item.worker ≡ going
      → Step item (update_transfer (planned files bytes) item)
  -- It is done, or has failed, or sees that the context is.
  finished_run :
      (item : Transfer) (status : SftpTransferStatus) (message now : Text)
      → item.worker ≡ going
      → is_transfer_cancelable status ≡ false
      → Step item (finish_transfer status message now item)
  -- Its channel is closed, and it goes on, or finds that a file has changed under it. A transfer
  -- of a directory counts that as a failure of the file and goes on with the next one, and its
  -- status is what it was.
  woken :
      (item : Transfer) (c : ℕ) → item.worker ≡ blocked c → IsClosed c item → Step item (wake item)
  refused :
      (item : Transfer) (c : ℕ) (status : SftpTransferStatus) (message now : Text)
      → item.worker ≡ blocked c
      → IsClosed c item
      → is_transfer_cancelable status ≡ false
      → Step item (finish_transfer status message now item)
  file_refused :
      (item : Transfer) (c : ℕ)
      → item.worker ≡ blocked c
      → IsClosed c item
      → item.state.recursive ≡ true
      → Step item (leave_file item)
  -- The context is done while it is blocked.
  interrupted :
      (item : Transfer) (c : ℕ) (message now : Text)
      → item.worker ≡ blocked c
      → item.context_done ≡ true
      → Step item (finish_transfer canceled message now item)

pub data Reachable : Transfer → Type 0 where
  at_start : (state : SftpTransferState) → Reachable (start_transfer state)
  at_skip : (state : SftpTransferState) → Reachable (start_skipped_transfer state)
  then_step : (before after : Transfer) → Reachable before → Step before after → Reachable after

pub data Steps : Transfer → Transfer → Type 0 where
  no_step : (item : Transfer) → Steps item item
  one_more : (first next last : Transfer) → Step first next → Steps next last → Steps first last
