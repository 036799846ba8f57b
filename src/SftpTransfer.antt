-- ===== src/SftpTransfer.antt =====
-- internal/sftpmanager/manager_transfer.go: the state of one transfer, and every place that changes
-- its status. A channel is a number. The fields of percentages and speeds, which are floating point
-- numbers, are left out.
pub mod Control
pub mod Steps
pub mod Invariant
pub mod Preserved
pub mod Reached
pub mod Promises
pub mod Pausing
mod Tests
use myapptest.Common.{
  ℕ, suc, ℤ, pos, is_positive, ltb_ℤ, Bool, true, false, Option, none, some, List, [], Text, codes,
  ◌||◌, ◌&&◌, not, if◌then◌else◌,
}

pub data SftpTransferStatus : Type 0 where
  queued planning running pausing paused resuming : SftpTransferStatus
  completed partial_failed failed canceled skipped : SftpTransferStatus

pub data SftpMode : Type 0 where
  sftp scp : SftpMode

pub record SftpTransferState : Type 0 where
  pub id : Text
  pub connection_id : ℤ
  pub context_id : Text
  pub mode : SftpMode
  pub recursive : Bool
  pub total_bytes : ℤ
  pub transferred_bytes : ℤ
  pub current_file : Text
  pub current_file_bytes_done : ℤ
  pub resume_offset : ℤ
  pub files_total : ℤ
  pub files_done : ℤ
  pub failed_count : ℤ
  pub status : SftpTransferStatus
  pub error_message : Text
  pub pause_requested : Bool
  pub can_pause : Bool
  pub can_resume : Bool
  pub can_cancel : Bool
  pub cancelable : Bool
  pub started_at : Text
  pub finished_at : Text

unfoldable pub is_transfer_cancelable : SftpTransferStatus → Bool
is_transfer_cancelable queued = true
is_transfer_cancelable planning = true
is_transfer_cancelable running = true
is_transfer_cancelable pausing = true
is_transfer_cancelable paused = true
is_transfer_cancelable resuming = true
is_transfer_cancelable _ = false

unfoldable pub can_pause_now : SftpTransferStatus → Bool
can_pause_now queued = true
can_pause_now planning = true
can_pause_now running = true
can_pause_now resuming = true
can_pause_now _ = false

unfoldable pub can_resume_now : SftpTransferStatus → Bool
can_resume_now paused = true
can_resume_now _ = false

unfoldable pub apply_transfer_controls : SftpTransferState → SftpTransferState
unfolding is_transfer_cancelable can_pause_now can_resume_now
apply_transfer_controls state = record state {
  can_pause = can_pause_now state.status;
  can_resume = can_resume_now state.status;
  can_cancel = is_transfer_cancelable state.status;
  cancelable = is_transfer_cancelable state.status;
}

-- What the goroutine of the transfer is at: it waits for a slot of the session, it goes on, it is
-- blocked until a channel is closed, or it has ended.
pub data Worker : Type 0 where
  waiting going ended : Worker
  blocked : ℕ → Worker

-- A transfer with its goroutine: the channels below `made` exist, those of `taken` were taken by a
-- ResumeTransfer to be closed, and those of `closed` are closed.
pub record Transfer : Type 0 where
  pub state : SftpTransferState
  pub resume_ch : Option ℕ
  pub made : ℕ
  pub taken : List ℕ
  pub closed : List ℕ
  pub context_done : Bool
  pub worker : Worker

-- UpdateTransfer, with the change that it makes.
unfoldable pub update_transfer : (SftpTransferState → SftpTransferState) → Transfer → Transfer
unfolding apply_transfer_controls
update_transfer mutate item = record item { state = apply_transfer_controls (mutate item.state) }

abbrev pub is_finished_well : SftpTransferStatus → Bool
is_finished_well completed = true
is_finished_well partial_failed = true
is_finished_well _ = false

-- The numbers of a transfer that has come to its end.
unfoldable pub finish_numbers : SftpTransferState → SftpTransferState
finish_numbers state =
    let all_bytes = not state.recursive || not (ltb_ℤ state.transferred_bytes state.total_bytes) in
    let few_files = is_positive state.files_total && ltb_ℤ state.files_done state.files_total in
    record state {
      transferred_bytes = if all_bytes then state.total_bytes else state.transferred_bytes;
      files_done = if few_files then state.files_total else state.files_done;
    }

-- The change that FinishTransfer makes.
unfoldable pub finished :
    SftpTransferStatus → (message now : Text) → SftpTransferState → SftpTransferState
unfolding finish_numbers
finished status message now state =
    let ended_state = record state {
      status = status;
      finished_at = now;
      error_message = message;
      cancelable = false;
    } in
    if is_finished_well status then finish_numbers ended_state else ended_state

-- FinishTransfer, after which the goroutine returns.
unfoldable pub finish_transfer : SftpTransferStatus → (message now : Text) → Transfer → Transfer
unfolding update_transfer finished
finish_transfer status message now item =
    record (update_transfer (finished status message now) item) { worker = ended }

-- The change at the start of RunTransfer.
unfoldable pub started : (now : Text) → SftpTransferState → SftpTransferState
started now state =
    if state.recursive
    then record state { status = planning; current_file = codes "扫描中"; started_at = now }
    else record state { status = running; started_at = now }

-- RunTransfer once it has its slot.
unfoldable pub begin_transfer : (now : Text) → Transfer → Transfer
unfolding update_transfer started
begin_transfer now item = record (update_transfer (started now) item) { worker = going }

-- The state of a transfer that waits for the user, at an offset that is known.
unfoldable pub held : (offset : ℤ) → SftpTransferState → SftpTransferState
unfolding apply_transfer_controls
held offset state =
    let known = not (ltb_ℤ offset (pos 0)) in
    apply_transfer_controls (record state {
      status = paused;
      resume_offset = if known then offset else state.resume_offset;
      current_file_bytes_done = if known then offset else state.current_file_bytes_done;
    })

-- The channel that the transfer has, or a new one.
unfoldable pub hold : (offset : ℤ) → Option ℕ → Transfer → Transfer
unfolding held
hold offset (some c) item = record item { state = held offset item.state; worker = blocked c }
hold offset none item = record item {
  state = held offset item.state;
  resume_ch = some item.made;
  made = suc item.made;
  worker = blocked item.made;
}

-- WaitIfPaused up to its select.
unfoldable pub wait_if_paused : (offset : ℤ) → Transfer → Transfer
unfolding hold
wait_if_paused offset item =
    if item.state.pause_requested then hold offset item.resume_ch item else item

-- A transfer that was paused, or is to go on, runs.
abbrev pub running_again : SftpTransferStatus → SftpTransferStatus
running_again paused = running
running_again resuming = running
running_again status = status

-- The change at the end of WaitIfPaused.
unfoldable pub resumed : SftpTransferState → SftpTransferState
resumed state = record state {
  status = running_again state.status;
  pause_requested = false;
  error_message = [];
}

-- WaitIfPaused from its select on, where nothing has changed under the transfer.
unfoldable pub wake : Transfer → Transfer
unfolding update_transfer resumed
wake item = record (update_transfer resumed item) { worker = going }
