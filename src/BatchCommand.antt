-- ===== src/BatchCommand.antt =====
-- internal/batchcommand/manager.go and internal/domain/batch_command.go: one command run on many
-- servers. This file has the data, and the normalisation of a start request. `Interactive` has the
-- test for commands that need a terminal, `Task` and `Lifecycle` what happens to one task, and
-- `Manager` the table of tasks; in `Calls` the methods for one task find it in that table.
-- A point in time is its nanoseconds since the epoch, and `none` for the string "" or a zero time.
pub mod Interactive
pub mod Task
pub mod Lifecycle
pub mod Results
pub mod Manager
pub mod Requests
pub mod Aggregate
pub mod Events
pub mod Frozen
pub mod Output
pub mod Cancel
pub mod Starting
pub mod Calls
pub mod Whole
mod Tests
use myapptest.Common.{
  ℕ, ℤ, pos, int_eq, is_positive, ltb_ℤ, Bool, true, false, Option, String, List, [], ◌∷◌, ◌==◌,
  ◌||◌, not, if◌then◌else◌, any, Text, trim_space,
}

pub data BatchCommandStatus : Type 0 where
  queued connecting running completed failed canceled timeout : BatchCommandStatus

abbrev pub Instant : Type 0
Instant = ℕ

pub record ServerResult : Type 0 where
  pub task_id : Text
  pub server_id : ℤ
  pub server_name : Text
  pub host : Text
  pub status : BatchCommandStatus
  pub exit_code : ℤ
  pub stdout : List ℕ
  pub stderr : List ℕ
  pub started_at : Option Instant
  pub completed_at : Option Instant
  pub duration_ms : ℕ
  pub error : Text
  pub output_truncated : Bool

pub record BatchCommandTask : Type 0 where
  pub task_id : Text
  pub command : Text
  pub server_ids : List ℤ
  pub status : BatchCommandStatus
  pub created_at : Option Instant
  pub started_at : Option Instant
  pub completed_at : Option Instant
  pub concurrency : ℤ
  pub timeout_seconds : ℤ
  pub results : List ServerResult

pub record StartRequest : Type 0 where
  pub command : Text
  pub server_ids : List ℤ
  pub timeout_seconds : ℤ
  pub concurrency : ℤ

abbrev pub is_active_status : BatchCommandStatus → Bool
is_active_status BatchCommandStatus.queued = true
is_active_status BatchCommandStatus.connecting = true
is_active_status BatchCommandStatus.running = true
is_active_status _ = false

-- The loop of `uniquePositiveServerIDs`; `seen` is the ids taken so far.
unique_from : List ℤ → List ℤ → List ℤ
unique_from seen [] = []
unique_from seen (id ∷ ids) =
    let skipped = unique_from seen ids in
    let taken = id ∷ unique_from (id ∷ seen) ids in
    if not (is_positive id) || any (λ s. s == id) seen then skipped else taken

unfoldable pub unique_positive_server_ids : List ℤ → List ℤ
unfolding unique_from
unique_positive_server_ids ids = unique_from [] ids

-- A setting: its default where it is not positive, and then cut to its range.
abbrev bounded : ℤ → ℤ → ℤ → ℤ → ℤ
bounded default minimum maximum x =
    let set = if is_positive x then x else default in
    let low = if ltb_ℤ set minimum then minimum else set in
    if ltb_ℤ maximum low then maximum else low

unfoldable pub normalize_start_request : StartRequest → StartRequest
unfolding unique_positive_server_ids
normalize_start_request r = record {
  command = trim_space r.command;
  server_ids = unique_positive_server_ids r.server_ids;
  timeout_seconds = bounded (pos 60) (pos 5) (pos 3600) r.timeout_seconds;
  concurrency = bounded (pos 3) (pos 1) (pos 10) r.concurrency;
}
