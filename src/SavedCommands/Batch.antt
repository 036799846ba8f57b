-- ===== src/SavedCommands/Batch.antt =====
-- The rest of the history of internal/commands/service.go: the record of a batch, the list, and
-- the changes that a user makes.
use mathlib.Core.Option
use myapptest.Common.{
  ℕ, ℤ, pos, is_positive, ltb_ℤ, Bool, true, false, Option, some, List, [], ◌∷◌, map, Text, codes,
  ◌⊎◌, inl, inr, if◌then◌else◌, not, ◌&&◌, length, trim_space, is_empty,
}
use myapptest.SavedCommands.{
  CommandHistoryEntry, normalize_history_command, enrich_command_history_entry,
}
use myapptest.SavedCommands.Safety.{CommandSafetyResult, safe, unsafe, check_command_safety}
use myapptest.SavedCommands.Store.{
  Store, UpdateCommandHistoryRequest, ListCommandHistoryRequest, CommandListScope, scope_or_default,
}
use myapptest.SavedCommands.History.{
  RecordBatchCommandHistoryRequest, RecordResult, skipped, not_safe, no_targets, HistoryError,
  invalid_server, invalid_id, not_found, invalid_command, failed, history_limit, command_hash,
  unique_positive_int64s, after_prune,
}

abbrev pub is_all : CommandListScope → Bool
is_all CommandListScope.all = true
is_all _ = false

-- A limit that is not positive, or above that of the settings, becomes that of the settings.
unfoldable pub limit_within : (max : ℕ) → ℤ → ℤ
limit_within max limit =
    if not (is_positive limit) then pos max else if ltb_ℤ (pos max) limit then pos max else limit

abbrev pub is_empty_list : List ℤ → Bool
is_empty_list [] = true
is_empty_list (x ∷ xs) = false

module _ {W E : Type 0} (store : Store W E) (sha256_hex : Text → Text) (limit : Option ℤ) where
  unfoldable pub raw_batch_entry : (id now command submission : Text) → List ℤ → CommandHistoryEntry
  unfolding command_hash
  raw_batch_entry id now command submission targets = record {
    id = id;
    server_id = pos 0;
    server_name = [];
    session_id = [];
    command = command;
    preview = [];
    is_multiline = false;
    command_hash = command_hash store sha256_hex limit command;
    source = codes "batch";
    source_label = codes "批量";
    executed_at = now;
    target_server_ids = targets;
    target_count = length targets;
    batch_submission_id = submission;
  }

  unfoldable pub batch_entry : (id now command submission : Text) → List ℤ → CommandHistoryEntry
  unfolding enrich_command_history_entry raw_batch_entry
  batch_entry id now command submission targets =
      enrich_command_history_entry (raw_batch_entry id now command submission targets)

  -- What InsertBatchCommandHistory gave.
  unfoldable pub after_batch : (E ⊎ CommandHistoryEntry) × W → (HistoryError E ⊎ RecordResult) × W
  unfolding after_prune history_limit
  after_batch (inl e, w) = (inl (failed e), w)
  after_batch (inr entry, w) =
      after_prune store sha256_hex limit entry
        (store.prune_batch_command_history w (history_limit limit))

  unfoldable pub record_batch_safe :
      RecordBatchCommandHistoryRequest
      → (id now new_submission command : Text) → CommandSafetyResult
      → W
      → (HistoryError E ⊎ RecordResult) × W
  unfolding batch_entry after_batch unique_positive_int64s trim_space
  record_batch_safe request id now new_submission command (unsafe reason) w =
      (inr (skipped (not_safe reason)), w)
  record_batch_safe request id now new_submission command safe w =
      let targets = unique_positive_int64s request.successful_server_ids in
      let given = trim_space request.submission_id in
      let submission = if is_empty given then new_submission else given in
      if is_empty_list targets
      then (inr (skipped no_targets), w)
      else after_batch (
          store.insert_batch_command_history w (batch_entry id now command submission targets)
            targets submission)

  unfoldable pub record_batch_history :
      RecordBatchCommandHistoryRequest
      → (id now new_submission : Text) → W
      → (HistoryError E ⊎ RecordResult) × W
  unfolding record_batch_safe normalize_history_command check_command_safety
  record_batch_history request id now new_submission w =
      let command = normalize_history_command request.command in
      record_batch_safe request id now new_submission command (check_command_safety command) w

  unfoldable pub list_history :
      ListCommandHistoryRequest → W → List CommandHistoryEntry × Option (HistoryError E)
  unfolding limit_within history_limit enrich_command_history_entry
  list_history request w =
      let scope = scope_or_default request.scope in
      let asked = record request {
        scope = scope;
        limit = limit_within (history_limit limit) request.limit;
      } in
      let (entries, error) = store.list_command_history w asked in
      if not (is_all scope) && not (is_positive request.server_id)
      then ([], some invalid_server)
      else (map enrich_command_history_entry entries, Option.map failed error)

  unfoldable pub delete_history : Text → W → Option E × W
  unfolding trim_space
  delete_history id w = store.delete_command_history w (trim_space id)

  -- What UpdateCommandHistory gave.
  unfoldable pub updated :
      (E ⊎ CommandHistoryEntry) × W → (HistoryError E ⊎ CommandHistoryEntry) × W
  updated (inl e, w) = (inl (if store.is_no_rows e then not_found else failed e), w)
  updated (inr entry, w) = (inr entry, w)

  unfoldable pub update_safe :
      (id command : Text) → CommandSafetyResult → W → (HistoryError E ⊎ CommandHistoryEntry) × W
  unfolding updated command_hash
  update_safe id command (unsafe reason) w = (inl (invalid_command reason), w)
  update_safe id command safe w = updated (
      store.update_command_history w (record { id = id; command = command })
        (command_hash store sha256_hex limit command))

  unfoldable pub update_history :
      UpdateCommandHistoryRequest → W → (HistoryError E ⊎ CommandHistoryEntry) × W
  unfolding update_safe trim_space normalize_history_command check_command_safety
  update_history request w =
      let id = trim_space request.id in
      let command = normalize_history_command request.command in
      if is_empty id
      then (inl invalid_id, w)
      else update_safe id command (check_command_safety command) w

  unfoldable pub clear_history : ℤ → W → Option (HistoryError E) × W
  clear_history server_id w =
      if not (is_positive server_id)
      then (some invalid_server, w)
      else let (error, after) = store.clear_command_history w server_id in
        (Option.map failed error, after)
