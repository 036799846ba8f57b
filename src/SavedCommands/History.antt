-- ===== src/SavedCommands/History.antt =====
-- The history of internal/commands/service.go: what is recorded, and how it is changed. The ids and
-- the time are arguments, and so is the hash, SHA-256 in hexadecimal.
use myapptest.Common.{
  ℕ, ℤ, pos, negsuc, is_positive, false, Option, none, some, List, [], ◌∷◌, Text, codes, ◌⊎◌, inl,
  inr, if◌then◌else◌, ltb, ◌||◌, not, ◌==◌, any, int_beq, int_eq, nat_eq, list_eq, trim_space,
  is_empty,
}
use myapptest.SavedCommands.{
  CommandHistoryEntry, normalize_history_command, enrich_command_history_entry,
}
use myapptest.SavedCommands.Safety.{
  CommandSafetyResult, SafetyReason, safe, unsafe, check_command_safety,
}
use myapptest.SavedCommands.Store.{Store}

pub record RecordCommandHistoryRequest : Type 0 where
  pub server_id : ℤ
  pub session_id : Text
  pub command : Text
  pub source : Text

pub record RecordBatchCommandHistoryRequest : Type 0 where
  pub command : Text
  pub successful_server_ids : List ℤ
  pub submission_id : Text

-- Why a command was skipped.
pub data SkipReason : Type 0 where
  not_safe : SafetyReason → SkipReason
  no_targets : SkipReason

pub data RecordResult : Type 0 where
  skipped : SkipReason → RecordResult
  recorded : CommandHistoryEntry → RecordResult

-- The errors of the service, and those of the store that it passes on.
pub data HistoryError (E : Type 0) : Type 0 where
  invalid_server invalid_id not_found : HistoryError E
  invalid_command : SafetyReason → HistoryError E
  failed : E → HistoryError E

-- The limit that the settings give, if there are any, kept within its bounds.
unfoldable pub history_limit : Option ℤ → ℕ
history_limit none = 2000
history_limit (some (negsuc n)) = 100
history_limit (some (pos n)) =
    if ltb 0 n then (if ltb n 100 then 100 else if ltb 20000 n then 20000 else n) else 2000

unfoldable pub source_or_default : Text → Text
unfolding trim_space
source_or_default source =
    let trimmed = trim_space source in if is_empty trimmed then codes "terminal" else trimmed

-- The loop, with the values that were seen.
unfoldable pub unique_from : (seen : List ℤ) → List ℤ → List ℤ
unique_from seen [] = []
unique_from seen (value ∷ values) =
    let same = unique_from seen values in
    let more = unique_from (value ∷ seen) values in
    if not (is_positive value) || any (int_beq value) seen then same else value ∷ more

unfoldable pub unique_positive_int64s : List ℤ → List ℤ
unfolding unique_from
unique_positive_int64s values = unique_from [] values

module _ {W E : Type 0} (store : Store W E) (sha256_hex : Text → Text) (limit : Option ℤ) where
  unfoldable pub command_hash : Text → Text
  unfolding normalize_history_command
  command_hash command = sha256_hex (normalize_history_command command)

  unfoldable pub recorded_of : (E ⊎ CommandHistoryEntry) × W → (HistoryError E ⊎ RecordResult) × W
  recorded_of (inl e, w) = (inl (failed e), w)
  recorded_of (inr entry, w) = (inr (recorded entry), w)

  unfoldable pub after_prune :
      CommandHistoryEntry → Option E × W → (HistoryError E ⊎ RecordResult) × W
  after_prune entry (some e, w) = (inl (failed e), w)
  after_prune entry (none, w) = (inr (recorded entry), w)

  unfoldable pub after_insert :
      CommandHistoryEntry → Option E × W → (HistoryError E ⊎ RecordResult) × W
  unfolding after_prune history_limit
  after_insert entry (some e, w) = (inl (failed e), w)
  after_insert entry (none, w) =
      after_prune entry (store.prune_command_history w entry.server_id (history_limit limit))

  unfoldable pub raw_entry :
      RecordCommandHistoryRequest → (id now command : Text) → CommandHistoryEntry
  unfolding source_or_default trim_space command_hash
  raw_entry request id now command = record {
    id = id;
    server_id = request.server_id;
    server_name = [];
    session_id = trim_space request.session_id;
    command = command;
    preview = [];
    is_multiline = false;
    command_hash = command_hash command;
    source = source_or_default request.source;
    source_label = [];
    executed_at = now;
    target_server_ids = [];
    target_count = 0;
    batch_submission_id = [];
  }

  unfoldable pub new_entry :
      RecordCommandHistoryRequest → (id now command : Text) → CommandHistoryEntry
  unfolding enrich_command_history_entry raw_entry
  new_entry request id now command = enrich_command_history_entry (raw_entry request id now command)

  -- What FindCommandHistoryByHash gave.
  unfoldable pub with_existing :
      RecordCommandHistoryRequest
      → (id now command : Text) → E ⊎ Option CommandHistoryEntry
      → W
      → (HistoryError E ⊎ RecordResult) × W
  unfolding recorded_of after_insert new_entry
  with_existing request id now command (inl e) w = (inl (failed e), w)
  with_existing request id now command (inr (some existing)) w =
      recorded_of (store.update_command_history_execution w existing.id request.session_id now)
  with_existing request id now command (inr none) w =
      let entry = new_entry request id now command in
      after_insert entry (store.insert_command_history w entry)

  unfoldable pub find_existing :
      RecordCommandHistoryRequest
      → (id now command : Text) → W
      → (HistoryError E ⊎ RecordResult) × W
  unfolding with_existing command_hash
  find_existing request id now command w =
      with_existing request id now command
        (store.find_command_history_by_hash w request.server_id (command_hash command)) w

  -- What LatestCommandHistory gave.
  unfoldable pub with_latest :
      RecordCommandHistoryRequest
      → (id now command : Text) → E ⊎ Option CommandHistoryEntry
      → W
      → (HistoryError E ⊎ RecordResult) × W
  unfolding find_existing recorded_of command_hash
  with_latest request id now command (inl e) w = (inl (failed e), w)
  with_latest request id now command (inr none) w = find_existing request id now command w
  with_latest request id now command (inr (some latest)) w =
      if latest.command_hash == command_hash command
      then recorded_of (store.update_command_history_execution w latest.id request.session_id now)
      else find_existing request id now command w

  unfoldable pub record_safe :
      RecordCommandHistoryRequest
      → (id now command : Text) → CommandSafetyResult
      → W
      → (HistoryError E ⊎ RecordResult) × W
  unfolding with_latest
  record_safe request id now command (unsafe reason) w = (inr (skipped (not_safe reason)), w)
  record_safe request id now command safe w =
      if not (is_positive request.server_id)
      then (inl invalid_server, w)
      else with_latest request id now command (store.latest_command_history w request.server_id) w

  unfoldable pub record_history :
      RecordCommandHistoryRequest → (id now : Text) → W → (HistoryError E ⊎ RecordResult) × W
  unfolding record_safe normalize_history_command check_command_safety
  record_history request id now w =
      let command = normalize_history_command request.command in
      record_safe request id now command (check_command_safety command) w
