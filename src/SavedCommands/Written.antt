-- ===== src/SavedCommands/Written.antt =====
-- What the service of internal/commands/service.go writes to its store, whatever calls it gets in
-- whatever order.
use myapptest.Common.{
  ℤ, Option, List, [], ◌∷◌, Text, ◌≡◌, refl, ◌⊎◌, inl, inr, if◌then◌else◌, Bool-cases, is_empty,
  trim_space, list_eq, nat_eq,
}
use myapptest.SavedCommands.{CommandHistoryEntry, normalize_history_command}
use myapptest.SavedCommands.Normal.{normalize_history_command_idem}
use myapptest.SavedCommands.Safety.{CommandSafetyResult, safe, unsafe, check_command_safety}
use myapptest.SavedCommands.Store.{Store, UpdateCommandHistoryRequest, SaveCommandFavoriteRequest}
use myapptest.SavedCommands.History.{
  RecordCommandHistoryRequest, RecordBatchCommandHistoryRequest, record_history, command_hash,
  history_limit, unique_positive_int64s,
}
use myapptest.SavedCommands.Batch.{
  record_batch_history, record_batch_safe, after_batch, batch_entry, raw_batch_entry,
  update_history, update_safe, updated, is_empty_list, delete_history, clear_history,
}
use myapptest.SavedCommands.Favorites.{
  create_favorite, update_favorite, delete_favorite, increment_favorite_use,
}
use myapptest.SavedCommands.Kept.{after_prune-kept, enrich-IsCleanEntry}
use myapptest.SavedCommands.Clean.{IsClean, Keeps}

-- A call that may change the store: each method of the service but those that list.
pub data Call : Type 0 where
  record_call : RecordCommandHistoryRequest → (id now : Text) → Call
  batch_call : RecordBatchCommandHistoryRequest → (id now new_submission : Text) → Call
  update_call : UpdateCommandHistoryRequest → Call
  delete_call : (id : Text) → Call
  clear_call : (server_id : ℤ) → Call
  create_favorite_call : SaveCommandFavoriteRequest → (id now : Text) → Call
  update_favorite_call : SaveCommandFavoriteRequest → Call
  delete_favorite_call : (id : Text) → Call
  use_favorite_call : (id now : Text) → Call

module _ {W E : Type 0} (store : Store W E) (sha256_hex to_lower : Text → Text)
    (limit : Option ℤ) where
  -- The world after calls, the first of which comes first.
  unfoldable pub run : List Call → W → W
  unfolding record_history record_batch_history update_history delete_history clear_history
      create_favorite update_favorite delete_favorite increment_favorite_use
  run [] w = w
  run (record_call request id now ∷ calls) w =
      run calls (record_history store sha256_hex limit request id now w).1
  run (batch_call request id now new_submission ∷ calls) w =
      run calls (record_batch_history store sha256_hex limit request id now new_submission w).1
  run (update_call request ∷ calls) w =
      run calls (update_history store sha256_hex limit request w).1
  run (delete_call id ∷ calls) w = run calls (delete_history store sha256_hex limit id w).1
  run (clear_call server_id ∷ calls) w =
      run calls (clear_history store sha256_hex limit server_id w).1
  run (create_favorite_call request id now ∷ calls) w =
      run calls (create_favorite to_lower store request id now w).1
  run (update_favorite_call request ∷ calls) w =
      run calls (update_favorite to_lower store request w).1
  run (delete_favorite_call id ∷ calls) w = run calls (delete_favorite to_lower store id w).1
  run (use_favorite_call id now ∷ calls) w =
      run calls (increment_favorite_use to_lower store id now w).1

  module _ (I : W → Type 0) (k : Keeps store sha256_hex limit I) where
    after_batch-kept :
        (r : (E ⊎ CommandHistoryEntry) × W) → I r.1 → I (after_batch store sha256_hex limit r).1
    unfolding after_batch
    after_batch-kept (inl e, w) i = i
    after_batch-kept (inr entry, w) i =
        after_prune-kept store sha256_hex limit I k entry
          (store.prune_batch_command_history w (history_limit limit))
          (k.prune_batch_kept w (history_limit limit) i)

    record_batch_safe-kept :
        (request : RecordBatchCommandHistoryRequest) (id now new_submission command : Text)
        (checked : CommandSafetyResult) (w : W)
        → I w
        → check_command_safety command ≡ checked
        → normalize_history_command command ≡ command
        → I
            (record_batch_safe store sha256_hex limit request id now new_submission command checked
              w).1
    unfolding record_batch_safe batch_entry IsClean
    record_batch_safe-kept request id now new_submission command (unsafe reason) w i c n = i
    record_batch_safe-kept request id now new_submission command safe w i c n =
        let targets = unique_positive_int64s request.successful_server_ids in
        let given = trim_space request.submission_id in
        let submission = if is_empty given then new_submission else given in
        elim (Bool-cases (is_empty_list targets)) [
          | inl h ↦ rw h i
          | inr h ↦ rw h (
              after_batch-kept
                (store.insert_batch_command_history w
                  (batch_entry store sha256_hex limit id now command submission targets) targets
                  submission)
                (k.batch_kept w
                  (batch_entry store sha256_hex limit id now command submission targets) targets
                  submission i
                  (enrich-IsCleanEntry store sha256_hex limit
                    (raw_batch_entry store sha256_hex limit id now command submission targets)
                    (c, n) refl)
                  h))
        ]

    pub record_batch_history-kept :
        (request : RecordBatchCommandHistoryRequest) (id now new_submission : Text) (w : W)
        → I w
        → I (record_batch_history store sha256_hex limit request id now new_submission w).1
    unfolding record_batch_history
    record_batch_history-kept request id now new_submission w i =
        let command = normalize_history_command request.command in
        record_batch_safe-kept request id now new_submission command (check_command_safety command)
          w i refl (normalize_history_command_idem request.command)

    updated-kept :
        (r : (E ⊎ CommandHistoryEntry) × W) → I r.1 → I (updated store sha256_hex limit r).1
    unfolding updated
    updated-kept (inl e, w) i = i
    updated-kept (inr entry, w) i = i

    update_safe-kept :
        (id command : Text) (checked : CommandSafetyResult) (w : W)
        → I w
        → check_command_safety command ≡ checked
        → normalize_history_command command ≡ command
        → I (update_safe store sha256_hex limit id command checked w).1
    unfolding update_safe IsClean
    update_safe-kept id command (unsafe reason) w i c n = i
    update_safe-kept id command safe w i c n =
        updated-kept
          (store.update_command_history w (record { id = id; command = command })
            (command_hash store sha256_hex limit command))
          (k.update_kept w (record { id = id; command = command }) i (c, n))

    pub update_history-kept :
        (request : UpdateCommandHistoryRequest) (w : W)
        → I w
        → I (update_history store sha256_hex limit request w).1
    unfolding update_history
    update_history-kept request w i = elim (Bool-cases (is_empty (trim_space request.id))) [
      | inl h ↦ rw h i
      | inr h ↦ rw h (
          update_safe-kept (trim_space request.id) (normalize_history_command request.command)
            (check_command_safety (normalize_history_command request.command)) w i refl
            (normalize_history_command_idem request.command))
    ]
