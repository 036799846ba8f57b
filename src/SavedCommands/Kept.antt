-- ===== src/SavedCommands/Kept.antt =====
-- That RecordHistory of internal/commands/service.go writes only clean commands to its store.
use mathlib.Core.Path.{subst}
use myapptest.Common.{
  ℤ, is_positive, Option, none, some, Text, ◌≡◌, refl, sym, ap, ◌∙◌, ◌⊎◌, inl, inr, Bool-cases,
  ◌==◌, list_eq, nat_eq,
}
use myapptest.SavedCommands.{
  CommandHistoryEntry, normalize_history_command, enrich_command_history_entry,
  build_command_preview, is_multiline_history_command,
}
use myapptest.SavedCommands.Normal.{normalize_history_command_idem}
use myapptest.SavedCommands.Safety.{CommandSafetyResult, safe, unsafe, check_command_safety}
use myapptest.SavedCommands.Store.{Store}
use myapptest.SavedCommands.History.{
  RecordCommandHistoryRequest, record_history, record_safe, with_latest, find_existing,
  with_existing, recorded_of, after_insert, after_prune, new_entry, raw_entry, command_hash,
  history_limit,
}
use myapptest.SavedCommands.Clean.{IsClean, IsCleanEntry, Keeps}

module _ {W E : Type 0} (store : Store W E) (sha256_hex : Text → Text) (limit : Option ℤ) where
  -- Making an entry rich makes it clean, if its command is and it has its hash.
  pub enrich-IsCleanEntry :
      (entry : CommandHistoryEntry)
      → IsClean entry.command
      → entry.command_hash ≡ command_hash store sha256_hex limit entry.command
      → IsCleanEntry store sha256_hex limit (enrich_command_history_entry entry)
  unfolding IsCleanEntry IsClean command_hash enrich_command_history_entry
  enrich-IsCleanEntry entry (s, n) h = (
    subst IsClean (sym n) (s, n),
    h ∙ ap sha256_hex (sym (ap normalize_history_command n)),
    ap
        (λ command. record entry {
          command = command;
          preview = build_command_preview command;
          is_multiline = is_multiline_history_command command;
        })
        (ap normalize_history_command n),
  )

  module _ (I : W → Type 0) (k : Keeps store sha256_hex limit I) where
    recorded_of-kept :
        (r : (E ⊎ CommandHistoryEntry) × W) → I r.1 → I (recorded_of store sha256_hex limit r).1
    unfolding recorded_of
    recorded_of-kept (inl e, w) i = i
    recorded_of-kept (inr entry, w) i = i

    pub after_prune-kept :
        (entry : CommandHistoryEntry) (r : Option E × W)
        → I r.1
        → I (after_prune store sha256_hex limit entry r).1
    unfolding after_prune
    after_prune-kept entry (some e, w) i = i
    after_prune-kept entry (none, w) i = i

    after_insert-kept :
        (entry : CommandHistoryEntry) (r : Option E × W)
        → I r.1
        → I (after_insert store sha256_hex limit entry r).1
    unfolding after_insert
    after_insert-kept entry (some e, w) i = i
    after_insert-kept entry (none, w) i =
        after_prune-kept entry (store.prune_command_history w entry.server_id (history_limit limit))
          (k.prune_kept w entry.server_id (history_limit limit) i)

    with_existing-kept :
        (request : RecordCommandHistoryRequest) (id now command : Text)
        (found : E ⊎ Option CommandHistoryEntry) (w : W)
        → I w
        → IsClean command
        → store.find_command_history_by_hash w request.server_id
            (command_hash store sha256_hex limit command)
          ≡ found
        → I (with_existing store sha256_hex limit request id now command found w).1
    unfolding with_existing new_entry
    with_existing-kept request id now command (inl e) w i c f = i
    with_existing-kept request id now command (inr (some existing)) w i c f =
        recorded_of-kept
          (store.update_command_history_execution w existing.id request.session_id now)
          (k.execution_kept w existing.id request.session_id now i)
    with_existing-kept request id now command (inr none) w i c f =
        let entry = new_entry store sha256_hex limit request id now command in
        after_insert-kept entry (store.insert_command_history w entry) (
          k.insert_kept w entry i
            (enrich-IsCleanEntry (raw_entry store sha256_hex limit request id now command) c refl)
            f)

    find_existing-kept :
        (request : RecordCommandHistoryRequest) (id now command : Text) (w : W)
        → I w
        → IsClean command
        → I (find_existing store sha256_hex limit request id now command w).1
    unfolding find_existing
    find_existing-kept request id now command w i c =
        with_existing-kept request id now command _ w i c refl

    with_latest-kept :
        (request : RecordCommandHistoryRequest) (id now command : Text)
        (latest : E ⊎ Option CommandHistoryEntry) (w : W)
        → I w
        → IsClean command
        → I (with_latest store sha256_hex limit request id now command latest w).1
    unfolding with_latest
    with_latest-kept request id now command (inl e) w i c = i
    with_latest-kept request id now command (inr none) w i c =
        find_existing-kept request id now command w i c
    with_latest-kept request id now command (inr (some latest)) w i c =
        elim (Bool-cases (latest.command_hash == command_hash store sha256_hex limit command)) [
          | inl h ↦ rw h (
              recorded_of-kept
                (store.update_command_history_execution w latest.id request.session_id now)
                (k.execution_kept w latest.id request.session_id now i))
          | inr h ↦ rw h (find_existing-kept request id now command w i c)
        ]

    record_safe-kept :
        (request : RecordCommandHistoryRequest) (id now command : Text)
        (checked : CommandSafetyResult) (w : W)
        → I w
        → check_command_safety command ≡ checked
        → normalize_history_command command ≡ command
        → I (record_safe store sha256_hex limit request id now command checked w).1
    unfolding record_safe IsClean
    record_safe-kept request id now command (unsafe reason) w i c n = i
    record_safe-kept request id now command safe w i c n =
        elim (Bool-cases (is_positive request.server_id)) [
          | inl h ↦ rw h (
              with_latest-kept request id now command
                (store.latest_command_history w request.server_id) w i (c, n))
          | inr h ↦ rw h i
        ]

    pub record_history-kept :
        (request : RecordCommandHistoryRequest) (id now : Text) (w : W)
        → I w
        → I (record_history store sha256_hex limit request id now w).1
    unfolding record_history
    record_history-kept request id now w i =
        let command = normalize_history_command request.command in
        record_safe-kept request id now command (check_command_safety command) w i refl
          (normalize_history_command_idem request.command)
