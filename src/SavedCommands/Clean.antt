-- ===== src/SavedCommands/Clean.antt =====
-- What the service of internal/commands/service.go writes to its store.
use myapptest.Common.{
  Bool, true, ◌⊎◌, ℕ, ℤ, false, Option, none, List, Text, ◌≡◌, inr, list_eq, nat_eq,
}
use myapptest.SavedCommands.{
  CommandHistoryEntry, normalize_history_command, enrich_command_history_entry,
}
use myapptest.SavedCommands.Safety.{safe, check_command_safety}
use myapptest.SavedCommands.Store.{
  Store, UpdateCommandHistoryRequest, CommandFavorite, SaveCommandFavoriteRequest,
}
use myapptest.SavedCommands.History.{command_hash}
use myapptest.SavedCommands.Batch.{is_empty_list}

-- A command that may be kept: normal, and safe.
unfoldable pub IsClean : Text → Type 0
IsClean command =
    (check_command_safety command ≡ safe) × (normalize_history_command command ≡ command)

-- A command of a favorite: normal, and safe where a secret is not allowed.
unfoldable pub MayBeFavorite : (allow_sensitive : Bool) → Text → Type 0
unfolding IsClean
MayBeFavorite allow_sensitive command =
    (normalize_history_command command ≡ command) × ((allow_sensitive ≡ true) ⊎ IsClean command)

module _ {W E : Type 0} (store : Store W E) (sha256_hex : Text → Text) (limit : Option ℤ) where
  -- An entry of a clean command, with its hash, its preview and its flag of several lines.
  unfoldable pub IsCleanEntry : CommandHistoryEntry → Type 0
  unfolding command_hash enrich_command_history_entry
  IsCleanEntry entry =
      IsClean entry.command
      × (entry.command_hash ≡ command_hash store sha256_hex limit entry.command)
      × (enrich_command_history_entry entry ≡ entry)

  -- A property of the world that the store keeps when it is given clean commands: a new entry where
  -- none with its hash is found for its server, an entry for several servers, whether its hash is
  -- there or not, and a change to a clean command with its hash; and favorites that may be.
  pub record Keeps (I : W → Type 0) : Type 0 where
    pub insert_kept :
        (w : W) (entry : CommandHistoryEntry)
        → I w
        → IsCleanEntry entry
        → store.find_command_history_by_hash w entry.server_id entry.command_hash ≡ inr none
        → I (store.insert_command_history w entry).1
    pub batch_kept :
        (w : W) (entry : CommandHistoryEntry) (targets : List ℤ) (submission : Text)
        → I w
        → IsCleanEntry entry
        → is_empty_list targets ≡ false
        → I (store.insert_batch_command_history w entry targets submission).1
    pub execution_kept :
        (w : W) (id session now : Text)
        → I w
        → I (store.update_command_history_execution w id session now).1
    pub update_kept :
        (w : W) (request : UpdateCommandHistoryRequest)
        → I w
        → IsClean request.command
        → I
            (store.update_command_history w request
              (command_hash store sha256_hex limit request.command)).1
    pub prune_kept :
        (w : W) (server_id : ℤ) (max : ℕ) → I w → I (store.prune_command_history w server_id max).1
    pub prune_batch_kept : (w : W) (max : ℕ) → I w → I (store.prune_batch_command_history w max).1
    pub delete_kept : (w : W) (id : Text) → I w → I (store.delete_command_history w id).1
    pub clear_kept : (w : W) (server_id : ℤ) → I w → I (store.clear_command_history w server_id).1
    pub create_favorite_kept :
        (w : W) (favorite : CommandFavorite) (allow_sensitive : Bool)
        → I w
        → MayBeFavorite allow_sensitive favorite.command
        → I (store.create_command_favorite w favorite).1
    pub update_favorite_kept :
        (w : W) (request : SaveCommandFavoriteRequest)
        → I w
        → MayBeFavorite request.allow_sensitive request.command
        → I (store.update_command_favorite w request).1
    pub delete_favorite_kept : (w : W) (id : Text) → I w → I (store.delete_command_favorite w id).1
    pub use_favorite_kept :
        (w : W) (id now : Text) → I w → I (store.increment_command_favorite_use w id now).1
