-- ===== src/SavedCommands/Store.antt =====
-- The store that internal/commands/service.go writes to, as an interface: the part of its `Store`
-- that history and favorites use. A read takes the world as it is; a call that writes gives the
-- world that it leaves, also where it fails.
use myapptest.Common.{ℕ, ℤ, Bool, Option, List, [], Text, ◌⊎◌}
use myapptest.SavedCommands.{CommandHistoryEntry, CommandScope}

pub record UpdateCommandHistoryRequest : Type 0 where
  pub id : Text
  pub command : Text

pub record CommandFavorite : Type 0 where
  pub id : Text
  pub title : Text
  pub command : Text
  pub description : Text
  pub scope : CommandScope
  pub server_id : Option ℤ
  pub server_name : Text
  pub group_id : Option ℤ
  pub group_name : Text
  pub tags : List Text
  pub sort_order : ℤ
  pub use_count : ℤ
  pub created_at : Text
  pub updated_at : Text
  pub last_used_at : Text

pub record SaveCommandFavoriteRequest : Type 0 where
  pub id : Text
  pub title : Text
  pub command : Text
  pub description : Text
  pub scope : CommandScope
  pub server_id : Option ℤ
  pub group_id : Option ℤ
  pub tags : List Text
  pub sort_order : ℤ
  pub allow_sensitive : Bool

-- The scope that a list is asked for; the empty text is one of the others.
pub data CommandListScope : Type 0 where
  all current_server : CommandListScope
  other : Text → CommandListScope

pub record ListCommandHistoryRequest : Type 0 where
  pub server_id : ℤ
  pub scope : CommandListScope
  pub query : Text
  pub limit : ℤ

pub record ListCommandFavoritesRequest : Type 0 where
  pub server_id : ℤ
  pub group_id : Option ℤ
  pub scope : CommandListScope
  pub query : Text

-- An empty scope is the current server's.
abbrev pub scope_or_default : CommandListScope → CommandListScope
scope_or_default (CommandListScope.other []) = CommandListScope.current_server
scope_or_default scope = scope

-- `W` is the world, and `E` its errors; `is_no_rows` is `errors.Is(err, sql.ErrNoRows)`.
pub record Store (W E : Type 0) : Type 0 where
  pub is_no_rows : E → Bool
  pub list_command_history : W → ListCommandHistoryRequest → List CommandHistoryEntry × Option E
  pub latest_command_history : W → ℤ → E ⊎ Option CommandHistoryEntry
  pub find_command_history_by_hash : W → ℤ → Text → E ⊎ Option CommandHistoryEntry
  pub insert_command_history : W → CommandHistoryEntry → Option E × W
  pub insert_batch_command_history :
      W → CommandHistoryEntry → List ℤ → Text → (E ⊎ CommandHistoryEntry) × W
  pub update_command_history_execution : W → Text → Text → Text → (E ⊎ CommandHistoryEntry) × W
  pub update_command_history :
      W → UpdateCommandHistoryRequest → Text → (E ⊎ CommandHistoryEntry) × W
  pub delete_command_history : W → Text → Option E × W
  pub clear_command_history : W → ℤ → Option E × W
  pub prune_command_history : W → ℤ → ℕ → Option E × W
  pub prune_batch_command_history : W → ℕ → Option E × W
  pub list_command_favorites : W → ListCommandFavoritesRequest → List CommandFavorite × Option E
  pub create_command_favorite : W → CommandFavorite → (E ⊎ CommandFavorite) × W
  pub update_command_favorite : W → SaveCommandFavoriteRequest → (E ⊎ CommandFavorite) × W
  pub delete_command_favorite : W → Text → Option E × W
  pub increment_command_favorite_use : W → Text → Text → (E ⊎ CommandFavorite) × W
