-- ===== src/SavedCommands/Tests.antt =====
-- Examples for the saved commands, over a store that is a list of entries.
use myapptest.Common.{
  trim_space, ℤ, pos, negsuc, true, false, Option, none, some, List, [], ◌∷◌, map, ◌≡◌, refl, ◌⊎◌,
  inl, inr, Text, codes, length, ltb, All, list_beq, nat_eq, int_beq, ◌&&◌, if◌then◌else◌,
}
use myapptest.SavedCommands.{
  CommandHistoryEntry, CommandScope, build_command_preview, is_multiline_history_command,
}
use myapptest.SavedCommands.Preview.{preview_lem, summary, filled_lines}
use myapptest.SavedCommands.Safety.{check_command_safety, safe, unsafe, sensitive, control_sequence}
use myapptest.SavedCommands.Store.{Store, CommandFavorite, SaveCommandFavoriteRequest}
use myapptest.SavedCommands.History.{RecordCommandHistoryRequest, unique_positive_int64s}
use myapptest.SavedCommands.Clean.{IsCleanEntry}
use myapptest.SavedCommands.Written.{
  run, Call, record_call, batch_call, update_call, create_favorite_call, delete_call,
}
use myapptest.SavedCommands.Favorites.{
  validate_favorite, normalize_tags, create_favorite, saved, SaveError, group_needed,
}
use myapptest.SavedCommands.Suggestions.{
  CommandSuggestion, ListCommandSuggestionsRequest, list_suggestions,
}
use myapptest.SavedCommands.Suggested.{IsOrder}
use myapptest.SavedCommands.Fitting.{FitsIfAny, list_suggestions-FitsIfAny}
use myapptest.SavedCommands.Tags.{normalize_tags_lem, AreNormalTags, IsKept}
use myapptest.SavedCommands.Admitted.{create_favorite-cases, IsFavoriteOf}

password_test : check_command_safety (codes "mysql -u root -psecret") ≡ unsafe sensitive
unfolding check_command_safety
password_test = refl

assigned_test : check_command_safety (codes "export API_KEY = x") ≡ unsafe sensitive
unfolding check_command_safety
assigned_test = refl

flattened_test : check_command_safety (codes "curl x\n -u me:pw") ≡ unsafe sensitive
unfolding check_command_safety
flattened_test = refl

word_part_test : check_command_safety (codes "bypass = 1") ≡ safe
unfolding check_command_safety
word_part_test = refl

escape_test : check_command_safety (codes "echo \u{1b}[0m") ≡ unsafe control_sequence
unfolding check_command_safety
escape_test = refl

preview_test : build_command_preview (codes "\r\n  ls   -la\r\n\r\npwd\r\n") ≡ codes "ls -la ..."
unfolding build_command_preview
preview_test = refl

unique_test : unique_positive_int64s (pos 3 ∷ negsuc 0 ∷ pos 1 ∷ pos 3 ∷ []) ≡ pos 3 ∷ pos 1 ∷ []
unfolding unique_positive_int64s
unique_test = refl

preview_lem_example :
    (build_command_preview (codes "ls\n\npwd") ≡ summary (filled_lines (codes "ls\n\npwd")))
    × (is_multiline_history_command (codes "ls\n\npwd")
        ≡ ltb 1 (length (filled_lines (codes "ls\n\npwd"))))
preview_lem_example = preview_lem (codes "ls\n\npwd")

-- The store: a list of entries, which are found by their server and their hash.
find : List CommandHistoryEntry → ℤ → Text → Option CommandHistoryEntry
find [] server_id hash = none
find (entry ∷ entries) server_id hash =
    let later = find entries server_id hash in
    if int_beq entry.server_id server_id && list_beq entry.command_hash hash
    then some entry
    else later

abbrev blank_favorite : CommandFavorite
blank_favorite = record {
  id = [];
  title = [];
  command = [];
  description = [];
  scope = CommandScope.global;
  server_id = none;
  server_name = [];
  group_id = none;
  group_name = [];
  tags = [];
  sort_order = pos 0;
  use_count = pos 0;
  created_at = [];
  updated_at = [];
  last_used_at = [];
}

abbrev list_store : Store (List CommandHistoryEntry) Unit
unfolding find
list_store = record {
  is_no_rows = λ e. true;
  list_command_history = λ w request. (w, none);
  latest_command_history = λ w server_id. inr none;
  find_command_history_by_hash = λ w server_id hash. inr (find w server_id hash);
  insert_command_history = λ w entry. (none, entry ∷ w);
  insert_batch_command_history = λ w entry targets submission. (inr entry, entry ∷ w);
  update_command_history_execution = λ w id session now. (inl tt, w);
  update_command_history = λ w request hash. (inl tt, w);
  delete_command_history = λ w id. (none, w);
  clear_command_history = λ w server_id. (none, []);
  prune_command_history = λ w server_id max. (none, w);
  prune_batch_command_history = λ w max. (none, w);
  create_command_favorite = λ w favorite. (inr favorite, w);
  update_command_favorite = λ w request. (inr blank_favorite, w);
  delete_command_favorite = λ w id. (none, w);
  increment_command_favorite_use = λ w id now. (inr blank_favorite, w);
  list_command_favorites = λ w request. (record blank_favorite { command = codes "LS" } ∷ [], none);
}

abbrev same_hash : Text → Text
same_hash command = command

abbrev AllClean : List CommandHistoryEntry → Type 0
AllClean w = All (IsCleanEntry list_store same_hash none) w

abbrev record_request : Text → RecordCommandHistoryRequest
record_request command = record {
  server_id = pos 1;
  session_id = codes "s";
  command = command;
  source = [];
}

abbrev group_request : SaveCommandFavoriteRequest
group_request = record {
  id = [];
  title = codes "Disk";
  command = codes "df -h\r\n";
  description = [];
  scope = CommandScope.group;
  server_id = none;
  group_id = some (pos 4);
  tags = codes "a" ∷ codes " a " ∷ [] ∷ [];
  sort_order = pos 0;
  allow_sensitive = false;
}

abbrev some_calls : List Call
some_calls =
    record_call (record_request (codes "ls")) (codes "a") (codes "now")
    ∷ record_call (record_request (codes "export TOKEN=x")) (codes "b") (codes "now")
    ∷ record_call (record_request (codes "ls\r\n")) (codes "c") (codes "now")
    ∷ batch_call
        (record {
          command = codes "uptime";
          successful_server_ids = pos 2 ∷ pos 2 ∷ [];
          submission_id = [];
        })
        (codes "d") (codes "now") (codes "n")
    ∷ update_call (record { id = codes "a"; command = codes "pwd" })
    ∷ create_favorite_call group_request (codes "f") (codes "now")
    ∷ delete_call (codes " x ")
    ∷ []

-- Of these calls, the store keeps two commands.
run_test :
    map (λ entry. entry.id) (run list_store same_hash same_hash none some_calls [])
    ≡ codes "d" ∷ codes "a" ∷ []
unfolding list_store run
run_test = refl

no_group_test : validate_favorite (record group_request { group_id = none }) ≡ some group_needed
unfolding validate_favorite
no_group_test = refl

normalize_tags_lem_example :
    AreNormalTags same_hash [] (normalize_tags same_hash group_request.tags)
    × All (IsKept same_hash [] (normalize_tags same_hash group_request.tags)) group_request.tags
    × (AreNormalTags same_hash [] group_request.tags
        → normalize_tags same_hash group_request.tags ≡ group_request.tags)
normalize_tags_lem_example = normalize_tags_lem same_hash group_request.tags

create_favorite-cases_example :
    ((e : SaveError Unit) × (create_favorite same_hash list_store group_request
          (codes "f")
          (codes "now")
          []
        ≡ (inl e, [])))
    ⊎ ((favorite : CommandFavorite) × IsFavoriteOf list_store same_hash group_request
          (codes "f")
          (codes "now")
          favorite
        × (create_favorite same_hash list_store group_request (codes "f") (codes "now") []
            ≡ saved same_hash list_store (list_store.create_command_favorite [] favorite)))
create_favorite-cases_example =
    create_favorite-cases list_store same_hash group_request (codes "f") (codes "now") []

abbrev no_age : Text → Option ℤ
no_age time = none

abbrev same_order : List CommandSuggestion → List CommandSuggestion
same_order xs = xs

same_order-IsOrder : IsOrder same_order
unfolding IsOrder
same_order-IsOrder p xs = refl

abbrev suggestions_request : ListCommandSuggestionsRequest
suggestions_request = record {
  server_id = pos 1;
  group_id = none;
  prefix = codes " l";
  limit = pos 5;
  include_history = true;
  include_favorites = true;
  include_builtins = true;
}

-- The history has the same command as a favorite, and comes first.
abbrev ls_entry : CommandHistoryEntry
ls_entry = record {
  id = codes "a";
  server_id = pos 1;
  server_name = [];
  session_id = [];
  command = codes "ls";
  preview = codes "ls";
  is_multiline = false;
  command_hash = codes "ls";
  source = [];
  source_label = [];
  executed_at = [];
  target_server_ids = [];
  target_count = 0;
  batch_submission_id = [];
}

commands_of : {E : Type 0} → E ⊎ List CommandSuggestion → List Text
commands_of (inl e) = []
commands_of (inr xs) = map (λ item. item.command) xs

suggested_test :
    commands_of (
      list_suggestions same_hash no_age same_order list_store same_hash none suggestions_request
        (ls_entry ∷ []))
    ≡ codes "ls" ∷ codes "less" ∷ codes "ls -la" ∷ codes "logread -f" ∷ []
unfolding list_suggestions list_store commands_of
suggested_test = refl

list_suggestions-FitsIfAny_example : FitsIfAny same_hash no_age same_order (codes "l") (
    list_suggestions same_hash no_age same_order list_store same_hash none suggestions_request
      (ls_entry ∷ []))
unfolding trim_space
list_suggestions-FitsIfAny_example =
    list_suggestions-FitsIfAny same_hash no_age same_order same_order-IsOrder list_store same_hash
      none suggestions_request (ls_entry ∷ [])
