-- ===== src/SavedCommands.antt =====
-- internal/domain/commands.go: the text of a command as it is kept, and how a list shows it; with
-- the records that internal/commands/service.go takes and gives. The children are the service.
pub mod Normal
pub mod Preview
pub mod OneLine
pub mod Safety
pub mod Store
pub mod History
pub mod Batch
pub mod Favorites
pub mod Clean
pub mod Kept
pub mod Written
pub mod Tags
pub mod Admitted
pub mod FavoritesKept
pub mod Builtins
pub mod Suggestions
pub mod Offered
pub mod Distinct
pub mod Suggested
pub mod Fitting
mod Tests
use myapptest.Common.{
  ℕ, ℤ, Bool, true, false, Option, List, [], ◌∷◌, ◌++◌, Text, codes, if◌then◌else◌, any, ltb, not,
  trim_space, is_empty, replace_all, split_on, join_with, fields,
}

pub data CommandScope : Type 0 where
  global group server builtin : CommandScope
  other : Text → CommandScope

pub record CommandHistoryEntry : Type 0 where
  pub id : Text
  pub server_id : ℤ
  pub server_name : Text
  pub session_id : Text
  pub command : Text
  pub preview : Text
  pub is_multiline : Bool
  pub command_hash : Text
  pub source : Text
  pub source_label : Text
  pub executed_at : Text
  pub target_server_ids : List ℤ
  pub target_count : ℕ
  pub batch_submission_id : Text

unfoldable pub normalize_history_command : Text → Text
unfolding replace_all trim_space
normalize_history_command command =
    trim_space
      (replace_all (codes "\r") (codes "\n") (replace_all (codes "\r\n") (codes "\n") command))

-- `strings.TrimSpace(line) != ""`
unfoldable pub is_filled : Text → Bool
unfolding trim_space
is_filled line = not (is_empty (trim_space line))

-- The loop of the count, which ends at the second line that is not blank.
unfoldable pub second_line : (non_empty : ℕ) → List Text → Bool
unfolding is_filled
second_line non_empty [] = false
second_line non_empty (line ∷ lines) =
    let more = second_line (ℕ.suc non_empty) lines in
    let same = second_line non_empty lines in
    if is_filled line then (if ltb 0 non_empty then true else more) else same

unfoldable pub is_multiline_history_command : Text → Bool
unfolding normalize_history_command split_on second_line
is_multiline_history_command command =
    second_line 0 (split_on b'\n' (normalize_history_command command))

-- The words of a line, one space apart.
unfoldable pub collapse : Text → Text
unfolding fields join_with
collapse line = join_with (codes " ") (fields line)

-- The loop that looks for the first line with a word.
unfoldable pub preview_of : List Text → Text
unfolding collapse is_filled
preview_of [] = []
preview_of (line ∷ lines) =
    let later = preview_of lines in
    if is_empty (collapse line)
    then later
    else if any is_filled lines
    then collapse line ++ codes " ..."
    else collapse line

unfoldable pub build_command_preview : Text → Text
unfolding normalize_history_command split_on preview_of
build_command_preview command =
    let normalized = normalize_history_command command in
    if is_empty normalized then [] else preview_of (split_on b'\n' normalized)

unfoldable pub enrich_command_history_entry : CommandHistoryEntry → CommandHistoryEntry
unfolding normalize_history_command build_command_preview is_multiline_history_command
enrich_command_history_entry entry =
    let command = normalize_history_command entry.command in
    record entry {
      command = command;
      preview = build_command_preview command;
      is_multiline = is_multiline_history_command command;
    }
