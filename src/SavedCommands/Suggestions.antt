-- ===== src/SavedCommands/Suggestions.antt =====
-- ListSuggestions of internal/commands/service.go: what a terminal offers to complete a command.
-- Parameters are the lower case of a text, and the age of a time in hours, which is none where it
-- does not parse; and the order in which Go's runtime gives the values of a map.
use mathlib.Core.Option
use myapptest.Common.{
  ℕ, zero, suc, ◌+◌, ◌-◌, ◌*◌, ℤ, pos, negsuc, is_positive, ltb_ℤ, int_beq, Bool, true, false,
  Option, none, some, List, [], ◌∷◌, ◌++◌, map, Text, ◌⊎◌, inl, inr, if◌then◌else◌, not, ◌&&◌,
  nat_beq, ltb, nat_eq, list_beq, length, keep_if, is_empty, trim_space, has_prefix, text_less,
}
use myapptest.SavedCommands.{CommandHistoryEntry, CommandScope}
use myapptest.SavedCommands.Safety.{CommandSafetyResult, safe, unsafe, check_command_safety}
use myapptest.SavedCommands.Store.{Store, CommandFavorite, CommandListScope}
use myapptest.SavedCommands.History.{HistoryError, invalid_server, failed}
use myapptest.SavedCommands.Batch.{list_history}
use myapptest.SavedCommands.Favorites.{list_favorites}
use myapptest.SavedCommands.Builtins.{
  SuggestionKind, a_command, BuiltinCommandSuggestion, builtin_command_suggestions,
}

pub data SuggestionSource : Type 0 where
  from_favorite from_history from_builtin : SuggestionSource

pub record CommandSuggestion : Type 0 where
  pub id : Text
  pub source : SuggestionSource
  pub kind : SuggestionKind
  pub title : Text
  pub command : Text
  pub description : Text
  pub scope : CommandScope
  pub server_id : Option ℤ
  pub group_id : Option ℤ
  pub score : ℤ
  pub use_count : ℤ
  pub last_used_at : Text

pub record ListCommandSuggestionsRequest : Type 0 where
  pub server_id : ℤ
  pub group_id : Option ℤ
  pub prefix : Text
  pub limit : ℤ
  pub include_history : Bool
  pub include_favorites : Bool
  pub include_builtins : Bool

abbrev pub is_safe : CommandSafetyResult → Bool
is_safe safe = true
is_safe (unsafe reason) = false

unfoldable pub suggestion_scope_rank : CommandScope → ℕ
suggestion_scope_rank CommandScope.server = 1
suggestion_scope_rank CommandScope.group = 2
suggestion_scope_rank CommandScope.global = 3
suggestion_scope_rank _ = 5

unfoldable pub suggestion_server_id : CommandHistoryEntry → (fallback : ℤ) → Option ℤ
suggestion_server_id entry fallback =
    let server_id = if is_positive entry.server_id then entry.server_id else fallback in
    if is_positive server_id then some server_id else none

-- A number and ten times the uses, of which at most 1000 count.
unfoldable pub with_uses : ℕ → (use_count : ℤ) → ℤ
with_uses n (pos uses) = pos (n + (if ltb uses 1000 then uses else 1000) * 10)
with_uses n (negsuc uses) =
    if ltb n (suc uses * 10) then negsuc (suc uses * 10 - n - 1) else pos (n - suc uses * 10)

-- The order in which suggestions are shown.
unfoldable pub shown_before : CommandSuggestion → CommandSuggestion → Bool
unfolding text_less
shown_before a b =
    if not (int_beq a.score b.score)
    then ltb_ℤ b.score a.score
    else if not (list_beq a.last_used_at b.last_used_at)
    then text_less b.last_used_at a.last_used_at
    else if not (int_beq a.use_count b.use_count)
    then ltb_ℤ b.use_count a.use_count
    else if not (nat_beq (length a.command) (length b.command))
    then ltb (length a.command) (length b.command)
    else text_less a.command b.command

-- `sort.SliceStable`, as an insertion sort.
unfoldable pub insert_sorted : CommandSuggestion → List CommandSuggestion → List CommandSuggestion
unfolding shown_before
insert_sorted item [] = item ∷ []
insert_sorted item (x ∷ xs) =
    let later = insert_sorted item xs in if shown_before x item then x ∷ later else item ∷ x ∷ xs

unfoldable pub sorted : List CommandSuggestion → List CommandSuggestion
unfolding insert_sorted
sorted [] = []
sorted (x ∷ xs) = insert_sorted x (sorted xs)

abbrev pub first_of : ℕ → List CommandSuggestion → List CommandSuggestion
first_of zero xs = []
first_of (suc n) [] = []
first_of (suc n) (x ∷ xs) = x ∷ first_of n xs

-- A limit that is not positive, or above 20, is 20.
unfoldable pub suggestion_limit : ℤ → ℕ
suggestion_limit (negsuc n) = 20
suggestion_limit (pos n) = if ltb 0 n then (if ltb 20 n then 20 else n) else 20

module _ (to_lower : Text → Text) (age_hours : Text → Option ℤ)
    (in_map_order : List CommandSuggestion → List CommandSuggestion) where
  -- What the last use adds: the less, the longer it is ago.
  unfoldable pub recent : Text → ℕ
  recent last_used_at = if is_empty last_used_at then 0 else elim (age_hours last_used_at) [
    | none ↦ 0
    | some (pos hours) ↦ 20000 - hours
    | some (negsuc hours) ↦ 20000
  ]

  unfoldable pub score_suggestion : (source_rank : ℕ) (use_count : ℤ) (last_used_at : Text) → ℤ
  unfolding recent with_uses
  score_suggestion source_rank use_count last_used_at =
      with_uses ((10 - source_rank) * 100000 + recent last_used_at) use_count

  unfoldable pub suggestion_command_filtered : (command prefix : Text) → Bool
  unfolding trim_space check_command_safety has_prefix
  suggestion_command_filtered given prefix =
      let command = trim_space given in
      if is_empty command
      then true
      else if not (is_safe (check_command_safety command))
      then true
      else if is_empty prefix
      then false
      else not (has_prefix (to_lower prefix) (to_lower command))

  unfoldable pub of_favorite : CommandFavorite → CommandSuggestion
  unfolding score_suggestion suggestion_scope_rank
  of_favorite item = record {
    id = item.id;
    source = from_favorite;
    kind = a_command;
    title = item.title;
    command = item.command;
    description = item.description;
    scope = item.scope;
    server_id = item.server_id;
    group_id = item.group_id;
    score =
        score_suggestion (2 + suggestion_scope_rank item.scope) item.use_count item.last_used_at;
    use_count = item.use_count;
    last_used_at = item.last_used_at;
  }

  unfoldable pub of_history : (fallback : ℤ) → CommandHistoryEntry → CommandSuggestion
  unfolding score_suggestion suggestion_server_id
  of_history fallback entry = record {
    id = entry.id;
    source = from_history;
    kind = a_command;
    title = entry.command;
    command = entry.command;
    description = [];
    scope = CommandScope.server;
    server_id = suggestion_server_id entry fallback;
    group_id = none;
    score = score_suggestion 1 (pos 0) entry.executed_at;
    use_count = pos 0;
    last_used_at = entry.executed_at;
  }

  unfoldable pub of_builtin : BuiltinCommandSuggestion → CommandSuggestion
  unfolding score_suggestion
  of_builtin item = record {
    id = item.id;
    source = from_builtin;
    kind = item.kind;
    title = item.title;
    command = item.command;
    description = item.description;
    scope = CommandScope.builtin;
    server_id = none;
    group_id = none;
    score = score_suggestion 6 (pos 0) [];
    use_count = pos 0;
    last_used_at = [];
  }

  abbrev pub is_offered : Text → CommandSuggestion → Bool
  unfolding suggestion_command_filtered
  is_offered prefix item = not (suggestion_command_filtered item.command prefix)

  unfoldable pub suggestion_key : CommandSuggestion → Text
  unfolding trim_space
  suggestion_key item = to_lower (trim_space item.command)

  -- The better one of two with the same key.
  unfoldable pub put_best : CommandSuggestion → List CommandSuggestion → List CommandSuggestion
  unfolding suggestion_key
  put_best item [] = item ∷ []
  put_best item (x ∷ xs) =
      let later = put_best item xs in
      if list_beq (suggestion_key x) (suggestion_key item)
      then (if ltb_ℤ x.score item.score then item else x) ∷ xs
      else x ∷ later

  -- The loop, with the values of the map so far.
  unfoldable pub by_command : (best input : List CommandSuggestion) → List CommandSuggestion
  unfolding put_best
  by_command best [] = best
  by_command best (item ∷ input) =
      let without = by_command best input in
      let with_it = by_command (put_best item best) input in
      if is_empty (suggestion_key item) then without else with_it

  unfoldable pub dedupe_suggestions : List CommandSuggestion → List CommandSuggestion
  unfolding by_command
  dedupe_suggestions input = in_map_order (by_command [] input)

  -- What is shown of the candidates.
  unfoldable pub best_of : (limit : ℤ) → List CommandSuggestion → List CommandSuggestion
  unfolding dedupe_suggestions sorted suggestion_limit
  best_of limit candidates =
      first_of (suggestion_limit limit) (sorted (dedupe_suggestions candidates))

  -- The candidates of a source, where it is asked for; an error of its list is passed on.
  unfoldable pub candidates_of :
      {E : Type 0}
      → (asked : Bool) → (prefix : Text) → List CommandSuggestion × Option E
      → E ⊎ List CommandSuggestion
  unfolding suggestion_command_filtered
  candidates_of false prefix listed = inr []
  candidates_of true prefix (items, some e) = inl e
  candidates_of true prefix (items, none) = inr (keep_if (is_offered prefix) items)

  unfoldable pub all_candidates :
      {E : Type 0}
      → (favorites history builtins : E ⊎ List CommandSuggestion) → E ⊎ List CommandSuggestion
  all_candidates (inl e) history builtins = inl e
  all_candidates (inr favorites) (inl e) builtins = inl e
  all_candidates (inr favorites) (inr history) (inl e) = inl e
  all_candidates (inr favorites) (inr history) (inr builtins) =
      inr (favorites ++ (history ++ builtins))

  unfoldable pub shown :
      {E : Type 0} → (limit : ℤ) → E ⊎ List CommandSuggestion → E ⊎ List CommandSuggestion
  unfolding best_of
  shown limit (inl e) = inl e
  shown limit (inr candidates) = inr (best_of limit candidates)

  module _ {W E : Type 0} (store : Store W E) (sha256_hex : Text → Text)
      (history_max : Option ℤ) where
    unfoldable pub favorite_items :
        ListCommandSuggestionsRequest → W → List CommandSuggestion × Option (HistoryError E)
    unfolding of_favorite list_favorites
    favorite_items request w =
        let (favorites, error) =
          list_favorites to_lower store
            (record {
              server_id = request.server_id;
              group_id = request.group_id;
              scope = CommandListScope.other [];
              query = [];
            })
            w in
        (map of_favorite favorites, Option.map failed error)

    unfoldable pub history_items :
        ListCommandSuggestionsRequest
        → (prefix : Text) → W
        → List CommandSuggestion × Option (HistoryError E)
    unfolding of_history list_history
    history_items request prefix w =
        let (entries, error) =
          list_history store sha256_hex history_max
            (record {
              server_id = request.server_id;
              scope = CommandListScope.other [];
              query = prefix;
              limit = pos 200;
            })
            w in
        (map (of_history request.server_id) entries, error)

    unfoldable pub builtin_items : List CommandSuggestion × Option (HistoryError E)
    unfolding of_builtin builtin_command_suggestions
    builtin_items = (map of_builtin builtin_command_suggestions, none)

    unfoldable pub list_suggestions :
        ListCommandSuggestionsRequest → W → HistoryError E ⊎ List CommandSuggestion
    unfolding favorite_items history_items builtin_items candidates_of all_candidates shown
        trim_space check_command_safety
    list_suggestions request w =
        let prefix = trim_space request.prefix in
        if not (is_positive request.server_id)
        then inl invalid_server
        else if not (is_empty prefix) && not (is_safe (check_command_safety prefix))
        then inr []
        else shown request.limit (
            all_candidates
              (candidates_of request.include_favorites prefix (favorite_items request w))
              (candidates_of request.include_history prefix (history_items request prefix w))
              (candidates_of request.include_builtins prefix builtin_items))
