-- ===== src/SavedCommands/Favorites.antt =====
-- The favorites of internal/commands/service.go. The lower case of a text is a parameter, for the
-- tables of Unicode that `strings.ToLower` reads.
use myapptest.Common.{
  ℤ, pos, is_positive, Bool, true, false, Option, none, some, List, [], ◌∷◌, Text, ◌⊎◌, inl, inr,
  if◌then◌else◌, any, ltb, length, trim_space, is_empty, list_beq, nat_eq, ◌||◌,
}
use myapptest.SavedCommands.{CommandScope, normalize_history_command}
use myapptest.SavedCommands.Safety.{
  CommandSafetyResult, safe, unsafe, check_command_safety, max_command_length,
}
use myapptest.SavedCommands.Store.{
  Store, CommandFavorite, SaveCommandFavoriteRequest, ListCommandFavoritesRequest, scope_or_default,
}

pub data FavoriteError : Type 0 where
  title_empty command_empty command_too_long group_needed server_needed bad_scope : FavoriteError

pub data SaveError (E : Type 0) : Type 0 where
  invalid : FavoriteError → SaveError E
  id_empty sensitive_confirmation : SaveError E
  failed : E → SaveError E

abbrev is_given : Option ℤ → Bool
is_given none = false
is_given (some id) = is_positive id

unfoldable pub check_scope : CommandScope → (server_id group_id : Option ℤ) → Option FavoriteError
check_scope CommandScope.global server_id group_id = none
check_scope CommandScope.group server_id group_id =
    if is_given group_id then none else some group_needed
check_scope CommandScope.server server_id group_id =
    if is_given server_id then none else some server_needed
check_scope CommandScope.builtin server_id group_id = some bad_scope
check_scope (CommandScope.other name) server_id group_id = some bad_scope

-- The error, if there is one.
unfoldable pub validate_favorite : SaveCommandFavoriteRequest → Option FavoriteError
unfolding trim_space normalize_history_command check_scope
validate_favorite request =
    let command = normalize_history_command request.command in
    if is_empty (trim_space request.title)
    then some title_empty
    else if is_empty command
    then some command_empty
    else if ltb max_command_length (length command)
    then some command_too_long
    else check_scope request.scope request.server_id request.group_id

unfoldable pub check_favorite_safety : Text → CommandSafetyResult
unfolding check_command_safety normalize_history_command
check_favorite_safety command = check_command_safety (normalize_history_command command)

module _ (to_lower : Text → Text) where
  -- The loop, with the lower case of the tags that were kept.
  unfoldable pub tags_from : (seen : List Text) → List Text → List Text
  unfolding trim_space
  tags_from seen [] = []
  tags_from seen (tag ∷ tags) =
      let trimmed = trim_space tag in
      let same = tags_from seen tags in
      let more = tags_from (to_lower trimmed ∷ seen) tags in
      if is_empty trimmed || any (list_beq (to_lower trimmed)) seen then same else trimmed ∷ more

  unfoldable pub normalize_tags : List Text → List Text
  unfolding tags_from
  normalize_tags tags = tags_from [] tags

  -- The error of the check, and then that of a command that may hold a secret, unless the request
  -- allows it.
  unfoldable pub admit_of :
      {E : Type 0}
      → Option FavoriteError
      → (allow_sensitive : Bool) → CommandSafetyResult
      → Option (SaveError E)
  admit_of (some e) allow_sensitive checked = some (invalid e)
  admit_of none true checked = none
  admit_of none false safe = none
  admit_of none false (unsafe reason) = some sensitive_confirmation

  unfoldable pub admit_favorite : {E : Type 0} → SaveCommandFavoriteRequest → Option (SaveError E)
  unfolding admit_of validate_favorite check_favorite_safety
  admit_favorite request =
      admit_of (validate_favorite request) request.allow_sensitive
        (check_favorite_safety request.command)

  unfoldable pub new_favorite : SaveCommandFavoriteRequest → (id now : Text) → CommandFavorite
  unfolding trim_space normalize_history_command normalize_tags
  new_favorite request id now = record {
    id = id;
    title = trim_space request.title;
    command = normalize_history_command request.command;
    description = trim_space request.description;
    scope = request.scope;
    server_id = request.server_id;
    server_name = [];
    group_id = request.group_id;
    group_name = [];
    tags = normalize_tags request.tags;
    sort_order = request.sort_order;
    use_count = pos 0;
    created_at = now;
    updated_at = now;
    last_used_at = [];
  }

  -- The request that UpdateFavorite gives to the store.
  unfoldable pub normal_request : SaveCommandFavoriteRequest → SaveCommandFavoriteRequest
  unfolding trim_space normalize_history_command normalize_tags
  normal_request request = record request {
    title = trim_space request.title;
    command = normalize_history_command request.command;
    description = trim_space request.description;
    tags = normalize_tags request.tags;
  }

  module _ {W E : Type 0} (store : Store W E) where
    unfoldable pub saved : (E ⊎ CommandFavorite) × W → (SaveError E ⊎ CommandFavorite) × W
    saved (inl e, w) = (inl (failed e), w)
    saved (inr favorite, w) = (inr favorite, w)

    -- The error, or what the store gives.
    unfoldable pub if_admitted :
        Option (SaveError E) → W → (E ⊎ CommandFavorite) × W → (SaveError E ⊎ CommandFavorite) × W
    unfolding saved
    if_admitted (some e) w written = (inl e, w)
    if_admitted none w written = saved written

    unfoldable pub create_favorite :
        SaveCommandFavoriteRequest → (id now : Text) → W → (SaveError E ⊎ CommandFavorite) × W
    unfolding admit_favorite new_favorite if_admitted
    create_favorite request id now w =
        if_admitted (admit_favorite request) w
          (store.create_command_favorite w (new_favorite request id now))

    unfoldable pub update_favorite :
        SaveCommandFavoriteRequest → W → (SaveError E ⊎ CommandFavorite) × W
    unfolding admit_favorite normal_request if_admitted trim_space
    update_favorite given w =
        let request = record given { id = trim_space given.id } in
        if is_empty request.id
        then (inl id_empty, w)
        else if_admitted (admit_favorite request) w
            (store.update_command_favorite w (normal_request request))

    unfoldable pub delete_favorite : Text → W → Option E × W
    unfolding trim_space
    delete_favorite id w = store.delete_command_favorite w (trim_space id)

    unfoldable pub increment_favorite_use : (id now : Text) → W → (E ⊎ CommandFavorite) × W
    unfolding trim_space
    increment_favorite_use id now w = store.increment_command_favorite_use w (trim_space id) now

    unfoldable pub list_favorites :
        ListCommandFavoritesRequest → W → List CommandFavorite × Option E
    list_favorites request w =
        store.list_command_favorites w (record request { scope = scope_or_default request.scope })
