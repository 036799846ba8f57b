-- ===== src/SavedCommands/Fitting.antt =====
-- What the list of ListSuggestions in internal/commands/service.go can hold, from its sources to
-- its result.
use myapptest.Common.{
  ◌≤◌, ℤ, Bool, true, false, false≢true, Option, none, some, List, [], ◌++◌, Text, ◌≡◌, refl, sym,
  ◌⊎◌, inl, inr, arith, All, All-imp, if◌then◌else◌, not, ◌&&◌, length, is_empty, is_positive,
  trim_space, has_prefix,
}
use myapptest.SavedCommands.Safety.{check_command_safety}
use myapptest.SavedCommands.Store.{Store}
use myapptest.SavedCommands.History.{HistoryError, invalid_server}
use myapptest.SavedCommands.Suggestions.{
  CommandSuggestion, ListCommandSuggestionsRequest, suggestion_command_filtered, best_of,
  candidates_of, all_candidates, shown, list_suggestions, is_safe, favorite_items, history_items,
  builtin_items,
}
use myapptest.SavedCommands.Offered.{count, count-append, count-keep_if, count-zero}
use myapptest.SavedCommands.Distinct.{AreDistinct}
use myapptest.SavedCommands.Suggested.{
  IsOrder, count-best_of, count-values, best_of-AreDistinct, length-best_of,
}

-- A result whose list, where there is one, holds none that passes a test.
unfoldable HasNone : {E : Type 0} → (CommandSuggestion → Bool) → E ⊎ List CommandSuggestion → Type 0
HasNone p (inl e) = Unit
HasNone p (inr xs) = count p xs ≡ 0

not_filtered :
    (blank is_safe_command no_prefix fits : Bool)
    → (if blank
        then true
        else if not is_safe_command
        then true
        else if no_prefix
        then false
        else not fits)
      ≡ false
    → (blank ≡ false) × (is_safe_command ≡ true) × (no_prefix ≡ false → fits ≡ true)
not_filtered true s e f h = absurd (false≢true (sym h))
not_filtered false false e f h = absurd (false≢true (sym h))
not_filtered false true true f h = (refl, refl, λ e. absurd (false≢true (sym e)))
not_filtered false true false true h = (refl, refl, λ e. refl)
not_filtered false true false false h = absurd (false≢true (sym h))

module _ (to_lower : Text → Text) (age_hours : Text → Option ℤ)
    (in_map_order : List CommandSuggestion → List CommandSuggestion) where
  unfoldable filtered : Text → CommandSuggestion → Bool
  unfolding suggestion_command_filtered
  filtered prefix item =
      suggestion_command_filtered to_lower age_hours in_map_order item.command prefix

  candidates_of-HasNone :
      {E : Type 0} (asked : Bool) (prefix : Text) (listed : List CommandSuggestion × Option E)
      → HasNone
          (filtered prefix)
          (candidates_of to_lower age_hours in_map_order asked prefix listed)
  unfolding HasNone candidates_of filtered count
  candidates_of-HasNone false prefix listed = refl
  candidates_of-HasNone true prefix (items, some e) = tt
  candidates_of-HasNone true prefix (items, none) = count-keep_if (filtered prefix) items

  all_candidates-HasNone :
      {E : Type 0} (p : CommandSuggestion → Bool) (xs ys zs : E ⊎ List CommandSuggestion)
      → HasNone p xs
      → HasNone p ys
      → HasNone p zs
      → HasNone p (all_candidates to_lower age_hours in_map_order xs ys zs)
  unfolding HasNone all_candidates
  all_candidates-HasNone p (inl e) ys zs f g h = tt
  all_candidates-HasNone p (inr xs) (inl e) zs f g h = tt
  all_candidates-HasNone p (inr xs) (inr ys) (inl e) f g h = tt
  all_candidates-HasNone p (inr xs) (inr ys) (inr zs) f g h =
      omega (arith, f, g, h, count-append p xs (ys ++ zs), count-append p ys zs)

  -- A command that is not blank, is safe, and begins with the prefix, up to case.
  unfoldable pub IsSuggestible : (prefix command : Text) → Type 0
  unfolding trim_space check_command_safety has_prefix
  IsSuggestible prefix command =
      (is_empty (trim_space command) ≡ false)
      × (is_safe (check_command_safety (trim_space command)) ≡ true)
      × (is_empty prefix ≡ false
          → has_prefix (to_lower prefix) (to_lower (trim_space command)) ≡ true)

  not_filtered-IsSuggestible :
      (prefix command : Text)
      → suggestion_command_filtered to_lower age_hours in_map_order command prefix ≡ false
      → IsSuggestible prefix command
  unfolding suggestion_command_filtered IsSuggestible
  not_filtered-IsSuggestible prefix command h =
      not_filtered (is_empty (trim_space command))
        (is_safe (check_command_safety (trim_space command))) (is_empty prefix)
        (has_prefix (to_lower prefix) (to_lower (trim_space command))) h

  -- At most 20 suggestions, each of which is suggestible, and no two of the same command.
  unfoldable pub IsFitting : (prefix : Text) → List CommandSuggestion → Type 0
  unfolding IsSuggestible AreDistinct
  IsFitting prefix xs =
      (length xs ≤ 20)
      × All (λ item. IsSuggestible prefix item.command) xs
      × AreDistinct to_lower age_hours in_map_order xs

  unfoldable pub FitsIfAny : {E : Type 0} → (prefix : Text) → E ⊎ List CommandSuggestion → Type 0
  unfolding IsFitting
  FitsIfAny prefix (inl e) = Unit
  FitsIfAny prefix (inr xs) = IsFitting prefix xs

  none-IsFitting : (prefix : Text) → IsFitting prefix []
  unfolding IsFitting AreDistinct count
  none-IsFitting prefix = (omega arith, tt, λ k. omega arith)

  -- The two early returns.
  guarded-FitsIfAny :
      {E : Type 0} (valid is_unsafe : Bool) (prefix : Text) (e : E)
      (xs : E ⊎ List CommandSuggestion)
      → FitsIfAny prefix xs
      → FitsIfAny prefix (if not valid then inl e else if is_unsafe then inr [] else xs)
  unfolding FitsIfAny
  guarded-FitsIfAny false is_unsafe prefix e xs h = tt
  guarded-FitsIfAny true true prefix e xs h = none-IsFitting prefix
  guarded-FitsIfAny true false prefix e xs h = h

  module _ (ordered : IsOrder in_map_order) where
    count-best_of_none :
        (p : CommandSuggestion → Bool) (limit : ℤ) (xs : List CommandSuggestion)
        → count p xs ≡ 0
        → count p (best_of to_lower age_hours in_map_order limit xs) ≡ 0
    unfolding count
    count-best_of_none p limit xs h = omega (
      arith,
      h,
      count-best_of to_lower age_hours in_map_order ordered p limit xs,
      count-values to_lower age_hours in_map_order p [] xs,
    )

    shown-FitsIfAny :
        {E : Type 0} (prefix : Text) (limit : ℤ) (xs : E ⊎ List CommandSuggestion)
        → HasNone (filtered prefix) xs
        → FitsIfAny prefix (shown to_lower age_hours in_map_order limit xs)
    unfolding HasNone FitsIfAny IsFitting shown filtered
    shown-FitsIfAny prefix limit (inl e) h = tt
    shown-FitsIfAny prefix limit (inr xs) h = (
      length-best_of to_lower age_hours in_map_order ordered limit xs,
      All-imp (λ item. not_filtered-IsSuggestible prefix item.command)
          (best_of to_lower age_hours in_map_order limit xs)
          (count-zero (filtered prefix) (best_of to_lower age_hours in_map_order limit xs)
            (count-best_of_none (filtered prefix) limit xs h)),
      best_of-AreDistinct to_lower age_hours in_map_order ordered limit xs,
    )

    module _ {W E : Type 0} (store : Store W E) (sha256_hex : Text → Text)
        (history_max : Option ℤ) where
      shown_of : ListCommandSuggestionsRequest → W → HistoryError E ⊎ List CommandSuggestion
      shown_of request w =
          let prefix = trim_space request.prefix in
          shown to_lower age_hours in_map_order request.limit (
            all_candidates to_lower age_hours in_map_order
              (candidates_of to_lower age_hours in_map_order request.include_favorites prefix (
                favorite_items to_lower age_hours in_map_order store sha256_hex history_max request
                  w))
              (candidates_of to_lower age_hours in_map_order request.include_history prefix (
                history_items to_lower age_hours in_map_order store sha256_hex history_max request
                  prefix w))
              (candidates_of to_lower age_hours in_map_order request.include_builtins prefix
                (builtin_items to_lower age_hours in_map_order store sha256_hex history_max)))

      shown_of-FitsIfAny :
          (request : ListCommandSuggestionsRequest) (w : W)
          → FitsIfAny (trim_space request.prefix) (shown_of request w)
      unfolding shown_of
      shown_of-FitsIfAny request w =
          let prefix = trim_space request.prefix in
          shown-FitsIfAny prefix request.limit _ (
            all_candidates-HasNone (filtered prefix) _ _ _
              (candidates_of-HasNone request.include_favorites prefix _)
              (candidates_of-HasNone request.include_history prefix _)
              (candidates_of-HasNone request.include_builtins prefix _))

      -- Whatever the store, and in whatever order the values of the map come, ListSuggestions gives
      -- an error, or at most 20 suggestions whose commands are not blank, pass the safety check and
      -- begin with the trimmed prefix (without regard to case), no two of which are the same command
      -- up to case and surrounding blanks.
      pub list_suggestions-FitsIfAny :
          (request : ListCommandSuggestionsRequest) (w : W)
          → FitsIfAny (trim_space request.prefix) (
              list_suggestions to_lower age_hours in_map_order store sha256_hex history_max request
                w)
      unfolding list_suggestions shown_of
      list_suggestions-FitsIfAny request w =
          guarded-FitsIfAny (is_positive request.server_id)
            (not (is_empty (trim_space request.prefix))
              && not (is_safe (check_command_safety (trim_space request.prefix))))
            (trim_space request.prefix) invalid_server (shown_of request w)
            (shown_of-FitsIfAny request w)
