-- ===== src/SavedCommands/Suggested.antt =====
-- That ListSuggestions of internal/commands/service.go offers at most 20 suggestions, each of which
-- is safe and has the prefix, and no two of the same command in lower case.
use mathlib.Core.Path.{subst}
use myapptest.Common.{
  ◌+◌, ◌≤◌, ℤ, Bool, true, false, Option, List, [], ◌∷◌, Text, ◌≡◌, refl, sym, inl, inr, arith,
  Bool-cases, length, is_empty, nat_eq,
}
use myapptest.SavedCommands.Suggestions.{
  CommandSuggestion, sorted, suggestion_limit, suggestion_key, by_command, dedupe_suggestions,
  best_of,
}
use myapptest.SavedCommands.Offered.{
  count, count-sorted, count-first_of, length-first_of, suggestion_limit_bounds, put, count-put,
}
use myapptest.SavedCommands.Distinct.{AreDistinct, with_key, placed, count-placed}

-- An order of a list leaves how many of it pass a test.
unfoldable pub IsOrder : (List CommandSuggestion → List CommandSuggestion) → Type 0
unfolding count
IsOrder order =
    (p : CommandSuggestion → Bool) (xs : List CommandSuggestion) → count p (order xs) ≡ count p xs

module _ (to_lower : Text → Text) (age_hours : Text → Option ℤ)
    (in_map_order : List CommandSuggestion → List CommandSuggestion) where
  abbrev pub values : (best input : List CommandSuggestion) → List CommandSuggestion
  values best input = by_command to_lower age_hours in_map_order best input

  values-skipped :
      (best : List CommandSuggestion) (item : CommandSuggestion) (input : List CommandSuggestion)
      → is_empty (suggestion_key to_lower age_hours in_map_order item) ≡ true
      → values best (item ∷ input) ≡ values best input
  unfolding by_command
  values-skipped best item input h = rw h refl

  values-placed :
      (best : List CommandSuggestion) (item : CommandSuggestion) (input : List CommandSuggestion)
      → is_empty (suggestion_key to_lower age_hours in_map_order item) ≡ false
      → values best (item ∷ input) ≡ values (placed to_lower age_hours in_map_order item best) input
  unfolding by_command put
  values-placed best item input h = rw h refl

  pub count-values :
      (p : CommandSuggestion → Bool) (best input : List CommandSuggestion)
      → count p (values best input) ≤ count p best + count p input
  unfolding by_command count
  count-values p best [] = omega arith
  count-values p best (item ∷ input) =
      elim (Bool-cases (is_empty (suggestion_key to_lower age_hours in_map_order item))) [
        | inl h ↦
            subst (λ xs. count p xs ≤ count p best + count p (item ∷ input))
              (sym (values-skipped best item input h)) (omega (arith, count-values p best input))
        | inr h ↦
            subst (λ xs. count p xs ≤ count p best + count p (item ∷ input))
              (sym (values-placed best item input h))
              (omega (
                arith,
                count-values p (placed to_lower age_hours in_map_order item best) input,
                count-put to_lower age_hours in_map_order p item best,
              ))
      ]

  placed-AreDistinct :
      (item : CommandSuggestion) (best : List CommandSuggestion)
      → AreDistinct to_lower age_hours in_map_order best
      → AreDistinct to_lower age_hours in_map_order
          (placed to_lower age_hours in_map_order item best)
  unfolding AreDistinct
  placed-AreDistinct item best d k = count-placed to_lower age_hours in_map_order k item best (d k)

  none-AreDistinct : AreDistinct to_lower age_hours in_map_order []
  unfolding AreDistinct count
  none-AreDistinct k = omega arith

  values-AreDistinct :
      (best input : List CommandSuggestion)
      → AreDistinct to_lower age_hours in_map_order best
      → AreDistinct to_lower age_hours in_map_order (values best input)
  unfolding by_command
  values-AreDistinct best [] d = d
  values-AreDistinct best (item ∷ input) d =
      elim (Bool-cases (is_empty (suggestion_key to_lower age_hours in_map_order item))) [
        | inl h ↦
            subst (AreDistinct to_lower age_hours in_map_order)
              (sym (values-skipped best item input h)) (values-AreDistinct best input d)
        | inr h ↦
            subst (AreDistinct to_lower age_hours in_map_order)
              (sym (values-placed best item input h))
              (values-AreDistinct (placed to_lower age_hours in_map_order item best) input
                (placed-AreDistinct item best d))
      ]

  module _ (ordered : IsOrder in_map_order) where
    pub count-best_of :
        (p : CommandSuggestion → Bool) (limit : ℤ) (candidates : List CommandSuggestion)
        → count p (best_of to_lower age_hours in_map_order limit candidates)
          ≤ count p (values [] candidates)
    unfolding best_of dedupe_suggestions IsOrder
    count-best_of p limit candidates =
        let all = in_map_order (values [] candidates) in
        omega (
          arith,
          count-first_of p (suggestion_limit limit) (sorted all),
          count-sorted p all,
          ordered p (values [] candidates),
        )

    pub best_of-AreDistinct :
        (limit : ℤ) (candidates : List CommandSuggestion)
        → AreDistinct to_lower age_hours in_map_order
            (best_of to_lower age_hours in_map_order limit candidates)
    unfolding AreDistinct
    best_of-AreDistinct limit candidates k = omega (
      arith,
      count-best_of (with_key to_lower age_hours in_map_order k) limit candidates,
      values-AreDistinct [] candidates none-AreDistinct k,
    )

    pub length-best_of :
        (limit : ℤ) (candidates : List CommandSuggestion)
        → length (best_of to_lower age_hours in_map_order limit candidates) ≤ 20
    unfolding best_of
    length-best_of limit candidates = omega (
      arith,
      length-first_of (suggestion_limit limit)
          (sorted (dedupe_suggestions to_lower age_hours in_map_order candidates)),
      suggestion_limit_bounds limit,
    )
