-- ===== src/SavedCommands/Offered.antt =====
-- What ListSuggestions of internal/commands/service.go offers, in whatever order Go's runtime gives
-- the values of a map.
use myapptest.Common.{
  ℕ, zero, suc, ◌+◌, ◌≤◌, ℤ, pos, negsuc, Bool, true, false, Option, List, [], ◌∷◌, ◌++◌, Text, ◌≡◌,
  refl, sym, ap, ◌∙◌, inl, inr, arith, All, Bool-cases, if◌then◌else◌, not, ltb_ℤ, length, keep_if,
  keep_if-true, keep_if-false, list_beq, nat_eq, list_eq, trim_space,
}
use myapptest.SavedCommands.Suggestions.{
  CommandSuggestion, shown_before, insert_sorted, sorted, first_of, suggestion_limit,
  suggestion_key, put_best,
}

-- How many suggestions pass a test.
unfoldable pub count : (CommandSuggestion → Bool) → List CommandSuggestion → ℕ
count p [] = 0
count p (x ∷ xs) = (if p x then 1 else 0) + count p xs

one_passes : (n : ℕ) → ¬ ((if true then 1 else 0) + n ≡ 0)
one_passes n h = omega arith

none_passes : (n : ℕ) → (if false then 1 else 0) + n ≡ 0 → n ≡ 0
none_passes n h = omega arith

module _ (p : CommandSuggestion → Bool) where
  count-insert_sorted :
      (item : CommandSuggestion) (xs : List CommandSuggestion)
      → count p (insert_sorted item xs) ≡ (if p item then 1 else 0) + count p xs
  unfolding count insert_sorted
  count-insert_sorted item [] = refl
  count-insert_sorted item (x ∷ xs) = elim (Bool-cases (shown_before x item)) [
    | inl h ↦ rw (h, count-insert_sorted item xs) (omega arith)
    | inr h ↦ rw h refl
  ]

  pub count-sorted : (xs : List CommandSuggestion) → count p (sorted xs) ≡ count p xs
  unfolding count sorted
  count-sorted [] = refl
  count-sorted (x ∷ xs) =
      count-insert_sorted x (sorted xs) ∙ ap (λ n. (if p x then 1 else 0) + n) (count-sorted xs)

  pub count-first_of : (n : ℕ) (xs : List CommandSuggestion) → count p (first_of n xs) ≤ count p xs
  unfolding count
  count-first_of zero xs = omega arith
  count-first_of (suc n) [] = omega arith
  count-first_of (suc n) (x ∷ xs) = omega (arith, count-first_of n xs)

  pub count-append : (xs ys : List CommandSuggestion) → count p (xs ++ ys) ≡ count p xs + count p ys
  unfolding count
  count-append [] ys = omega arith
  count-append (x ∷ xs) ys = omega (arith, count-append xs ys)

  pub count-keep_if : (xs : List CommandSuggestion) → count p (keep_if (λ x. not (p x)) xs) ≡ 0
  unfolding count
  count-keep_if [] = refl
  count-keep_if (x ∷ xs) = elim (Bool-cases (p x)) [
    | inl g ↦ ap (count p) (keep_if-false (λ y. not (p y)) x xs (ap not g)) ∙ count-keep_if xs
    | inr g ↦
        ap (count p) (keep_if-true (λ y. not (p y)) x xs (ap not g))
        ∙ rw g (omega (arith, count-keep_if xs))
  ]

  -- None passes, and each fails.
  pub count-zero : (xs : List CommandSuggestion) → count p xs ≡ 0 → All (λ x. p x ≡ false) xs
  unfolding count
  count-zero [] h = tt
  count-zero (x ∷ xs) h = elim (Bool-cases (p x)) [
    | inl g ↦
        absurd (one_passes (count p xs) (ap (λ b. (if b then 1 else 0) + count p xs) (sym g) ∙ h))
    | inr g ↦ (
      g,
      count-zero xs
          (none_passes (count p xs) (ap (λ b. (if b then 1 else 0) + count p xs) (sym g) ∙ h)),
    )
  ]

pub length-first_of : (n : ℕ) (xs : List CommandSuggestion) → length (first_of n xs) ≤ n
length-first_of zero xs = omega arith
length-first_of (suc n) [] = omega arith
length-first_of (suc n) (x ∷ xs) = omega (arith, length-first_of n xs)

pub suggestion_limit_bounds : (n : ℤ) → suggestion_limit n ≤ 20
unfolding suggestion_limit
suggestion_limit_bounds (negsuc n) = omega arith
suggestion_limit_bounds (pos n) = ground arith

module _ (to_lower : Text → Text) (age_hours : Text → Option ℤ)
    (in_map_order : List CommandSuggestion → List CommandSuggestion) where
  -- A command up to case and surrounding blanks.
  unfoldable pub key_of : CommandSuggestion → Text
  unfolding trim_space
  key_of item = to_lower (trim_space item.command)

  unfoldable pub has_key : Text → CommandSuggestion → Bool
  unfolding key_of
  has_key key item = list_beq (key_of item) key

  unfoldable pub put : CommandSuggestion → List CommandSuggestion → List CommandSuggestion
  unfolding put_best
  put item xs = put_best to_lower age_hours in_map_order item xs

  pub put-same :
      (item x : CommandSuggestion) (xs : List CommandSuggestion)
      → list_beq (key_of x) (key_of item) ≡ true
      → put item (x ∷ xs) ≡ (if ltb_ℤ x.score item.score then item else x) ∷ xs
  unfolding put put_best key_of suggestion_key
  put-same item x xs h = rw h refl

  pub put-other :
      (item x : CommandSuggestion) (xs : List CommandSuggestion)
      → list_beq (key_of x) (key_of item) ≡ false
      → put item (x ∷ xs) ≡ x ∷ put item xs
  unfolding put put_best key_of suggestion_key
  put-other item x xs h = rw h refl

  pub count-put :
      (p : CommandSuggestion → Bool) (item : CommandSuggestion) (xs : List CommandSuggestion)
      → count p (put item xs) ≤ (if p item then 1 else 0) + count p xs
  unfolding count put put_best key_of suggestion_key
  count-put p item [] = omega arith
  count-put p item (x ∷ xs) = elim (Bool-cases (list_beq (key_of x) (key_of item))) [
    | inl h ↦ rw (put-same item x xs h) (elim (Bool-cases (ltb_ℤ x.score item.score)) [
      | inl g ↦ rw g (omega arith)
      | inr g ↦ rw g (omega arith)
    ])
    | inr h ↦ rw (put-other item x xs h) (omega (arith, count-put p item xs))
  ]
