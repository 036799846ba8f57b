-- ===== src/SavedCommands/Distinct.antt =====
-- That the map of dedupeSuggestions in internal/commands/service.go has each key once.
use mathlib.Core.Path.{subst}
use myapptest.Common.{
  ◌+◌, ◌≤◌, ℤ, Bool, true, false, false≢true, Option, List, [], ◌∷◌, Text, ◌≡◌, refl, sym, ap, ◌∙◌,
  inl, inr, arith, Bool-cases, if◌then◌else◌, ltb_ℤ, list_beq, list_beq_iff, nat_eq,
}
use myapptest.SavedCommands.Suggestions.{CommandSuggestion, put_best}
use myapptest.SavedCommands.Offered.{count, key_of, has_key, put, put-same, put-other}

-- Keys that are the same, and keys that are not.
key-same : (a b key : Text) → list_beq a b ≡ true → list_beq a key ≡ list_beq b key
key-same a b key h = ap (λ x. list_beq x key) ((list_beq_iff a b).0 h)

key-other : (a b key : Text) → list_beq a b ≡ false → list_beq a key ≡ true → list_beq b key ≡ false
key-other a b key h e = elim (Bool-cases (list_beq b key)) [
  | inl g ↦ absurd (
      false≢true
        (sym h ∙ (list_beq_iff a b).1 ((list_beq_iff a key).0 e ∙ sym ((list_beq_iff b key).0 g))))
  | inr g ↦ g
]

module _ (to_lower : Text → Text) (age_hours : Text → Option ℤ)
    (in_map_order : List CommandSuggestion → List CommandSuggestion) where
  abbrev pub key : CommandSuggestion → Text
  key item = key_of to_lower age_hours in_map_order item

  abbrev pub with_key : Text → CommandSuggestion → Bool
  with_key k item = has_key to_lower age_hours in_map_order k item

  abbrev pub placed : CommandSuggestion → List CommandSuggestion → List CommandSuggestion
  placed item xs = put to_lower age_hours in_map_order item xs

  count-one :
      (k : Text) (x : CommandSuggestion) (xs : List CommandSuggestion) (b : Bool)
      → with_key k x ≡ b
      → count (with_key k) (x ∷ xs) ≡ (if b then 1 else 0) + count (with_key k) xs
  unfolding count
  count-one k x xs b h = ap (λ c. (if c then 1 else 0) + count (with_key k) xs) h

  better : CommandSuggestion → CommandSuggestion → CommandSuggestion
  better x item = if ltb_ℤ x.score item.score then item else x

  better-with_key :
      (k : Text) (x item : CommandSuggestion)
      → list_beq (key x) (key item) ≡ true
      → with_key k (better x item) ≡ with_key k x
  unfolding better has_key
  better-with_key k x item g = elim (Bool-cases (ltb_ℤ x.score item.score)) [
    | inl b ↦ ap (λ c. with_key k (if c then item else x)) b ∙ sym (key-same (key x) (key item) k g)
    | inr b ↦ ap (λ c. with_key k (if c then item else x)) b
  ]

  placed-same :
      (item x : CommandSuggestion) (xs : List CommandSuggestion)
      → list_beq (key x) (key item) ≡ true
      → placed item (x ∷ xs) ≡ better x item ∷ xs
  unfolding better
  placed-same item x xs g = put-same to_lower age_hours in_map_order item x xs g

  -- Which of two with the same key is kept does not change how many have a key.
  count-placed_same :
      (k : Text) (item x : CommandSuggestion) (xs : List CommandSuggestion)
      → list_beq (key x) (key item) ≡ true
      → count (with_key k) (placed item (x ∷ xs)) ≡ count (with_key k) (x ∷ xs)
  unfolding count
  count-placed_same k item x xs g =
      ap (count (with_key k)) (placed-same item x xs g)
      ∙ ap (λ b. (if b then 1 else 0) + count (with_key k) xs) (better-with_key k x item g)

  count-placed_after :
      (k : Text) (item x : CommandSuggestion) (xs : List CommandSuggestion)
      → list_beq (key x) (key item) ≡ false
      → count (with_key k) (placed item (x ∷ xs))
        ≡ (if with_key k x then 1 else 0) + count (with_key k) (placed item xs)
  unfolding count
  count-placed_after k item x xs g =
      ap (count (with_key k)) (put-other to_lower age_hours in_map_order item x xs g)

  -- A suggestion of another key does not change how many have a key.
  count-placed_other :
      (k : Text) (item : CommandSuggestion) (xs : List CommandSuggestion)
      → with_key k item ≡ false
      → count (with_key k) (placed item xs) ≡ count (with_key k) xs
  unfolding count put put_best
  count-placed_other k item [] h = count-one k item [] false h ∙ omega arith
  count-placed_other k item (x ∷ xs) h = elim (Bool-cases (list_beq (key x) (key item))) [
    | inl g ↦ count-placed_same k item x xs g
    | inr g ↦
        count-placed_after k item x xs g
        ∙ ap (λ n. (if with_key k x then 1 else 0) + n) (count-placed_other k item xs h)
  ]

  count-single : (k : Text) (item : CommandSuggestion) → count (with_key k) (item ∷ []) ≤ 1
  unfolding count
  count-single k item = elim (Bool-cases (with_key k item)) [
    | inl h ↦ subst (λ n. n ≤ 1) (sym (count-one k item [] true h)) (omega arith)
    | inr h ↦ subst (λ n. n ≤ 1) (sym (count-one k item [] false h)) (omega arith)
  ]

  -- No key comes twice.
  unfoldable pub AreDistinct : List CommandSuggestion → Type 0
  AreDistinct xs = (k : Text) → count (with_key k) xs ≤ 1

  pub count-placed :
      (k : Text) (item : CommandSuggestion) (xs : List CommandSuggestion)
      → count (with_key k) xs ≤ 1
      → count (with_key k) (placed item xs) ≤ 1
  unfolding put put_best has_key
  count-placed k item [] h = count-single k item
  count-placed k item (x ∷ xs) h = elim (Bool-cases (list_beq (key x) (key item))) [
    | inl g ↦ subst (λ n. n ≤ 1) (sym (count-placed_same k item x xs g)) h
    | inr g ↦
        subst (λ n. n ≤ 1) (sym (count-placed_after k item x xs g))
          (elim (Bool-cases (with_key k x)) [
            | inl e ↦
                subst (λ n. (if with_key k x then 1 else 0) + n ≤ 1)
                  (sym (count-placed_other k item xs (key-other (key x) (key item) k g e)))
                  (subst (λ n. n ≤ 1) (count-one k x xs (with_key k x) refl) h)
            | inr e ↦
                subst (λ b. (if b then 1 else 0) + count (with_key k) (placed item xs) ≤ 1) (sym e)
                  (omega
                    (arith, count-placed k item xs (omega (arith, h, count-one k x xs false e))))
          ])
  ]
