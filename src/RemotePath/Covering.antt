-- ===== src/RemotePath/Covering.antt =====
-- What normalizeDeletePaths of internal/sftpmanager/recursive_delete.go makes of the paths that are
-- asked for.
use mathlib.Core.Path.{subst}
use myapptest.Common.{
  Bool, true, false, false≢true, List, [], ◌∷◌, ◌++◌, Text, ◌≡◌, refl, sym, ap, ◌∙◌, ◌⊎◌, inl, inr,
  arith, ◌||◌, nat_eq, list_beq, list_beq_iff, any, All, Bool-cases,
}
use myapptest.RemotePath.{clean_remote_path}
use myapptest.RemotePath.Deleting.{
  is_remote_descendant, unique_paths, shorter, insert_path, sorted_paths, is_within, collapse_paths,
}

is_remote_descendant_self : (path : Text) → is_remote_descendant path path ≡ true
unfolding is_remote_descendant
is_remote_descendant_self path =
    rw ((list_beq_iff (clean_remote_path path) (clean_remote_path path)).1 refl) refl

pub collapse-skip :
    (collapsed : List Text) (path : Text) (paths : List Text)
    → is_within collapsed path ≡ true
    → collapse_paths collapsed (path ∷ paths) ≡ collapse_paths collapsed paths
unfolding collapse_paths
collapse-skip collapsed path paths h = rw h refl

pub collapse-keep :
    (collapsed : List Text) (path : Text) (paths : List Text)
    → is_within collapsed path ≡ false
    → collapse_paths collapsed (path ∷ paths) ≡ collapse_paths (collapsed ++ path ∷ []) paths
unfolding collapse_paths
collapse-keep collapsed path paths h = rw h refl

pub unique-skip :
    (paths : List Text) (path : Text) (more : List Text)
    → any (list_beq path) paths ≡ true
    → unique_paths paths (path ∷ more) ≡ unique_paths paths more
unfolding unique_paths
unique-skip paths path more h = rw h refl

pub unique-keep :
    (paths : List Text) (path : Text) (more : List Text)
    → any (list_beq path) paths ≡ false
    → unique_paths paths (path ∷ more) ≡ unique_paths (paths ++ path ∷ []) more
unfolding unique_paths
unique-keep paths path more h = rw h refl

any_swap : (a b c : Bool) → (a || (b || c)) ≡ (b || (a || c))
any_swap true true c = refl
any_swap true false c = refl
any_swap false b c = refl

module _ (p : Text → Bool) where
  pub any-head : (x : Text) (xs : List Text) → p x ≡ true → any p (x ∷ xs) ≡ true
  any-head x xs h = rw h refl

  pub any-tail : (x : Text) (xs : List Text) → any p xs ≡ true → any p (x ∷ xs) ≡ true
  any-tail x xs h = ground arith

  pub any-cases :
      (x : Text) (xs : List Text) → any p (x ∷ xs) ≡ true → (p x ≡ true) ⊎ (any p xs ≡ true)
  any-cases x xs h = elim (Bool-cases (p x)) [
    | inl e ↦ inl e
    | inr e ↦ inr (ap (λ b. b || any p xs) (sym e) ∙ h)
  ]

  any-left : (xs ys : List Text) → any p xs ≡ true → any p (xs ++ ys) ≡ true
  any-left [] ys h = absurd (false≢true h)
  any-left (x ∷ xs) ys h = elim (any-cases x xs h) [
    | inl e ↦ any-head x (xs ++ ys) e
    | inr e ↦ any-tail x (xs ++ ys) (any-left xs ys e)
  ]

  any-last : (xs : List Text) (y : Text) → p y ≡ true → any p (xs ++ y ∷ []) ≡ true
  any-last [] y h = any-head y [] h
  any-last (x ∷ xs) y h = any-tail x (xs ++ y ∷ []) (any-last xs y h)

  -- What a test finds, it finds after each loop.
  collapse-any :
      (collapsed paths : List Text)
      → any p collapsed ≡ true
      → any p (collapse_paths collapsed paths) ≡ true
  unfolding collapse_paths
  collapse-any collapsed [] h = h
  collapse-any collapsed (path ∷ paths) h = elim (Bool-cases (is_within collapsed path)) [
    | inl e ↦ ap (any p) (collapse-skip collapsed path paths e) ∙ collapse-any collapsed paths h
    | inr e ↦
        ap (any p) (collapse-keep collapsed path paths e)
        ∙ collapse-any (collapsed ++ path ∷ []) paths (any-left collapsed (path ∷ []) h)
  ]

  unique-any :
      (paths more : List Text) → any p paths ≡ true → any p (unique_paths paths more) ≡ true
  unfolding unique_paths
  unique-any paths [] h = h
  unique-any paths (path ∷ more) h = elim (Bool-cases (any (list_beq path) paths)) [
    | inl e ↦ ap (any p) (unique-skip paths path more e) ∙ unique-any paths more h
    | inr e ↦
        ap (any p) (unique-keep paths path more e)
        ∙ unique-any (paths ++ path ∷ []) more (any-left paths (path ∷ []) h)
  ]

  any-insert_path : (path : Text) (xs : List Text) → any p (insert_path path xs) ≡ any p (path ∷ xs)
  unfolding insert_path
  any-insert_path path [] = refl
  any-insert_path path (x ∷ xs) = elim (Bool-cases (shorter x path)) [
    | inl h ↦ rw (h, any-insert_path path xs) (any_swap (p x) (p path) (any p xs))
    | inr h ↦ rw h refl
  ]

  pub any-sorted_paths : (xs : List Text) → any p (sorted_paths xs) ≡ any p xs
  unfolding sorted_paths
  any-sorted_paths [] = refl
  any-sorted_paths (x ∷ xs) =
      any-insert_path x (sorted_paths xs) ∙ ap (λ b. p x || b) (any-sorted_paths xs)

-- Each path that was there is at or below one of those that are kept.
pub collapse-is_within :
    (collapsed paths : List Text)
    → All (λ path. is_within (collapse_paths collapsed paths) path ≡ true) paths
unfolding is_within
collapse-is_within collapsed [] = tt
collapse-is_within collapsed (path ∷ paths) = elim (Bool-cases (is_within collapsed path)) [
  | inl h ↦
      subst (λ kept. All (λ x. is_within kept x ≡ true) (path ∷ paths))
        (sym (collapse-skip collapsed path paths h))
        (
          collapse-any (λ parent. is_remote_descendant parent path) collapsed paths h,
          collapse-is_within collapsed paths,
        )
  | inr h ↦
      subst (λ kept. All (λ x. is_within kept x ≡ true) (path ∷ paths))
        (sym (collapse-keep collapsed path paths h))
        (
          collapse-any (λ parent. is_remote_descendant parent path) (collapsed ++ path ∷ []) paths
              (any-last (λ parent. is_remote_descendant parent path) collapsed path
                (is_remote_descendant_self path)),
          collapse-is_within (collapsed ++ path ∷ []) paths,
        )
]

-- Each path is among the unique ones.
pub unique-has :
    (paths more : List Text)
    → All (λ path. any (list_beq path) (unique_paths paths more) ≡ true) more
unique-has paths [] = tt
unique-has paths (path ∷ more) = elim (Bool-cases (any (list_beq path) paths)) [
  | inl h ↦
      subst (λ kept. All (λ x. any (list_beq x) kept ≡ true) (path ∷ more))
        (sym (unique-skip paths path more h))
        (unique-any (list_beq path) paths more h, unique-has paths more)
  | inr h ↦
      subst (λ kept. All (λ x. any (list_beq x) kept ≡ true) (path ∷ more))
        (sym (unique-keep paths path more h))
        (
          unique-any (list_beq path) (paths ++ path ∷ []) more
              (any-last (list_beq path) paths path ((list_beq_iff path path).1 refl)),
          unique-has (paths ++ path ∷ []) more,
        )
]
