-- ===== src/RemotePath/Requested.antt =====
-- That normalizeDeletePaths of internal/sftpmanager/recursive_delete.go gives what was asked for.
use mathlib.Core.Path.{subst}
use myapptest.Common.{
  Bool, true, false, List, [], ◌∷◌, Text, ◌≡◌, refl, sym, ap, ◌∙◌, ◌⊎◌, inl, inr, if◌then◌else◌,
  nat_eq, list_beq, list_beq_iff, any, All, All-imp, Sum-cases, replace_all, codes, trim_space,
  is_empty,
}
use myapptest.RemotePath.{resolve_remote_path}
use myapptest.RemotePath.Checks.{has_parent_traversal}
use myapptest.RemotePath.Deleting.{
  DeleteError, nothing_selected, path_blank, path_with_parent, path_reserved, is_reserved,
  normalize_delete_path, push_path, normal_paths, unique_paths, sorted_paths, is_within,
  collapse_paths, collapsed_of, normalize_delete_paths,
}
use myapptest.RemotePath.Covering.{
  any-head, any-tail, any-sorted_paths, collapse-is_within, unique-has,
}
use myapptest.RemotePath.Apart.{
  IsAtOrBelow, IsNamed, AreApart, is_within-IsAtOrBelow, IsFlat-AreApart, checked-IsNamed,
}
use myapptest.RemotePath.DeleteList.{
  All-any, collapse-All, unique-All, sorted_paths-All, IsFlat, collapse-IsFlat,
}

inl-inr : {A : Type 0} (e : DeleteError) (a : A) → ¬ (inl e ≡ inr a)
inl-inr e a h = cc

abbrev right : {A : Type 0} → A → DeleteError ⊎ A
right a = inr a

inr_inj : {A : Type 0} (a b : A) → right a ≡ right b → a ≡ b
inr_inj a b h = cc

push_path-inr :
    (path : DeleteError ⊎ Text) (rest : DeleteError ⊎ List Text) (ps : List Text)
    → push_path path rest ≡ inr ps
    → (q : Text) × (qs : List Text) × (path ≡ inr q) × (rest ≡ inr qs) × (q ∷ qs ≡ ps)
unfolding push_path
push_path-inr (inl e) rest ps h = absurd (inl-inr e ps h)
push_path-inr (inr q) (inl e) ps h = absurd (inl-inr e ps h)
push_path-inr (inr q) (inr qs) ps h = (q, qs, refl, refl, inr_inj (q ∷ qs) ps h)

admitted :
    (blank parent reserved below : Bool) (q r : Text)
    → (if blank
        then inl path_blank
        else if parent
        then inl path_with_parent
        else if reserved
        then inl path_reserved
        else if below
        then inl path_with_parent
        else inr q)
      ≡ inr r
    → (reserved ≡ false) × (below ≡ false) × (q ≡ r)
admitted true b c d q r h = absurd (inl-inr path_blank r h)
admitted false true c d q r h = absurd (inl-inr path_with_parent r h)
admitted false false true d q r h = absurd (inl-inr path_reserved r h)
admitted false false false true q r h = absurd (inl-inr path_with_parent r h)
admitted false false false false q r h = (refl, refl, inr_inj q r h)

module _ (base : Text) where
  -- A path that stands for one that was asked for, and names a file or a directory.
  unfoldable pub IsOneOf : (raws : List Text) → (path : Text) → Type 0
  unfolding normalize_delete_path IsNamed
  IsOneOf raws path =
      ((raw : Text) × (any (list_beq raw) raws ≡ true)
        × (normalize_delete_path base raw ≡ inr path))
      × IsNamed path

  -- Each path that was asked for is good, and one of the list is at or above it.
  unfoldable pub IsCovered : (ps : List Text) → (raw : Text) → Type 0
  unfolding normalize_delete_path IsAtOrBelow
  IsCovered ps raw =
      (path : Text) × (normalize_delete_path base raw ≡ inr path)
      × ((parent : Text) × (any (list_beq parent) ps ≡ true) × IsAtOrBelow parent path)

  unfoldable Has : (ps : List Text) → (raw : Text) → Type 0
  Has ps raw =
      (path : Text) × (normalize_delete_path base raw ≡ inr path) × (any (list_beq path) ps ≡ true)

  normalize_delete_path-IsOneOf :
      (raw path : Text) (raws : List Text)
      → normalize_delete_path base raw ≡ inr path
      → IsOneOf (raw ∷ raws) path
  unfolding IsOneOf normalize_delete_path
  normalize_delete_path-IsOneOf raw path raws h =
      let text = trim_space (replace_all (codes "\\") (codes "/") raw) in
      let target = resolve_remote_path base text in
      let good =
        admitted (is_empty text) (has_parent_traversal text) (is_reserved target)
          (has_parent_traversal target) target path h in
      (
        (raw, any-head (list_beq raw) raw raws ((list_beq_iff raw raw).1 refl), h),
        checked-IsNamed path (subst (λ x. is_reserved x ≡ false) good.2 good.0)
            (subst (λ x. has_parent_traversal x ≡ false) good.2 good.1),
      )

  IsOneOf-more :
      (raw path : Text) (raws : List Text) → IsOneOf raws path → IsOneOf (raw ∷ raws) path
  unfolding IsOneOf
  IsOneOf-more raw path raws ((r, m, n), e) = ((r, any-tail (list_beq r) raw raws m, n), e)

  Has-more : (path : Text) (ps : List Text) (raw : Text) → Has ps raw → Has (path ∷ ps) raw
  unfolding Has
  Has-more path ps raw (q, n, m) = (q, n, any-tail (list_beq q) path ps m)

  normal_paths_lem :
      (raws ps : List Text)
      → normal_paths base raws ≡ inr ps
      → All (Has ps) raws × All (IsOneOf raws) ps
  unfolding normal_paths Has
  normal_paths_lem [] ps h = (tt, subst (All (IsOneOf [])) (inr_inj [] ps h) tt)
  normal_paths_lem (raw ∷ raws) ps h =
      let (q, qs, g, r, e) =
        push_path-inr (normalize_delete_path base raw) (normal_paths base raws) ps h in
      let (covered, from) = normal_paths_lem raws qs r in
      subst (λ xs. All (Has xs) (raw ∷ raws) × All (IsOneOf (raw ∷ raws)) xs) e
        (
          (
            (q, g, any-head (list_beq q) q qs ((list_beq_iff q q).1 refl)),
            All-imp (Has-more q qs) raws covered,
          ),
          (
            normalize_delete_path-IsOneOf raw q raws g,
            All-imp (λ x. IsOneOf-more raw x raws) qs from,
          ),
        )

  -- What stands for all that was asked for and for nothing else, and has nothing twice.
  unfoldable pub IsDeleteList : (raws ps : List Text) → Type 0
  unfolding IsCovered IsOneOf AreApart
  IsDeleteList raws ps = All (IsCovered ps) raws × All (IsOneOf raws) ps × AreApart [] ps

  kept_of : List Text → List Text
  kept_of paths = collapse_paths [] (sorted_paths (unique_paths [] paths))

  kept_of-is_within :
      (paths : List Text) (path : Text)
      → any (list_beq path) paths ≡ true
      → is_within (kept_of paths) path ≡ true
  unfolding kept_of
  kept_of-is_within paths path h =
      let unique = unique_paths [] paths in
      All-any (λ x. is_within (kept_of paths) x ≡ true) (sorted_paths unique) path
        (collapse-is_within [] (sorted_paths unique))
        (any-sorted_paths (list_beq path) unique
          ∙ All-any (λ x. any (list_beq x) unique ≡ true) paths path (unique-has [] paths) h)

  kept_of-IsCovered :
      (paths : List Text) (raw : Text) → Has paths raw → IsCovered (kept_of paths) raw
  unfolding Has IsCovered
  kept_of-IsCovered paths raw (q, n, m) =
      (q, n, is_within-IsAtOrBelow (kept_of paths) q (kept_of-is_within paths q m))

  kept_of-IsDeleteList :
      (raws paths : List Text)
      → normal_paths base raws ≡ inr paths
      → IsDeleteList raws (kept_of paths)
  unfolding IsDeleteList kept_of IsFlat
  kept_of-IsDeleteList raws paths h =
      let (covered, from) = normal_paths_lem raws paths h in
      let P = IsOneOf raws in
      (
        All-imp (kept_of-IsCovered paths) raws covered,
        collapse-All P [] (sorted_paths (unique_paths [] paths)) tt
            (sorted_paths-All P (unique_paths [] paths) (unique-All P [] paths tt from)),
        IsFlat-AreApart [] (kept_of paths)
            (collapse-IsFlat [] (sorted_paths (unique_paths [] paths)) tt),
      )

  -- Where normalizeDeletePaths gives a list: each path that was asked for is valid, and goes on
  -- after a path of the list with a slash, or is the same, once both are cleaned; each path of the
  -- list stands for one that was asked for, is not the root, `.`, `..` or empty, and has no part
  -- `..`; and no path of the list is the same as one before it, or goes on after it with a slash,
  -- in cleaned form, unless that one is the root or `.` in cleaned form.
  pub normalize_delete_paths-IsDeleteList :
      (raws ps : List Text) → normalize_delete_paths base raws ≡ inr ps → IsDeleteList raws ps
  unfolding normalize_delete_paths collapsed_of kept_of
  normalize_delete_paths-IsDeleteList [] ps h = absurd (inl-inr nothing_selected ps h)
  normalize_delete_paths-IsDeleteList (raw ∷ raws) ps h =
      elim (Sum-cases (normal_paths base (raw ∷ raws))) [
        | inl (e, all) ↦ absurd (inl-inr e ps (ap collapsed_of (sym all) ∙ h))
        | inr (paths, all) ↦
            subst (IsDeleteList (raw ∷ raws))
              (inr_inj (kept_of paths) ps (ap collapsed_of (sym all) ∙ h))
              (kept_of-IsDeleteList (raw ∷ raws) paths all)
      ]

  pub IsDeleteList-All : (raws ps : List Text) → IsDeleteList raws ps → All (IsOneOf raws) ps
  unfolding IsDeleteList
  IsDeleteList-All raws ps (covered, from, flat) = from
