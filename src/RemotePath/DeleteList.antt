-- ===== src/RemotePath/DeleteList.antt =====
-- What the loops of normalizeDeletePaths in internal/sftpmanager/recursive_delete.go keep, and that
-- nothing it gives lies below something before it.
use mathlib.Core.Path.{subst}
use mathlib.Core.List.{append_assoc, append-nil}
use myapptest.Common.{
  true, false, false≢true, List, [], ◌∷◌, ◌++◌, Text, ◌≡◌, sym, inl, inr, nat_eq, list_beq,
  list_beq_iff, any, All, Bool-cases,
}
use myapptest.RemotePath.Deleting.{
  unique_paths, shorter, insert_path, sorted_paths, is_within, collapse_paths,
}
use myapptest.RemotePath.Covering.{
  collapse-skip, collapse-keep, unique-skip, unique-keep, any-cases,
}

All-join : (P : Text → Type 0) (xs : List Text) (y : Text) → All P xs → P y → All P (xs ++ y ∷ [])
All-join P [] y h p = (p, tt)
All-join P (x ∷ xs) y (q, h) p = (q, All-join P xs y h p)

pub All-any :
    (P : Text → Type 0) (xs : List Text) (q : Text) → All P xs → any (list_beq q) xs ≡ true → P q
All-any P [] q h e = absurd (false≢true e)
All-any P (x ∷ xs) q (p, h) e = elim (any-cases (list_beq q) x xs e) [
  | inl same ↦ subst P (sym ((list_beq_iff q x).0 same)) p
  | inr later ↦ All-any P xs q h later
]

module _ (P : Text → Type 0) where
  pub collapse-All :
      (collapsed paths : List Text)
      → All P collapsed
      → All P paths
      → All P (collapse_paths collapsed paths)
  unfolding collapse_paths
  collapse-All collapsed [] g h = g
  collapse-All collapsed (path ∷ paths) g (p, h) = elim (Bool-cases (is_within collapsed path)) [
    | inl e ↦
        subst (All P) (sym (collapse-skip collapsed path paths e))
          (collapse-All collapsed paths g h)
    | inr e ↦
        subst (All P) (sym (collapse-keep collapsed path paths e))
          (collapse-All (collapsed ++ path ∷ []) paths (All-join P collapsed path g p) h)
  ]

  pub unique-All :
      (paths more : List Text) → All P paths → All P more → All P (unique_paths paths more)
  unfolding unique_paths
  unique-All paths [] g h = g
  unique-All paths (path ∷ more) g (p, h) = elim (Bool-cases (any (list_beq path) paths)) [
    | inl e ↦ subst (All P) (sym (unique-skip paths path more e)) (unique-All paths more g h)
    | inr e ↦
        subst (All P) (sym (unique-keep paths path more e))
          (unique-All (paths ++ path ∷ []) more (All-join P paths path g p) h)
  ]

  insert_path-All : (path : Text) (xs : List Text) → P path → All P xs → All P (insert_path path xs)
  unfolding insert_path
  insert_path-All path [] p h = (p, tt)
  insert_path-All path (x ∷ xs) p (q, h) = elim (Bool-cases (shorter x path)) [
    | inl e ↦ rw e (q, insert_path-All path xs p h)
    | inr e ↦ rw e (p, (q, h))
  ]

  pub sorted_paths-All : (xs : List Text) → All P xs → All P (sorted_paths xs)
  unfolding sorted_paths
  sorted_paths-All [] h = tt
  sorted_paths-All (x ∷ xs) (p, h) = insert_path-All x (sorted_paths xs) p (sorted_paths-All xs h)

-- No path is at or below one of those before it.
unfoldable pub IsFlat : (before paths : List Text) → Type 0
unfolding is_within
IsFlat before [] = Unit
IsFlat before (path ∷ paths) = (is_within before path ≡ false) × IsFlat (before ++ path ∷ []) paths

IsFlat-join :
    (before paths : List Text) (path : Text)
    → IsFlat before paths
    → is_within (before ++ paths) path ≡ false
    → IsFlat before (paths ++ path ∷ [])
unfolding IsFlat
IsFlat-join before [] path f h = (subst (λ xs. is_within xs path ≡ false) (append-nil before) h, tt)
IsFlat-join before (x ∷ paths) path (e, f) h = (
  e,
  IsFlat-join (before ++ x ∷ []) paths path f
      (subst (λ xs. is_within xs path ≡ false) (sym (append_assoc before (x ∷ []) paths)) h),
)

pub collapse-IsFlat :
    (collapsed paths : List Text) → IsFlat [] collapsed → IsFlat [] (collapse_paths collapsed paths)
unfolding collapse_paths
collapse-IsFlat collapsed [] f = f
collapse-IsFlat collapsed (path ∷ paths) f = elim (Bool-cases (is_within collapsed path)) [
  | inl e ↦
      subst (IsFlat []) (sym (collapse-skip collapsed path paths e))
        (collapse-IsFlat collapsed paths f)
  | inr e ↦
      subst (IsFlat []) (sym (collapse-keep collapsed path paths e))
        (collapse-IsFlat (collapsed ++ path ∷ []) paths (IsFlat-join [] collapsed path f e))
]
