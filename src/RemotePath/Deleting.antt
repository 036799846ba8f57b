-- ===== src/RemotePath/Deleting.antt =====
-- The list of paths that internal/sftpmanager/recursive_delete.go deletes: normalizeDeletePaths and
-- what it calls.
use myapptest.Common.{
  Bool, true, false, List, [], ◌∷◌, ◌++◌, Text, codes, ◌⊎◌, inl, inr, if◌then◌else◌, ◌||◌, ◌&&◌,
  not, nat_eq, nat_beq, ltb, list_beq, any, is_empty, has_prefix, contains_any, replace_all,
  trim_space, text_less, utf8_length,
}
use myapptest.RemotePath.{clean_remote_path, resolve_remote_path}
use myapptest.RemotePath.Checks.{has_parent_traversal}

pub data DeleteError : Type 0 where
  nothing_selected path_blank path_with_parent path_reserved : DeleteError

-- The root, and the paths that stand for a directory whose name is not known.
unfoldable pub is_reserved : Text → Bool
is_reserved path =
    is_empty path
    || list_beq path (codes ".")
    || list_beq path (codes "/")
    || list_beq path (codes "..")

unfoldable pub normalize_delete_path : (base raw_path : Text) → DeleteError ⊎ Text
unfolding replace_all trim_space has_parent_traversal resolve_remote_path is_reserved
normalize_delete_path base raw_path =
    let raw = trim_space (replace_all (codes "\\") (codes "/") raw_path) in
    let remote_path = resolve_remote_path base raw in
    if is_empty raw
    then inl path_blank
    else if has_parent_traversal raw
    then inl path_with_parent
    else if is_reserved remote_path
    then inl path_reserved
    else if has_parent_traversal remote_path
    then inl path_with_parent
    else inr remote_path

unfoldable pub safe_remote_child_name : Text → Bool
safe_remote_child_name name =
    not (is_empty name)
    && not (list_beq name (codes "."))
    && not (list_beq name (codes ".."))
    && not (contains_any (codes "/") name)
    && not (contains_any (codes "\\") name)

unfoldable pub is_remote_descendant : (parent child : Text) → Bool
unfolding clean_remote_path has_prefix
is_remote_descendant given_parent given_child =
    let parent = clean_remote_path given_parent in
    let child = clean_remote_path given_child in
    if list_beq parent child
    then true
    else if list_beq parent (codes "/") || list_beq parent (codes ".")
    then false
    else has_prefix (parent ++ codes "/") child

unfoldable pub push_path : DeleteError ⊎ Text → DeleteError ⊎ List Text → DeleteError ⊎ List Text
push_path (inl e) rest = inl e
push_path (inr path) (inl e) = inl e
push_path (inr path) (inr paths) = inr (path ∷ paths)

-- The first error, or all the paths.
unfoldable pub normal_paths : (base : Text) → List Text → DeleteError ⊎ List Text
unfolding normalize_delete_path push_path
normal_paths base [] = inr []
normal_paths base (raw ∷ raws) = push_path (normalize_delete_path base raw) (normal_paths base raws)

-- The paths with those that are not among them yet.
unfoldable pub unique_paths : (paths more : List Text) → List Text
unique_paths paths [] = paths
unique_paths paths (path ∷ more) =
    let same = unique_paths paths more in
    let longer = unique_paths (paths ++ path ∷ []) more in
    if any (list_beq path) paths then same else longer

unfoldable pub shorter : Text → Text → Bool
unfolding utf8_length text_less
shorter a b =
    if nat_beq (utf8_length a) (utf8_length b)
    then text_less a b
    else ltb (utf8_length a) (utf8_length b)

-- `sort.Slice`: no two of the paths are the same, so there is one order.
unfoldable pub insert_path : Text → List Text → List Text
unfolding shorter
insert_path path [] = path ∷ []
insert_path path (x ∷ xs) =
    let later = insert_path path xs in if shorter x path then x ∷ later else path ∷ x ∷ xs

unfoldable pub sorted_paths : List Text → List Text
unfolding insert_path
sorted_paths [] = []
sorted_paths (x ∷ xs) = insert_path x (sorted_paths xs)

-- A path with one of a list at or above it.
unfoldable pub is_within : List Text → Text → Bool
unfolding is_remote_descendant
is_within collapsed candidate = any (λ parent. is_remote_descendant parent candidate) collapsed

-- The last loop, with the paths that are kept so far.
unfoldable pub collapse_paths : (collapsed paths : List Text) → List Text
unfolding is_within
collapse_paths collapsed [] = collapsed
collapse_paths collapsed (candidate ∷ paths) =
    let without = collapse_paths collapsed paths in
    let with_it = collapse_paths (collapsed ++ candidate ∷ []) paths in
    if is_within collapsed candidate then without else with_it

unfoldable pub collapsed_of : DeleteError ⊎ List Text → DeleteError ⊎ List Text
unfolding unique_paths sorted_paths collapse_paths
collapsed_of (inl e) = inl e
collapsed_of (inr paths) = inr (collapse_paths [] (sorted_paths (unique_paths [] paths)))

unfoldable pub normalize_delete_paths : (base : Text) → List Text → DeleteError ⊎ List Text
unfolding normal_paths collapsed_of
normalize_delete_paths base [] = inl nothing_selected
normalize_delete_paths base (raw ∷ raws) = collapsed_of (normal_paths base (raw ∷ raws))
