-- ===== src/RemotePath/Tests.antt =====
-- Examples for the paths on a server.
use myapptest.Common.{
  List, [], ◌∷◌, ℕ, ◌≤◌, ◌<◌, Bool, true, false, none, some, Text, codes, ◌≡◌, refl, ◌⊎◌, inl, inr,
  list_beq, nat_eq, ◌||◌,
}
use myapptest.RemotePath.{
  clean_remote_path, join_remote_path, resolve_remote_path, parent_remote_path, base_remote_path,
  remote_rename_candidate,
}
use myapptest.RemotePath.Checks.{
  validate_remote_name, validate_remote_item_path, upload_remote_path, name_reserved,
  path_with_parent,
}
use myapptest.RemotePath.Deleting.{normalize_delete_paths, path_reserved}
use myapptest.RemotePath.Requested.{IsDeleteList, normalize_delete_paths-IsDeleteList}
use myapptest.RemotePath.Conflict.{
  resolve_remote_conflict, resolve_remote_conflict-inr, resolve_remote_conflict-rename, overwrite,
  rename, skip, no_free_name,
}

clean_test : clean_remote_path (codes "/home/root/../demo//") ≡ codes "/home/demo"
unfolding clean_remote_path
clean_test = refl

clean_relative_test : clean_remote_path (codes "测试 dir/../file.txt") ≡ codes "file.txt"
unfolding clean_remote_path
clean_relative_test = refl

above_root_test : clean_remote_path (codes "/../..\\a") ≡ codes "/a"
unfolding clean_remote_path
above_root_test = refl

join_test : join_remote_path (codes "/opt/data") (codes "child") ≡ codes "/opt/data/child"
unfolding join_remote_path
join_test = refl

resolve_test :
    resolve_remote_path (codes "/home/admin") (codes "logs/app.log")
    ≡ codes "/home/admin/logs/app.log"
unfolding resolve_remote_path
resolve_test = refl

parent_test : parent_remote_path (codes "/tmp/a/") ≡ codes "/tmp"
unfolding parent_remote_path
parent_test = refl

base_test : base_remote_path (codes "/tmp/file.txt") ≡ codes "file.txt"
unfolding base_remote_path
base_test = refl

candidate_test : remote_rename_candidate (codes "/tmp/file.txt") 2 ≡ codes "/tmp/file (2).txt"
unfolding remote_rename_candidate
candidate_test = refl

hidden_candidate_test : remote_rename_candidate (codes "/tmp/.env") 1 ≡ codes "/tmp/.env (1)"
unfolding remote_rename_candidate
hidden_candidate_test = refl

reserved_test : validate_remote_name (codes " .. ") ≡ some name_reserved
unfolding validate_remote_name
reserved_test = refl

traversal_test : validate_remote_item_path (codes "safe/../etc") ≡ some path_with_parent
unfolding validate_remote_item_path
traversal_test = refl

-- A path whose first part is two dots after a space is let through, and then read without the
-- space.
spaced_traversal_test :
    (validate_remote_item_path (codes " ../etc") ≡ none)
    × (clean_remote_path (codes " ../etc") ≡ codes "../etc")
unfolding validate_remote_item_path clean_remote_path
spaced_traversal_test = (refl, refl)

spaced_upload_test :
    upload_remote_path (codes "/srv/upload") (codes " ../x") ≡ some (codes "/srv/x")
unfolding upload_remote_path
spaced_upload_test = refl

abbrev in_use : Text → Bool
in_use path = list_beq path (codes "/tmp/a.txt") || list_beq path (codes "/tmp/a (1).txt")

renamed :
    resolve_remote_conflict in_use (codes "/tmp/a.txt") rename ≡ inr (codes "/tmp/a (2).txt", false)
unfolding resolve_remote_conflict
renamed = refl

resolve_remote_conflict-inr_example :
    ((false ≡ false) × ((in_use (codes "/tmp/a (2).txt") ≡ false) ⊎ (rename ≡ overwrite)))
    ⊎ ((false ≡ true)
        × (codes "/tmp/a (2).txt" ≡ codes "/tmp/a.txt")
        × (in_use (codes "/tmp/a.txt") ≡ true)
        × (rename ≡ skip))
resolve_remote_conflict-inr_example =
    resolve_remote_conflict-inr in_use (codes "/tmp/a.txt") (codes "/tmp/a (2).txt") rename false
      renamed

resolve_remote_conflict-rename_example :
    ((resolve_remote_conflict in_use (codes "/tmp/a.txt") rename ≡ inl no_free_name)
      × ((i : ℕ)
          → 1 ≤ i
          → i < 1000
          → in_use (remote_rename_candidate (codes "/tmp/a.txt") i) ≡ true))
    ⊎ ((i : ℕ) × (1 ≤ i)
        × (i < 1000)
        × (resolve_remote_conflict in_use (codes "/tmp/a.txt") rename
            ≡ inr (remote_rename_candidate (codes "/tmp/a.txt") i, false))
        × (in_use (remote_rename_candidate (codes "/tmp/a.txt") i) ≡ false)
        × ((j : ℕ)
            → 1 ≤ j
            → j < i
            → in_use (remote_rename_candidate (codes "/tmp/a.txt") j) ≡ true))
resolve_remote_conflict-rename_example =
    resolve_remote_conflict-rename in_use (codes "/tmp/a.txt") refl

abbrev asked_paths : List Text
asked_paths =
    codes "docs/a/b" ∷ codes "/tmp/x" ∷ codes "docs/a" ∷ codes "docs/a/" ∷ codes "docs/ab" ∷ []

abbrev deleted_paths : List Text
deleted_paths = codes "/tmp/x" ∷ codes "/root/docs/a" ∷ codes "/root/docs/ab" ∷ []

delete_list_test : normalize_delete_paths (codes "/root") asked_paths ≡ inr deleted_paths
unfolding normalize_delete_paths
delete_list_test = refl

delete_root_test :
    normalize_delete_paths (codes "/root") (codes "a" ∷ codes "//" ∷ []) ≡ inl path_reserved
unfolding normalize_delete_paths
delete_root_test = refl

normalize_delete_paths-IsDeleteList_example : IsDeleteList (codes "/root") asked_paths deleted_paths
normalize_delete_paths-IsDeleteList_example =
    normalize_delete_paths-IsDeleteList (codes "/root") asked_paths deleted_paths delete_list_test
