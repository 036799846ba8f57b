-- ===== src/RemotePath/Checks.antt =====
-- What a path or a name on a server has to be: validateRemoteName of internal/sftpmanager/path.go,
-- validateRemoteItemPath of manager_paths.go, hasParentTraversal and uploadRemotePath of
-- recursive.go.
use myapptest.Common.{
  Bool, Option, none, some, Text, codes, if◌then◌else◌, ◌||◌, nat_eq, list_beq, any, is_empty,
  has_prefix, contains_any, replace_all, split_on, trim_space,
}
use myapptest.RemotePath.{clean_remote_path, base_remote_path, join_remote_path}

pub data NameError : Type 0 where
  name_empty name_with_separator name_reserved : NameError

-- The error, if there is one.
unfoldable pub validate_remote_name : Text → Option NameError
unfolding trim_space
validate_remote_name given =
    let name = trim_space given in
    if is_empty name
    then some name_empty
    else if contains_any (codes "/") name || contains_any (codes "\\") name
    then some name_with_separator
    else if list_beq name (codes ".") || list_beq name (codes "..")
    then some name_reserved
    else none

unfoldable pub has_parent_traversal : Text → Bool
unfolding replace_all split_on
has_parent_traversal value =
    any (list_beq (codes "..")) (split_on b'/' (replace_all (codes "\\") (codes "/") value))

pub data PathError : Type 0 where
  path_empty path_with_control path_with_parent path_invalid : PathError

unfoldable pub validate_remote_item_path : Text → Option PathError
unfolding trim_space has_parent_traversal clean_remote_path base_remote_path
validate_remote_item_path remote_path =
    let cleaned = clean_remote_path remote_path in
    if is_empty (trim_space remote_path)
    then some path_empty
    else if contains_any (codes "\0\r\n") remote_path
    then some path_with_control
    else if has_parent_traversal remote_path
    then some path_with_parent
    else if is_empty cleaned
        || list_beq cleaned (codes ".")
        || list_beq cleaned (codes "..")
        || list_beq (base_remote_path cleaned) (codes "..")
    then some path_invalid
    else none

-- The path of a file below the root of an upload; none where its own path is not safe. The path is
-- one of a server that runs a Unix, where `filepath.ToSlash` changes nothing.
unfoldable pub upload_remote_path : (remote_root relative_path : Text) → Option Text
unfolding clean_remote_path has_parent_traversal join_remote_path has_prefix
upload_remote_path remote_root relative_path =
    if is_empty relative_path || list_beq relative_path (codes ".")
    then some (clean_remote_path remote_root)
    else if has_parent_traversal relative_path || has_prefix (codes "/") relative_path
    then none
    else some (join_remote_path remote_root relative_path)
