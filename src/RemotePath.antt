-- ===== src/RemotePath.antt =====
-- internal/sftpmanager/path.go: paths on a server, with `path.Clean`, `Join`, `Dir`, `Base`,
-- `Split` and `Ext` of Go's standard library.
pub mod Checks
pub mod Conflict
pub mod Deleting
pub mod Covering
pub mod DeleteList
pub mod Apart
pub mod Requested
pub mod Erasing
pub mod Plain
pub mod Joined
pub mod Erased
pub mod Ending
pub mod Deletion
pub mod Deleted
pub mod Removal
mod DeleteTests
mod Tests
use myapptest.Common.{
  ℕ, Bool, true, false, Option, none, some, List, [], ◌∷◌, ◌++◌, Text, codes, if◌then◌else◌, ◌&&◌,
  ◌||◌, not, nat_beq, list_beq, nat_eq, any, length, is_empty, has_prefix, contains_any,
  replace_all, split_on, join_with, trim_space, decimal, ℤ, pos,
}

abbrev same_text : Text → Text → Bool
same_text a b = list_beq a b

abbrev is_rooted : Text → Bool
is_rooted s = has_prefix (codes "/") s

-- The parts of a path, the last one first, with `..` taking the one before it away. What is above
-- the root is the root.
unfoldable pub clean_parts : (rooted : Bool) (before : List Text) → List Text → List Text
clean_parts rooted before [] = before
clean_parts rooted [] (part ∷ parts) =
    let skip = clean_parts rooted [] parts in
    let keep = clean_parts rooted (part ∷ []) parts in
    if is_empty part || same_text part (codes ".")
    then skip
    else if same_text part (codes "..") && rooted
    then skip
    else keep
clean_parts rooted (last ∷ before) (part ∷ parts) =
    let skip = clean_parts rooted (last ∷ before) parts in
    let up = clean_parts rooted before parts in
    let keep = clean_parts rooted (part ∷ last ∷ before) parts in
    if is_empty part || same_text part (codes ".")
    then skip
    else if same_text part (codes "..") && not (same_text last (codes ".."))
    then up
    else keep

unfoldable pub reversed : List Text → List Text → List Text
reversed [] done = done
reversed (part ∷ parts) done = reversed parts (part ∷ done)

-- `path.Clean`
unfoldable pub path_clean : Text → Text
unfolding has_prefix split_on join_with clean_parts reversed
path_clean s =
    let rooted = is_rooted s in
    let cleaned = join_with (codes "/") (reversed (clean_parts rooted [] (split_on b'/' s)) []) in
    if rooted then b'/' ∷ cleaned else if is_empty cleaned then codes "." else cleaned

-- `path.Join` of two elements.
unfoldable pub path_join : Text → Text → Text
unfolding path_clean
path_join a b =
    if is_empty a
    then (if is_empty b then [] else path_clean b)
    else if is_empty b
    then path_clean a
    else path_clean (a ++ codes "/" ++ b)

-- `path.Split`: up to the last slash, which is with the first part, and the rest.
unfoldable pub path_split : Text → Text × Text
path_split [] = ([], [])
path_split (c ∷ s) =
    let (dir, base) = path_split s in
    if is_empty dir
    then (if nat_beq c b'/' then (c ∷ [], base) else ([], c ∷ base))
    else (c ∷ dir, base)

-- `path.Dir`
unfoldable pub path_dir : Text → Text
unfolding path_clean path_split
path_dir s = path_clean (path_split s).0

unfoldable pub without_slashes : Text → Text
without_slashes [] = []
without_slashes (c ∷ s) =
    let rest = without_slashes s in if is_empty rest && nat_beq c b'/' then [] else c ∷ rest

-- `path.Base`
unfoldable pub path_base : Text → Text
unfolding path_split without_slashes
path_base s =
    if is_empty s
    then codes "."
    else let base = (path_split (without_slashes s)).1 in if is_empty base then codes "/" else base

-- The suffix from the last dot of a name on, with what is before it: `path.Ext`, and
-- `strings.TrimSuffix` of it.
unfoldable pub stem_and_ext : Text → Text × Text
stem_and_ext [] = ([], [])
stem_and_ext (c ∷ s) =
    let (stem, ext) = stem_and_ext s in
    if is_empty ext
    then (if nat_beq c b'.' then ([], c ∷ s) else (c ∷ stem, []))
    else (c ∷ stem, ext)

unfoldable pub with_slashes : Text → Text
unfolding replace_all trim_space
with_slashes value = trim_space (replace_all (codes "\\") (codes "/") value)

unfoldable pub clean_remote_path : Text → Text
unfolding with_slashes path_clean
clean_remote_path given =
    let value = with_slashes given in
    let cleaned = path_clean value in
    if is_empty value || same_text value (codes ".")
    then codes "."
    else if same_text value (codes "/")
    then codes "/"
    else if is_rooted value && not (is_rooted cleaned)
    then b'/' ∷ cleaned
    else cleaned

unfoldable pub join_remote_path : (parent_path name : Text) → Text
unfolding clean_remote_path with_slashes path_join
join_remote_path parent_path name =
    let parent = clean_remote_path parent_path in
    let below = with_slashes name in
    if is_empty below
    then parent
    else if is_rooted below || same_text parent (codes ".")
    then clean_remote_path below
    else clean_remote_path (path_join parent below)

unfoldable pub resolve_remote_path : (current_path candidate : Text) → Text
unfolding clean_remote_path with_slashes join_remote_path
resolve_remote_path current_path given =
    let candidate = with_slashes given in
    if is_empty candidate
    then clean_remote_path current_path
    else if is_rooted candidate
        || same_text candidate (codes ".")
        || has_prefix (codes "./") candidate
    then clean_remote_path candidate
    else join_remote_path current_path candidate

unfoldable pub parent_remote_path : Text → Text
unfolding clean_remote_path path_dir
parent_remote_path given =
    let value = clean_remote_path given in
    let parent = path_dir value in
    if same_text value (codes "/") || same_text value (codes ".")
    then value
    else if same_text parent (codes ".") && is_rooted value
    then codes "/"
    else clean_remote_path parent

unfoldable pub base_remote_path : Text → Text
unfolding clean_remote_path path_base
base_remote_path given =
    let value = clean_remote_path given in
    if same_text value (codes "/") || same_text value (codes ".") then value else path_base value

-- The `index`-th name to take for a path whose name is in use.
unfoldable pub remote_rename_candidate : (original : Text) (index : ℕ) → Text
unfolding clean_remote_path path_split stem_and_ext decimal path_join
remote_rename_candidate original index =
    let (dir, base) = path_split (clean_remote_path original) in
    let (stem, ext) = stem_and_ext base in
    let bare = is_empty stem in
    clean_remote_path (
      path_join dir (
        (if bare then base else stem)
        ++ codes " ("
        ++ decimal (pos index)
        ++ codes ")"
        ++ (if bare then [] else ext)))
