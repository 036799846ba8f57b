-- ===== src/RemotePath/Erased.antt =====
-- What deleteDirectoryRecursive of internal/sftpmanager/recursive_delete.go can reach.
use myapptest.Common.{
  ℕ, zero, suc, Bool, true, false, Option, none, some, List, [], ◌∷◌, Text, ◌≡◌, ◌⊎◌, inl, inr,
  ◌||◌, not, Bool-cases, ◌++◌, All, sym, trim_space,
}
use mathlib.Core.Path.{subst}
use myapptest.RemotePath.Plain.{IsPart, IsPlain}
use myapptest.RemotePath.Joined.{join_remote_path-IsPlain, safe-IsPart}
use myapptest.RemotePath.{join_remote_path}
use myapptest.RemotePath.Deleting.{safe_remote_child_name}
use myapptest.RemotePath.Erasing.{
  Entry, Client, EraseError, directory_failed, remove_failed, then_if, failed_as, check_context,
  delete_entry, delete_entries, delete_listed, delete_directory_recursive,
}

-- A directory, and what is in it or below: a path followed by a slash and a name that has no slash
-- and no backslash, and is not empty, `.` or `..`.
pub data IsBelow (root : Text) : Text → Type 0 where
  itself : IsBelow root root
  child : (path name : Text) → IsBelow root path → IsPart name → IsBelow root (path ++ b'/' ∷ name)

unfoldable pub IsTrimmed : Option Entry → Type 0
unfolding trim_space
IsTrimmed none = Unit
IsTrimmed (some entry) = trim_space entry.name ≡ entry.name

-- The names of a listing have no spaces around them.
unfoldable pub AreTrimmed : {E : Type 0} → E ⊎ List (Option Entry) → Type 0
unfolding trim_space
AreTrimmed (inl e) = Unit
AreTrimmed (inr entries) = All IsTrimmed entries

child_path :
    (root path name : Text)
    → IsBelow root path
    → IsPlain path
    → safe_remote_child_name name ≡ true
    → trim_space name ≡ name
    → IsBelow root (join_remote_path path name) × IsPlain (join_remote_path path name)
child_path root path name b plain safe trimmed =
    let part = safe-IsPart name safe in
    let (e, more) = join_remote_path-IsPlain path name plain part trimmed in
    subst (λ p. IsBelow root p × IsPlain p) (sym e) (child path name b part, more)

module _ {W E : Type 0} (client : Client W E) (root : Text) (I : W → Type 0) where
  -- Reading keeps a property of the world, and so does the removal of what is below the directory.
  pub record KeepsBelow : Type 0 where
    pub read_kept : (w : W) (path : Text) → I w → I (client.read_dir w path).1
    pub remove_kept : (w : W) (path : Text) → IsBelow root path → I w → I (client.remove w path).1
    pub remove_directory_kept :
        (w : W) (path : Text) → IsBelow root path → I w → I (client.remove_directory w path).1

module _ {W E : Type 0} (client : Client W E) (root : Text) (I : W → Type 0)
    (keeps : KeepsBelow client root I)
    (trimmed : (w : W) (path : Text) → AreTrimmed (client.read_dir w path).0) where
  then_if-kept :
      (r : Option (EraseError E) × W) (next : W → Option (EraseError E) × W)
      → I r.1
      → ((w : W) → I w → I (next w).1)
      → I (then_if r next).1
  unfolding then_if
  then_if-kept (some e, w) next i f = i
  then_if-kept (none, w) next i f = f w i

  failed_as-kept : (wrap : E → EraseError E) (r : Option E × W) → I r.1 → I (failed_as wrap r).1
  unfolding failed_as
  failed_as-kept wrap (some e, w) i = i
  failed_as-kept wrap (none, w) i = i

  check_context-kept : (w : W) → I w → I (check_context client w).1
  unfolding check_context
  check_context-kept w i = failed_as-kept (λ e. EraseError.stopped e) (client.context_error w, w) i

  module _ (down : Text → W → Option (EraseError E) × W)
      (down_kept : (path : Text) (w : W)
        → IsBelow root path
        → IsPlain path
        → I w
        → I (down path w).1) where
    delete_entry-kept :
        (path : Text) (entry : Option Entry) (w : W)
        → IsBelow root path
        → IsPlain path
        → IsTrimmed entry
        → I w
        → I (delete_entry client down path entry w).1
    unfolding delete_entry IsTrimmed
    delete_entry-kept path none w b c t i = i
    delete_entry-kept path (some entry) w b c t i =
        elim (Bool-cases (safe_remote_child_name entry.name)) [
          | inl safe ↦ elim (Bool-cases (entry.is_symlink || not entry.is_dir)) [
            | inl leaf ↦
                rw (safe, leaf)
                  (failed_as-kept (remove_failed entry.name)
                    (client.remove w (join_remote_path path entry.name))
                    (keeps.remove_kept w (join_remote_path path entry.name)
                      (child_path root path entry.name b c safe t).0 i))
            | inr dir ↦
                rw (safe, dir)
                  (down_kept (join_remote_path path entry.name) w
                    (child_path root path entry.name b c safe t).0
                    (child_path root path entry.name b c safe t).1 i)
          ]
          | inr bad ↦ rw bad i
        ]

    delete_entries-kept :
        (path : Text) (entries : List (Option Entry)) (w : W)
        → IsBelow root path
        → IsPlain path
        → All IsTrimmed entries
        → I w
        → I (delete_entries client down path entries w).1
    unfolding delete_entries
    delete_entries-kept path [] w b c t i = i
    delete_entries-kept path (entry ∷ entries) w b c (t, ts) i =
        then_if-kept (check_context client w)
          (λ u.
            then_if (delete_entry client down path entry u)
              (λ v. delete_entries client down path entries v))
          (check_context-kept w i)
          (λ u j.
            then_if-kept (delete_entry client down path entry u)
              (λ v. delete_entries client down path entries v)
              (delete_entry-kept path entry u b c t j)
              (λ v k. delete_entries-kept path entries v b c ts k))

    delete_listed-kept :
        (path : Text) (is_root : Bool) (listed : (E ⊎ List (Option Entry)) × W)
        → IsBelow root path
        → IsPlain path
        → AreTrimmed listed.0
        → I listed.1
        → I (delete_listed client down path is_root listed).1
    unfolding delete_listed AreTrimmed
    delete_listed-kept path is_root (inl e, w) b c t i = i
    delete_listed-kept path is_root (inr entries, w) b c t i =
        then_if-kept (delete_entries client down path entries w)
          (λ u. failed_as (directory_failed is_root path) (client.remove_directory u path))
          (delete_entries-kept path entries w b c t i)
          (λ u j.
            failed_as-kept (directory_failed is_root path) (client.remove_directory u path)
              (keeps.remove_directory_kept u path b j))

  below-kept :
      (fuel : ℕ) (path : Text) (is_root : Bool) (w : W)
      → IsBelow root path
      → IsPlain path
      → I w
      → I (delete_directory_recursive client fuel path is_root w).1
  unfolding delete_directory_recursive
  below-kept zero path is_root w b c i = i
  below-kept (suc fuel) path is_root w b c i =
      then_if-kept (check_context client w)
        (λ u.
          delete_listed client (λ p v. delete_directory_recursive client fuel p false v) path
            is_root (client.read_dir u path))
        (check_context-kept w i)
        (λ u j.
          delete_listed-kept (λ p v. delete_directory_recursive client fuel p false v)
            (λ p v d e k. below-kept fuel p false v d e k) path is_root (client.read_dir u path) b c
            (trimmed u path) (keeps.read_kept u path j))

  -- A property of the world that the client keeps when it reads, and when it removes the directory
  -- or what is below it, holds after deleteDirectoryRecursive of that directory.
  pub delete_directory_recursive-kept :
      (fuel : ℕ) (is_root : Bool) (w : W)
      → IsPlain root
      → I w
      → I (delete_directory_recursive client fuel root is_root w).1
  delete_directory_recursive-kept fuel is_root w c i = below-kept fuel root is_root w itself c i
