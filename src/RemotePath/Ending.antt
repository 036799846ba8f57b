-- ===== src/RemotePath/Ending.antt =====
-- That deleteDirectoryRecursive of internal/sftpmanager/recursive_delete.go ends on a tree of finite
-- depth.
use myapptest.Common.{
  ℕ, zero, suc, ◌<◌, ◌≤◌, Bool, true, false, Option, none, some, List, [], ◌∷◌, Text, ◌≡◌, ◌⊎◌, inl,
  inr, arith, ◌||◌, not, Bool-cases, All, ◌++◌, sym, trim_space,
}
use mathlib.Core.Path.{subst}
use myapptest.RemotePath.Plain.{IsPart, IsPlain}
use myapptest.RemotePath.Joined.{join_remote_path-IsPlain, safe-IsPart}
use myapptest.RemotePath.{join_remote_path}
use myapptest.RemotePath.Deleting.{safe_remote_child_name}
use myapptest.RemotePath.Erasing.{
  Entry, Client, EraseError, stopped, remove_failed, directory_failed, out_of_fuel, then_if,
  failed_as, check_context, delete_entry, delete_entries, delete_listed, delete_directory_recursive,
}

-- A directory in a listing, whose path is that of the listed one with a slash and its name, is less
-- deep than the one that is listed; and the names of a listing have no spaces around them.
unfoldable pub Falls : (depth : Text → ℕ) → (path : Text) → Option Entry → Type 0
unfolding IsPart trim_space
Falls depth path none = Unit
Falls depth path (some entry) =
    (trim_space entry.name ≡ entry.name)
    × (IsPart entry.name
        → entry.is_symlink ≡ false
        → entry.is_dir ≡ true
        → depth (path ++ b'/' ∷ entry.name) < depth path)

unfoldable pub FallsAll :
    {E : Type 0} → (depth : Text → ℕ) → (path : Text) → E ⊎ List (Option Entry) → Type 0
unfolding Falls
FallsAll depth path (inl e) = Unit
FallsAll depth path (inr entries) = All (Falls depth path) entries

true_dir : (link dir : Bool) → (link || not dir) ≡ false → (link ≡ false) × (dir ≡ true)
true_dir link dir h = ground arith

module _ {W E : Type 0} where
  IsEnded : Option (EraseError E) × W → Type 0
  IsEnded r = ¬ (r.0 ≡ some out_of_fuel)

  then_if-IsEnded :
      (r : Option (EraseError E) × W) (next : W → Option (EraseError E) × W)
      → IsEnded r
      → ((w : W) → IsEnded (next w))
      → IsEnded (then_if r next)
  unfolding then_if IsEnded
  then_if-IsEnded (some e, w) next h f = h
  then_if-IsEnded (none, w) next h f = f w

  failed_as-IsEnded :
      (wrap : E → EraseError E) (r : Option E × W)
      → ((e : E) → ¬ (some (wrap e) ≡ some out_of_fuel))
      → IsEnded (failed_as wrap r)
  unfolding failed_as IsEnded
  failed_as-IsEnded wrap (some e, w) f = f e
  failed_as-IsEnded wrap (none, w) f = λ h. cc

  check_context-IsEnded : (client : Client W E) (w : W) → IsEnded (check_context client w)
  unfolding check_context
  check_context-IsEnded client w =
      failed_as-IsEnded (λ e. stopped e) (client.context_error w, w) (λ e h. cc)

module _ {W E : Type 0} (client : Client W E) (depth : Text → ℕ)
    (falls : (w : W) (path : Text) → FallsAll depth path (client.read_dir w path).0) where
  module _ (down : Text → W → Option (EraseError E) × W) (bound : ℕ)
      (down_ends : (path : Text) (w : W)
        → IsPlain path
        → depth path < bound
        → IsEnded (down path w)) where
    delete_entry-IsEnded :
        (path : Text) (entry : Option Entry) (w : W)
        → IsPlain path
        → depth path ≤ bound
        → Falls depth path entry
        → IsEnded (delete_entry client down path entry w)
    unfolding delete_entry IsEnded Falls
    delete_entry-IsEnded path none w c b f = λ h. cc
    delete_entry-IsEnded path (some entry) w c b (t, f) =
        elim (Bool-cases (safe_remote_child_name entry.name)) [
          | inl safe ↦ elim (Bool-cases (entry.is_symlink || not entry.is_dir)) [
            | inl leaf ↦
                rw (safe, leaf)
                  (failed_as-IsEnded (remove_failed entry.name)
                    (client.remove w (join_remote_path path entry.name)) (λ e h. cc))
            | inr dir ↦
                rw (safe, dir)
                  (let (e, more) =
                      join_remote_path-IsPlain path entry.name c (safe-IsPart entry.name safe) t in
                    let (link, is_dir) = true_dir entry.is_symlink entry.is_dir dir in
                    let less = f (safe-IsPart entry.name safe) link is_dir in
                    subst (λ p. IsEnded (down p w)) (sym e)
                      (down_ends (path ++ b'/' ∷ entry.name) w more (omega (arith, b, less))))
          ]
          | inr bad ↦ rw bad (λ h. cc)
        ]

    delete_entries-IsEnded :
        (path : Text) (entries : List (Option Entry)) (w : W)
        → IsPlain path
        → depth path ≤ bound
        → All (Falls depth path) entries
        → IsEnded (delete_entries client down path entries w)
    unfolding delete_entries IsEnded
    delete_entries-IsEnded path [] w c b f = λ h. cc
    delete_entries-IsEnded path (entry ∷ entries) w c b (f, g) =
        then_if-IsEnded (check_context client w)
          (λ u.
            then_if (delete_entry client down path entry u)
              (λ v. delete_entries client down path entries v))
          (check_context-IsEnded client w)
          (λ u.
            then_if-IsEnded (delete_entry client down path entry u)
              (λ v. delete_entries client down path entries v)
              (delete_entry-IsEnded path entry u c b f)
              (λ v. delete_entries-IsEnded path entries v c b g))

    delete_listed-IsEnded :
        (path : Text) (is_root : Bool) (listed : (E ⊎ List (Option Entry)) × W)
        → IsPlain path
        → depth path ≤ bound
        → FallsAll depth path listed.0
        → IsEnded (delete_listed client down path is_root listed)
    unfolding delete_listed FallsAll IsEnded
    delete_listed-IsEnded path is_root (inl e, w) c b f = λ h. cc
    delete_listed-IsEnded path is_root (inr entries, w) c b f =
        then_if-IsEnded (delete_entries client down path entries w)
          (λ u. failed_as (directory_failed is_root path) (client.remove_directory u path))
          (delete_entries-IsEnded path entries w c b f)
          (λ u.
            failed_as-IsEnded (directory_failed is_root path) (client.remove_directory u path)
              (λ e h. cc))

  -- On a server whose tree is of finite depth (a directory that a listing names, other than by a
  -- symbolic link, is less deep at its path, the listed one followed by a slash and the name) and
  -- whose names have no spaces around them, deleteDirectoryRecursive of a plain path ends: fuel above
  -- the depth of the directory is enough, whatever the calls answer. A path is plain if it is a
  -- slash before each of one or more parts, none of them empty, `.` or `..` or with a slash or a
  -- backslash, and has no space at its end.
  pub delete_directory_recursive-ends :
      (fuel : ℕ) (path : Text) (is_root : Bool) (w : W)
      → IsPlain path
      → depth path < fuel
      → ¬ ((delete_directory_recursive client fuel path is_root w).0 ≡ some out_of_fuel)
  unfolding delete_directory_recursive IsEnded
  delete_directory_recursive-ends zero path is_root w c h = absurd (omega (arith, h))
  delete_directory_recursive-ends (suc fuel) path is_root w c h =
      then_if-IsEnded (check_context client w)
        (λ u.
          delete_listed client (λ p v. delete_directory_recursive client fuel p false v) path
            is_root (client.read_dir u path))
        (check_context-IsEnded client w)
        (λ u.
          delete_listed-IsEnded (λ p v. delete_directory_recursive client fuel p false v) fuel
            (λ p v d g. delete_directory_recursive-ends fuel p false v d g) path is_root
            (client.read_dir u path) c (omega (arith, h)) (falls u path))
