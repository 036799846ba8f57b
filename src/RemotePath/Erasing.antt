-- ===== src/RemotePath/Erasing.antt =====
-- deleteDirectoryRecursive of internal/sftpmanager/recursive_delete.go, over the client of a
-- session. The depth of a directory on a server is not known before: the recursion is on fuel.
use myapptest.Common.{
  ℕ, zero, suc, Bool, false, Option, none, some, List, [], ◌∷◌, Text, ◌⊎◌, inl, inr, if◌then◌else◌,
  ◌||◌, not,
}
use myapptest.RemotePath.{join_remote_path}
use myapptest.RemotePath.Deleting.{safe_remote_child_name}

-- What the code reads of an `fs.FileInfo`.
pub record Entry : Type 0 where
  pub name : Text
  pub is_dir : Bool
  pub is_symlink : Bool

-- The calls of the client and of the context, which act on a world and can fail.
pub record Client (W E : Type 0) : Type 0 where
  pub context_error : W → Option E
  pub read_dir : W → Text → (E ⊎ List (Option Entry)) × W
  pub remove : W → Text → Option E × W
  pub remove_directory : W → Text → Option E × W

pub data EraseError (E : Type 0) : Type 0 where
  stopped : E → EraseError E
  scan_failed : (path : Text) → E → EraseError E
  unsafe_name : (name : Text) → EraseError E
  remove_failed : (name : Text) → E → EraseError E
  directory_failed : (root : Bool) → (path : Text) → E → EraseError E
  out_of_fuel : EraseError E

module _ {W E : Type 0} where
  -- An error ends the loop, else it goes on.
  unfoldable pub then_if :
      (Option (EraseError E) × W) → (W → Option (EraseError E) × W) → Option (EraseError E) × W
  then_if (some e, w) next = (some e, w)
  then_if (none, w) next = next w

  unfoldable pub failed_as : (E → EraseError E) → Option E × W → Option (EraseError E) × W
  failed_as wrap (some e, w) = (some (wrap e), w)
  failed_as wrap (none, w) = (none, w)

  unfoldable pub check_context : (client : Client W E) → W → Option (EraseError E) × W
  unfolding failed_as
  check_context client w = failed_as stopped (client.context_error w, w)

module _ {W E : Type 0} (client : Client W E) where
  -- One entry, where `down` deletes a directory below.
  unfoldable pub delete_entry :
      (down : Text → W → Option (EraseError E) × W)
      → (remote_path : Text) → Option Entry
      → W
      → Option (EraseError E) × W
  unfolding failed_as safe_remote_child_name join_remote_path
  delete_entry down remote_path none w = (none, w)
  delete_entry down remote_path (some entry) w =
      let child_path = join_remote_path remote_path entry.name in
      if not (safe_remote_child_name entry.name)
      then (some (unsafe_name entry.name), w)
      else if entry.is_symlink || not entry.is_dir
      then failed_as (remove_failed entry.name) (client.remove w child_path)
      else down child_path w

  unfoldable pub delete_entries :
      (down : Text → W → Option (EraseError E) × W)
      → (remote_path : Text) → List (Option Entry)
      → W
      → Option (EraseError E) × W
  unfolding delete_entry then_if check_context
  delete_entries down remote_path [] w = (none, w)
  delete_entries down remote_path (entry ∷ entries) w = then_if (check_context client w) (λ u.
      then_if (delete_entry down remote_path entry u)
        (λ v. delete_entries down remote_path entries v))

  unfoldable pub delete_listed :
      (down : Text → W → Option (EraseError E) × W)
      → (remote_path : Text) (root : Bool) → (E ⊎ List (Option Entry)) × W
      → Option (EraseError E) × W
  unfolding delete_entries then_if failed_as
  delete_listed down remote_path root (inl e, w) = (some (scan_failed remote_path e), w)
  delete_listed down remote_path root (inr entries, w) =
      then_if (delete_entries down remote_path entries w)
        (λ u. failed_as (directory_failed root remote_path) (client.remove_directory u remote_path))

  unfoldable pub delete_directory_recursive :
      (fuel : ℕ) (remote_path : Text) (root : Bool) → W → Option (EraseError E) × W
  unfolding delete_listed then_if check_context
  delete_directory_recursive zero remote_path root w = (some out_of_fuel, w)
  delete_directory_recursive (suc fuel) remote_path root w = then_if (check_context client w) (λ u.
      delete_listed (λ path v. delete_directory_recursive fuel path false v) remote_path root
        (client.read_dir u remote_path))
