-- ===== src/RemotePath/Deletion.antt =====
-- Manager.Delete of internal/sftpmanager/recursive_delete.go in a session of SFTP: all the paths are
-- looked at before the first is removed.
use myapptest.Common.{
  ℕ, Bool, true, Option, none, some, List, [], ◌∷◌, Text, ◌⊎◌, inl, inr, if◌then◌else◌, ◌&&◌, not,
  is_empty, trim_space,
}
use myapptest.RemotePath.Deleting.{DeleteError, normalize_delete_paths}
use myapptest.RemotePath.Erasing.{Entry, Client, EraseError, delete_directory_recursive}

-- What Delete reads of its request.
pub record SftpDeleteRequest : Type 0 where
  pub path : Text
  pub paths : List Text
  pub recursive : Bool

pub data DeletionError (E : Type 0) : Type 0 where
  bad_paths : DeleteError → DeletionError E
  context_done stat_failed inspect_failed rmdir_failed remove_failed : E → DeletionError E
  not_empty : DeletionError E
  recursive_failed : EraseError E → DeletionError E

pub record DeleteTarget : Type 0 where
  pub path : Text
  pub info : Entry

unfoldable pub raw_paths_of : SftpDeleteRequest → List Text
unfolding trim_space
raw_paths_of request = elim request.paths [
  | [] ↦ if not (is_empty (trim_space request.path)) then request.path ∷ [] else []
  | p ∷ ps ↦ p ∷ ps
]

abbrev pub target_of : Text → Entry → DeleteTarget
target_of path info = record { path = path; info = info }

-- A directory that is not a symbolic link.
unfoldable pub is_true_dir : Entry → Bool
is_true_dir info = info.is_dir && not info.is_symlink

module _ {W E : Type 0} where
  unfoldable pub with_listing :
      DeleteTarget → (E ⊎ List (Option Entry)) × W → (DeletionError E ⊎ DeleteTarget) × W
  with_listing target (inl e, w) = (inl (inspect_failed e), w)
  with_listing target (inr [], w) = (inr target, w)
  with_listing target (inr (entry ∷ entries), w) = (inl not_empty, w)

  unfoldable pub failed_with :
      {F : Type 0} → (F → DeletionError E) → Option F × W → Option (DeletionError E) × W
  failed_with wrap (some e, w) = (some (wrap e), w)
  failed_with wrap (none, w) = (none, w)

  -- A loop that ends at an error.
  unfoldable pub and_then :
      Option (DeletionError E) × W
      → (W → Option (DeletionError E) × W)
      → Option (DeletionError E) × W
  and_then (some e, w) next = (some e, w)
  and_then (none, w) next = next w

  unfoldable pub and_more :
      (DeletionError E ⊎ DeleteTarget) × W
      → (W → (DeletionError E ⊎ List DeleteTarget) × W)
      → (DeletionError E ⊎ List DeleteTarget) × W
  and_more (inl e, w) next = (inl e, w)
  and_more (inr target, w) next =
      let (more, u) = next w in
      (elim more [ inl e ↦ inl e | inr targets ↦ inr (target ∷ targets) ], u)

module _ {W E : Type 0} (client : Client W E) (lstat : W → Text → (E ⊎ Entry) × W)
    (recursive : Bool) where
  unfoldable pub with_info : Text → (E ⊎ Entry) × W → (DeletionError E ⊎ DeleteTarget) × W
  unfolding with_listing is_true_dir
  with_info path (inl e, w) = (inl (stat_failed e), w)
  with_info path (inr info, w) =
      if is_true_dir info && not recursive
      then with_listing (target_of path info) (client.read_dir w path)
      else (inr (target_of path info), w)

  unfoldable pub inspect_target : Text → W → (DeletionError E ⊎ DeleteTarget) × W
  unfolding with_info
  inspect_target path w = elim (client.context_error w) [
    | some e ↦ (inl (context_done e), w)
    | none ↦ with_info path (lstat w path)
  ]

  unfoldable pub inspect_targets : List Text → W → (DeletionError E ⊎ List DeleteTarget) × W
  unfolding inspect_target and_more
  inspect_targets [] w = (inr [], w)
  inspect_targets (path ∷ paths) w = and_more (inspect_target path w) (λ u. inspect_targets paths u)

  module _ (fuel : ℕ) where
    unfoldable pub remove_target : DeleteTarget → W → Option (DeletionError E) × W
    unfolding is_true_dir failed_with delete_directory_recursive
    remove_target target w =
        if is_true_dir target.info
        then (if recursive
            then failed_with (λ e. recursive_failed e)
                (delete_directory_recursive client fuel target.path true w)
            else failed_with (λ e. rmdir_failed e) (client.remove_directory w target.path))
        else failed_with (λ e. remove_failed e) (client.remove w target.path)

    unfoldable pub delete_targets : List DeleteTarget → W → Option (DeletionError E) × W
    unfolding remove_target and_then failed_with
    delete_targets [] w = (none, w)
    delete_targets (target ∷ targets) w =
        and_then (failed_with (λ e. context_done e) (client.context_error w, w))
          (λ u. and_then (remove_target target u) (λ v. delete_targets targets v))

    unfoldable pub after_inspection :
        (DeletionError E ⊎ List DeleteTarget) × W → Option (DeletionError E) × W
    unfolding delete_targets
    after_inspection (inl e, w) = (some e, w)
    after_inspection (inr targets, w) = delete_targets targets w

    unfoldable pub delete_normal : DeleteError ⊎ List Text → W → Option (DeletionError E) × W
    unfolding after_inspection inspect_targets
    delete_normal (inl e) w = (some (bad_paths e), w)
    delete_normal (inr paths) w = after_inspection (inspect_targets paths w)

module _ {W E : Type 0} (client : Client W E) (lstat : W → Text → (E ⊎ Entry) × W) where
  unfoldable pub delete :
      (fuel : ℕ) (base : Text) → SftpDeleteRequest → W → Option (DeletionError E) × W
  unfolding delete_normal normalize_delete_paths raw_paths_of
  delete fuel base request w =
      delete_normal client lstat request.recursive fuel
        (normalize_delete_paths base (raw_paths_of request)) w
