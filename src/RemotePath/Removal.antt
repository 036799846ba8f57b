-- ===== src/RemotePath/Removal.antt =====
-- What Manager.Delete of internal/sftpmanager/recursive_delete.go removes.
use myapptest.Common.{ℕ, Text, sym, ◌⊎◌, inl, inr, Sum-cases}
use mathlib.Core.Path.{subst}
use myapptest.RemotePath.Deleting.{normalize_delete_paths}
use myapptest.RemotePath.Erasing.{Entry, Client}
use myapptest.RemotePath.Erased.{KeepsBelow, AreTrimmed}
use myapptest.RemotePath.Plain.{IsPlain}
use myapptest.RemotePath.Requested.{IsOneOf, IsDeleteList-All, normalize_delete_paths-IsDeleteList}
use myapptest.RemotePath.Deletion.{SftpDeleteRequest, raw_paths_of, delete_normal, delete}
use myapptest.RemotePath.Deleted.{delete_normal-kept, delete_normal-refused}

module _ {W E : Type 0} (client : Client W E) (lstat : W → Text → (E ⊎ Entry) × W) (I : W → Type 0)
    (base : Text) (request : SftpDeleteRequest)
    (keeps : (root : Text) → IsOneOf base (raw_paths_of request) root → KeepsBelow client root I)
    (plain : (root : Text) → IsOneOf base (raw_paths_of request) root → IsPlain root)
    (trimmed : (w : W) (path : Text) → AreTrimmed (client.read_dir w path).0)
    (lstat_kept : (w : W) (path : Text) → I w → I (lstat w path).1) where
  -- Where the paths of a request are plain (a slash before each of one or more parts, none of them
  -- empty, `.` or `..` or with a slash or a backslash, and no space at the end) and the names of
  -- every listing have no spaces around them: a property of the world that the client keeps when it
  -- reads, and when it removes a path that stands for one of the request, or such a path followed by
  -- a slash and a name, any number of times, holds after Delete, whatever fails on the way. So
  -- nothing is removed but what was asked for and what is below it.
  pub delete-kept : (fuel : ℕ) (w : W) → I w → I (delete client lstat fuel base request w).1
  unfolding delete
  delete-kept fuel w i = elim (Sum-cases (normalize_delete_paths base (raw_paths_of request))) [
    | inl (e, h) ↦
        subst (λ normal. I (delete_normal client lstat request.recursive fuel normal w).1) (sym h)
          (delete_normal-refused client lstat I request.recursive fuel e w i)
    | inr (ps, h) ↦
        subst (λ normal. I (delete_normal client lstat request.recursive fuel normal w).1) (sym h)
          (delete_normal-kept client lstat I (IsOneOf base (raw_paths_of request)) keeps plain
            trimmed lstat_kept request.recursive fuel ps w
            (IsDeleteList-All base (raw_paths_of request) ps
              (normalize_delete_paths-IsDeleteList base (raw_paths_of request) ps h))
            i)
  ]
