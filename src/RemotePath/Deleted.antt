-- ===== src/RemotePath/Deleted.antt =====
-- What Manager.Delete of internal/sftpmanager/recursive_delete.go can remove.
use myapptest.Common.{
  ℕ, Bool, true, false, Option, none, some, List, [], ◌∷◌, Text, ◌⊎◌, inl, inr, if◌then◌else◌, ◌&&◌,
  not, All, Bool-cases,
}
use myapptest.RemotePath.Deleting.{DeleteError}
use myapptest.RemotePath.Erasing.{Entry, Client, delete_directory_recursive}
use myapptest.RemotePath.Plain.{IsPlain}
use myapptest.RemotePath.Erased.{IsBelow, KeepsBelow, AreTrimmed, delete_directory_recursive-kept}
use myapptest.RemotePath.Deletion.{
  DeletionError, DeleteTarget, target_of, is_true_dir, with_listing, failed_with, and_then,
  and_more, with_info, inspect_target, inspect_targets, remove_target, delete_targets,
  after_inspection, delete_normal, context_done, recursive_failed, rmdir_failed, remove_failed,
}

module _ {W E : Type 0} (client : Client W E) (lstat : W → Text → (E ⊎ Entry) × W) (I : W → Type 0)
    (Q : Text → Type 0) (keeps : (root : Text) → Q root → KeepsBelow client root I)
    (plain : (root : Text) → Q root → IsPlain root)
    (trimmed : (w : W) (path : Text) → AreTrimmed (client.read_dir w path).0)
    (lstat_kept : (w : W) (path : Text) → I w → I (lstat w path).1) where
  Inspected : (DeletionError E ⊎ DeleteTarget) × W → Type 0
  Inspected (inl e, w) = I w
  Inspected (inr target, w) = Q target.path × I w

  InspectedAll : (DeletionError E ⊎ List DeleteTarget) × W → Type 0
  InspectedAll (inl e, w) = I w
  InspectedAll (inr targets, w) = All (λ target. Q target.path) targets × I w

  with_listing-Inspected :
      (target : DeleteTarget) (listed : (E ⊎ List (Option Entry)) × W)
      → Q target.path
      → I listed.1
      → Inspected (with_listing target listed)
  unfolding with_listing Inspected
  with_listing-Inspected target (inl e, w) q i = i
  with_listing-Inspected target (inr [], w) q i = (q, i)
  with_listing-Inspected target (inr (x ∷ xs), w) q i = i

  module _ (recursive : Bool) where
    with_info-Inspected :
        (path : Text) (stat : (E ⊎ Entry) × W)
        → Q path
        → I stat.1
        → Inspected (with_info client lstat recursive path stat)
    unfolding with_info Inspected
    with_info-Inspected path (inl e, w) q i = i
    with_info-Inspected path (inr info, w) q i =
        elim (Bool-cases (is_true_dir info && not recursive)) [
          | inl h ↦ rw h (
              with_listing-Inspected (target_of path info) (client.read_dir w path) q
                ((keeps path q).read_kept w path i))
          | inr h ↦ rw h (q, i)
        ]

    inspect_target-Inspected :
        (path : Text) (w : W)
        → Q path
        → I w
        → Inspected (inspect_target client lstat recursive path w)
    unfolding inspect_target Inspected
    inspect_target-Inspected path w q i = stopped_or (client.context_error w)
      where
        stopped_or :
            (stop : Option E)
            → Inspected (elim stop [
              | some e ↦ (inl (context_done e), w)
              | none ↦ with_info client lstat recursive path (lstat w path)
            ])
        stopped_or (some e) = i
        stopped_or none = with_info-Inspected path (lstat w path) q (lstat_kept w path i)

    pushed-InspectedAll :
        (target : DeleteTarget) (more : (DeletionError E ⊎ List DeleteTarget) × W)
        → Q target.path
        → InspectedAll more
        → InspectedAll
            (elim more.0 [ inl e ↦ inl e | inr targets ↦ inr (target ∷ targets) ], more.1)
    unfolding InspectedAll
    pushed-InspectedAll target (inl e, w) q i = i
    pushed-InspectedAll target (inr targets, w) q (qs, i) = ((q, qs), i)

    and_more-InspectedAll :
        (one : (DeletionError E ⊎ DeleteTarget) × W)
        (next : W → (DeletionError E ⊎ List DeleteTarget) × W)
        → Inspected one
        → ((w : W) → I w → InspectedAll (next w))
        → InspectedAll (and_more one next)
    unfolding and_more Inspected InspectedAll
    and_more-InspectedAll (inl e, w) next i f = i
    and_more-InspectedAll (inr target, w) next (q, i) f =
        pushed-InspectedAll target (next w) q (f w i)

    inspect_targets-InspectedAll :
        (paths : List Text) (w : W)
        → All Q paths
        → I w
        → InspectedAll (inspect_targets client lstat recursive paths w)
    unfolding inspect_targets InspectedAll
    inspect_targets-InspectedAll [] w q i = (tt, i)
    inspect_targets-InspectedAll (path ∷ paths) w (q, qs) i =
        and_more-InspectedAll (inspect_target client lstat recursive path w)
          (λ u. inspect_targets client lstat recursive paths u)
          (inspect_target-Inspected path w q i) (λ u j. inspect_targets-InspectedAll paths u qs j)

    failed_with-kept :
        {F : Type 0} (wrap : F → DeletionError E) (r : Option F × W)
        → I r.1
        → I (failed_with wrap r).1
    unfolding failed_with
    failed_with-kept wrap (some e, w) i = i
    failed_with-kept wrap (none, w) i = i

    and_then-kept :
        (r : Option (DeletionError E) × W) (next : W → Option (DeletionError E) × W)
        → I r.1
        → ((w : W) → I w → I (next w).1)
        → I (and_then r next).1
    unfolding and_then
    and_then-kept (some e, w) next i f = i
    and_then-kept (none, w) next i f = f w i

    chosen-kept :
        (a b : Bool) (x y z : Option (DeletionError E) × W)
        → I x.1
        → I y.1
        → I z.1
        → I (if a then (if b then x else y) else z).1
    chosen-kept true true x y z i j k = i
    chosen-kept true false x y z i j k = j
    chosen-kept false b x y z i j k = k

    module _ (fuel : ℕ) where
      remove_target-kept :
          (target : DeleteTarget) (w : W)
          → Q target.path
          → I w
          → I (remove_target client lstat recursive fuel target w).1
      unfolding remove_target
      remove_target-kept target w q i =
          let path = target.path in
          let erased =
            failed_with (λ e. recursive_failed e)
              (delete_directory_recursive client fuel path true w) in
          let unlisted = failed_with (λ e. rmdir_failed e) (client.remove_directory w path) in
          let removed = failed_with (λ e. remove_failed e) (client.remove w path) in
          chosen-kept (is_true_dir target.info) recursive erased unlisted removed
            (failed_with-kept (λ e. recursive_failed e)
              (delete_directory_recursive client fuel path true w)
              (delete_directory_recursive-kept client path I (keeps path q) trimmed fuel true w
                (plain path q) i))
            (failed_with-kept (λ e. rmdir_failed e) (client.remove_directory w path)
              ((keeps path q).remove_directory_kept w path IsBelow.itself i))
            (failed_with-kept (λ e. remove_failed e) (client.remove w path)
              ((keeps path q).remove_kept w path IsBelow.itself i))

      delete_targets-kept :
          (targets : List DeleteTarget) (w : W)
          → All (λ target. Q target.path) targets
          → I w
          → I (delete_targets client lstat recursive fuel targets w).1
      unfolding delete_targets
      delete_targets-kept [] w q i = i
      delete_targets-kept (target ∷ targets) w (q, qs) i =
          and_then-kept (failed_with (λ e. context_done e) (client.context_error w, w))
            (λ u.
              and_then (remove_target client lstat recursive fuel target u)
                (λ v. delete_targets client lstat recursive fuel targets v))
            (failed_with-kept (λ e. context_done e) (client.context_error w, w) i)
            (λ u j.
              and_then-kept (remove_target client lstat recursive fuel target u)
                (λ v. delete_targets client lstat recursive fuel targets v)
                (remove_target-kept target u q j) (λ v k. delete_targets-kept targets v qs k))

      after_inspection-kept :
          (inspected : (DeletionError E ⊎ List DeleteTarget) × W)
          → InspectedAll inspected
          → I (after_inspection client lstat recursive fuel inspected).1
      unfolding after_inspection InspectedAll
      after_inspection-kept (inl e, w) i = i
      after_inspection-kept (inr targets, w) (q, i) = delete_targets-kept targets w q i

      pub delete_normal-kept :
          (paths : List Text) (w : W)
          → All Q paths
          → I w
          → I (delete_normal client lstat recursive fuel (inr paths) w).1
      unfolding delete_normal
      delete_normal-kept paths w q i =
          after_inspection-kept (inspect_targets client lstat recursive paths w)
            (inspect_targets-InspectedAll paths w q i)

pub delete_normal-refused :
    {W E : Type 0} (client : Client W E) (lstat : W → Text → (E ⊎ Entry) × W) (I : W → Type 0)
    (recursive : Bool) (fuel : ℕ) (e : DeleteError) (w : W)
    → I w
    → I (delete_normal client lstat recursive fuel (inl e) w).1
unfolding delete_normal
delete_normal-refused client lstat I recursive fuel e w i = i
