-- ===== src/RemotePath/DeleteTests.antt =====
-- Examples for the deletion of a directory, over a client that keeps a list of what it removes.
use mathlib.Core.Path.{subst}
use myapptest.Common.{
  ◌⊎◌, ℕ, true, false, true≢false, false≢true, trim_space, trim_right, is_space, Option, none, some,
  List, [], ◌∷◌, Text, codes, ◌≡◌, refl, sym, inl, inr, arith, if◌then◌else◌, Bool-cases, list_beq,
  list_beq_iff, nat_eq, All,
}
use myapptest.RemotePath.Deleting.{DeleteError, normalize_delete_path, safe_remote_child_name}
use myapptest.RemotePath.{join_remote_path}
use myapptest.RemotePath.Erasing.{Entry, Client, out_of_fuel, delete_directory_recursive}
use myapptest.RemotePath.Erased.{IsBelow, KeepsBelow, AreTrimmed, IsTrimmed}
use myapptest.RemotePath.Plain.{IsPart, IsPlain, render}
use myapptest.RemotePath.Covering.{any-cases}
use myapptest.RemotePath.Requested.{IsOneOf}
use myapptest.RemotePath.Deletion.{SftpDeleteRequest, raw_paths_of, delete, not_empty}
use myapptest.RemotePath.Removal.{delete-kept}
use myapptest.RemotePath.Ending.{Falls, FallsAll, delete_directory_recursive-ends}

abbrev docs_path : Text
docs_path = codes "/docs"

abbrev docs_entries : List (Option Entry)
docs_entries =
    some (record { name = codes "a"; is_dir = true; is_symlink = false })
    ∷ none
    ∷ some (record { name = codes "b"; is_dir = false; is_symlink = false })
    ∷ some (record { name = codes "c"; is_dir = true; is_symlink = true })
    ∷ []

abbrev listed : Text → List (Option Entry)
listed path = if list_beq path docs_path then docs_entries else []

abbrev logged_client : Client (List Text) Unit
logged_client = record {
  context_error = λ w. none;
  read_dir = λ w path. (inr (listed path), w);
  remove = λ w path. (none, path ∷ w);
  remove_directory = λ w path. (none, path ∷ w);
}

-- The symbolic link to a directory is removed, and what it leads to is not.
removed_test :
    delete_directory_recursive logged_client 2 docs_path true []
    ≡ (none, docs_path ∷ codes "/docs/c" ∷ codes "/docs/b" ∷ codes "/docs/a" ∷ [])
unfolding delete_directory_recursive
removed_test = refl

abbrev delete_request : SftpDeleteRequest
delete_request = record { path = codes "docs"; paths = []; recursive = true }

abbrev logged_lstat : List Text → Text → (Unit {0} ⊎ Entry) × List Text
logged_lstat w path = (inr (record { name = codes "docs"; is_dir = true; is_symlink = false }), w)

-- What may be removed: what is at or below a path of the request.
abbrev IsRemovable : Text → Type 0
IsRemovable path =
    (root : Text) × IsOneOf (codes "/") (raw_paths_of delete_request) root × IsBelow root path

logged_client-KeepsBelow :
    (root : Text)
    → IsOneOf (codes "/") (raw_paths_of delete_request) root
    → KeepsBelow logged_client root (λ w. All IsRemovable w)
logged_client-KeepsBelow root asked = record {
  read_kept = λ w path i. i;
  remove_kept = λ w path b i. ((root, asked, b), i);
  remove_directory_kept = λ w path b i. ((root, asked, b), i);
}

deleted_test :
    (delete logged_client logged_lstat 2 (codes "/") delete_request []).1
    ≡ docs_path ∷ codes "/docs/c" ∷ codes "/docs/b" ∷ codes "/docs/a" ∷ []
unfolding delete
deleted_test = refl

not_empty_test :
    delete logged_client logged_lstat 2 (codes "/") (record delete_request { recursive = false }) []
    ≡ (some not_empty, [])
unfolding delete
not_empty_test = refl

-- A name with a space before two dots is followed, and leads to the directory above.
space_test :
    (safe_remote_child_name (codes " ..") ≡ true)
    × (join_remote_path docs_path (codes " ..") ≡ codes "/")
unfolding safe_remote_child_name join_remote_path
space_test = (refl, refl)

docs-IsPlain : IsPlain docs_path
unfolding IsPlain IsPart render trim_right is_space
docs-IsPlain = (codes "docs", [], ((refl, refl, refl, refl, refl), tt), refl, refl)

docs_normal : normalize_delete_path (codes "/") (codes "docs") ≡ inr docs_path
unfolding normalize_delete_path
docs_normal = refl

inr_inj : (e : DeleteError ⊎ Text) (a b : Text) → e ≡ inr a → e ≡ inr b → a ≡ b
inr_inj e a b g h = cc

asked-IsPlain :
    (root : Text) → IsOneOf (codes "/") (raw_paths_of delete_request) root → IsPlain root
unfolding IsOneOf raw_paths_of
asked-IsPlain root ((raw, m, n), named) = elim (any-cases (list_beq raw) (codes "docs") [] m) [
  | inl same ↦
      let again =
        subst (λ x. normalize_delete_path (codes "/") x ≡ inr root)
          ((list_beq_iff raw (codes "docs")).0 same) n in
      subst IsPlain (inr_inj _ docs_path root docs_normal again) docs-IsPlain
  | inr none_left ↦ absurd (false≢true none_left)
]

logged_client-AreTrimmed :
    (w : List Text) (path : Text) → AreTrimmed (logged_client.read_dir w path).0
unfolding AreTrimmed IsTrimmed trim_space
logged_client-AreTrimmed w path = elim (Bool-cases (list_beq path docs_path)) [
  | inl h ↦ rw h (refl, (tt, (refl, (refl, tt))))
  | inr h ↦ rw h tt
]

delete-kept_example :
    All IsRemovable (delete logged_client logged_lstat 2 (codes "/") delete_request []).1
delete-kept_example =
    delete-kept logged_client logged_lstat (λ w. All IsRemovable w) (codes "/") delete_request
      logged_client-KeepsBelow asked-IsPlain logged_client-AreTrimmed (λ w path i. i) 2 [] tt

abbrev depth : Text → ℕ
depth path = if list_beq path docs_path then 1 else 0

docs-FallsAll : FallsAll {E = Unit} depth docs_path (inr docs_entries)
unfolding FallsAll Falls trim_space
docs-FallsAll = (
  (refl, λ part link dir. omega arith),
  (
    tt,
    (
      (refl, λ part link dir. absurd (false≢true dir)),
      ((refl, λ part link dir. absurd (true≢false link)), tt),
    ),
  ),
)

logged_client-FallsAll :
    (w : List Text) (path : Text) → FallsAll depth path (logged_client.read_dir w path).0
unfolding FallsAll
logged_client-FallsAll w path = elim (Bool-cases (list_beq path docs_path)) [
  | inl h ↦
      subst (λ p. FallsAll {E = Unit} depth p (inr (listed p)))
        (sym ((list_beq_iff path docs_path).0 h)) docs-FallsAll
  | inr h ↦ rw h tt
]

delete_directory_recursive-ends_example :
    ¬ ((delete_directory_recursive logged_client 2 docs_path true []).0 ≡ some out_of_fuel)
delete_directory_recursive-ends_example =
    delete_directory_recursive-ends logged_client depth logged_client-FallsAll 2 docs_path true []
      docs-IsPlain (omega arith)
