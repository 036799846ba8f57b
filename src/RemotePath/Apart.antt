-- ===== src/RemotePath/Apart.antt =====
-- What isRemoteDescendant and the checks of normalizeDeletePath of
-- internal/sftpmanager/recursive_delete.go tell about paths.
use mathlib.Core.List.{append_assoc}
use myapptest.Common.{
  Bool, true, false, false≢true, true≢false, List, [], ◌∷◌, ◌++◌, Text, codes, ◌≡◌, ◌≢◌, refl, sym,
  ap, ◌∙◌, ◌⊎◌, inl, inr, arith, if◌then◌else◌, ◌||◌, ◌&&◌, nat_beq, nat_beq_iff, nat_eq, list_beq,
  list_beq_iff, any, All, has_prefix, replace_all, split_on,
}
use myapptest.RemotePath.{clean_remote_path}
use myapptest.RemotePath.Checks.{has_parent_traversal}
use myapptest.RemotePath.Deleting.{is_reserved, is_remote_descendant, is_within}
use myapptest.RemotePath.Covering.{any-cases, any-head, any-tail}
use myapptest.RemotePath.DeleteList.{IsFlat}

-- The same path, or one that goes on with a slash after it, once both are cleaned.
unfoldable pub IsAtOrBelow : (parent child : Text) → Type 0
unfolding clean_remote_path
IsAtOrBelow parent child =
    (clean_remote_path child ≡ clean_remote_path parent)
    ⊎ ((rest : Text) × (clean_remote_path child ≡ clean_remote_path parent ++ b'/' ∷ rest))

-- Not the same path, nor one that goes on with a slash after it, but for what is below the root or
-- the current directory.
unfoldable pub IsApart : (parent child : Text) → Type 0
unfolding clean_remote_path
IsApart parent child =
    (clean_remote_path child ≢ clean_remote_path parent)
    × ((rest : Text)
        → clean_remote_path child ≡ clean_remote_path parent ++ b'/' ∷ rest
        → (clean_remote_path parent ≡ codes "/") ⊎ (clean_remote_path parent ≡ codes "."))

-- A path that names a file or a directory.
unfoldable pub IsNamed : Text → Type 0
unfolding replace_all split_on
IsNamed path =
    (path ≢ [])
    × (path ≢ codes ".")
    × (path ≢ codes "/")
    × (path ≢ codes "..")
    × All (λ part. part ≢ codes "..") (split_on b'/' (replace_all (codes "\\") (codes "/") path))

has_prefix-rest : (p s : Text) → has_prefix p s ≡ true → (rest : Text) × (s ≡ p ++ rest)
unfolding has_prefix
has_prefix-rest [] s h = (s, refl)
has_prefix-rest (c ∷ p) [] h = absurd (false≢true h)
has_prefix-rest (c ∷ p) (d ∷ s) h =
    let (same, more) = both (nat_beq c d) (has_prefix p s) h in
    let (rest, e) = has_prefix-rest p s more in
    (rest, ap (λ x. x ∷ s) (sym ((nat_beq_iff c d).0 same)) ∙ ap (λ (t : Text). c ∷ t) e)
  where
    both : (a b : Bool) → (a && b) ≡ true → (a ≡ true) × (b ≡ true)
    both a b h = ground arith

prefix-has_prefix : (p rest : Text) → has_prefix p (p ++ rest) ≡ true
unfolding has_prefix
prefix-has_prefix [] rest = refl
prefix-has_prefix (c ∷ p) rest = rw ((nat_beq_iff c c).1 refl) (prefix-has_prefix p rest)

chosen :
    (same top starts : Bool)
    → (if same then true else if top then false else starts) ≡ true
    → (same ≡ true) ⊎ (starts ≡ true)
chosen true top starts h = inl refl
chosen false true starts h = absurd (false≢true h)
chosen false false starts h = inr h

not_chosen :
    (same top starts : Bool)
    → (if same then true else if top then false else starts) ≡ false
    → (same ≡ false) × (starts ≡ true → top ≡ true)
not_chosen true top starts h = absurd (false≢true (sym h))
not_chosen false true starts h = (refl, λ s. refl)
not_chosen false false starts h = (refl, λ s. absurd (false≢true (sym h ∙ s)))

is_remote_descendant-IsAtOrBelow :
    (parent child : Text) → is_remote_descendant parent child ≡ true → IsAtOrBelow parent child
unfolding is_remote_descendant IsAtOrBelow
is_remote_descendant-IsAtOrBelow parent child h =
    let a = clean_remote_path parent in
    let b = clean_remote_path child in
    elim (chosen (list_beq a b) (list_beq a (codes "/") || list_beq a (codes "."))
      (has_prefix (a ++ codes "/") b) h) [
        | inl same ↦ inl (sym ((list_beq_iff a b).0 same))
        | inr starts ↦
            let (rest, e) = has_prefix-rest (a ++ codes "/") b starts in
            inr (rest, e ∙ append_assoc a (codes "/") rest)
      ]

either : (a b : Bool) → (a || b) ≡ true → (a ≡ true) ⊎ (b ≡ true)
either true b h = inl refl
either false b h = inr h

is_remote_descendant-IsApart :
    (parent child : Text) → is_remote_descendant parent child ≡ false → IsApart parent child
unfolding is_remote_descendant IsApart
is_remote_descendant-IsApart parent child h =
    let a = clean_remote_path parent in
    let b = clean_remote_path child in
    let (other, top) =
      not_chosen (list_beq a b) (list_beq a (codes "/") || list_beq a (codes "."))
        (has_prefix (a ++ codes "/") b) h in
    (
      λ e. false≢true (sym other ∙ (list_beq_iff a b).1 (sym e)),
      λ rest e.
          elim (either (list_beq a (codes "/")) (list_beq a (codes ".")) (
            top (
              ap (has_prefix (a ++ codes "/")) (e ∙ sym (append_assoc a (codes "/") rest))
              ∙ prefix-has_prefix (a ++ codes "/") rest))) [
                | inl r ↦ inl ((list_beq_iff a (codes "/")).0 r)
                | inr r ↦ inr ((list_beq_iff a (codes ".")).0 r)
              ],
    )

-- One of a list that a path is at or below.
pub is_within-IsAtOrBelow :
    (ps : List Text) (path : Text)
    → is_within ps path ≡ true
    → (parent : Text) × (any (list_beq parent) ps ≡ true) × IsAtOrBelow parent path
unfolding is_within
is_within-IsAtOrBelow [] path h = absurd (false≢true h)
is_within-IsAtOrBelow (p ∷ ps) path h =
    elim (any-cases (λ parent. is_remote_descendant parent path) p ps h) [
      | inl here ↦ (
        p,
        any-head (list_beq p) p ps ((list_beq_iff p p).1 refl),
        is_remote_descendant-IsAtOrBelow p path here,
      )
      | inr later ↦
          let (q, m, b) = is_within-IsAtOrBelow ps path later in
          (q, any-tail (list_beq q) p ps m, b)
    ]

any-false :
    (p : Text → Bool) (x : Text) (xs : List Text)
    → any p (x ∷ xs) ≡ false
    → (p x ≡ false) × (any p xs ≡ false)
any-false p x xs h = ground arith

is_within-IsApart :
    (before : List Text) (path : Text)
    → is_within before path ≡ false
    → All (λ parent. IsApart parent path) before
unfolding is_within
is_within-IsApart [] path h = tt
is_within-IsApart (p ∷ ps) path h =
    let (a, b) = any-false (λ parent. is_remote_descendant parent path) p ps h in
    (is_remote_descendant-IsApart p path a, is_within-IsApart ps path b)

-- Each path is apart from those before it.
unfoldable pub AreApart : (before paths : List Text) → Type 0
unfolding IsApart
AreApart before [] = Unit
AreApart before (path ∷ paths) =
    All (λ parent. IsApart parent path) before × AreApart (before ++ path ∷ []) paths

pub IsFlat-AreApart : (before paths : List Text) → IsFlat before paths → AreApart before paths
unfolding IsFlat AreApart
IsFlat-AreApart before [] f = tt
IsFlat-AreApart before (path ∷ paths) (h, f) =
    (is_within-IsApart before path h, IsFlat-AreApart (before ++ path ∷ []) paths f)

no_parent :
    (parts : List Text)
    → any (list_beq (codes "..")) parts ≡ false
    → All (λ part. part ≢ codes "..") parts
no_parent [] h = tt
no_parent (x ∷ xs) h =
    let (a, b) = any-false (list_beq (codes "..")) x xs h in
    (λ e. false≢true (sym a ∙ (list_beq_iff (codes "..") x).1 (sym e)), no_parent xs b)

pub checked-IsNamed :
    (path : Text) → is_reserved path ≡ false → has_parent_traversal path ≡ false → IsNamed path
unfolding is_reserved has_parent_traversal IsNamed
checked-IsNamed path r p = (
  λ e. true≢false (sym (ap is_reserved e) ∙ r),
  λ e. true≢false (sym (ap is_reserved e) ∙ r),
  λ e. true≢false (sym (ap is_reserved e) ∙ r),
  λ e. true≢false (sym (ap is_reserved e) ∙ r),
  no_parent (split_on b'/' (replace_all (codes "\\") (codes "/") path)) p,
)
