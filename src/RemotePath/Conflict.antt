-- ===== src/RemotePath/Conflict.antt =====
-- What an upload does where its target exists: resolveRemoteConflict of
-- internal/sftpmanager/manager_conflict.go. Whether a path exists is a parameter: `client.Stat`
-- gives no error.
use mathlib.Core.Path.{subst}
use myapptest.Common.{
  ℕ, zero, suc, ◌+◌, ◌≤◌, ◌<◌, Bool, true, false, [], Text, ◌⊎◌, inl, inr, ◌≡◌, refl, sym, ap, ◌∙◌,
  arith, Bool-cases, le-or-lt, if◌then◌else◌, String,
}
use myapptest.RemotePath.{remote_rename_candidate}

-- The policies; the empty one is one of the others, and is that which asks.
pub data SftpConflictPolicy : Type 0 where
  ask overwrite skip rename : SftpConflictPolicy
  other : String → SftpConflictPolicy

pub data ConflictError : Type 0 where
  no_free_name exists_already : ConflictError

module _ (exists : Text → Bool) where
  -- The loop over the indices: `left` are still to be tried.
  unfoldable pub free_candidate :
      (remote_path : Text) (index left : ℕ) → ConflictError ⊎ (Text × Bool)
  unfolding remote_rename_candidate
  free_candidate remote_path index zero = inl no_free_name
  free_candidate remote_path index (suc left) =
      let later = free_candidate remote_path (suc index) left in
      if exists (remote_rename_candidate remote_path index)
      then later
      else inr (remote_rename_candidate remote_path index, false)

  -- The switch on the policy, where the path exists.
  unfoldable pub by_policy : SftpConflictPolicy → Text → ConflictError ⊎ (Text × Bool)
  unfolding free_candidate
  by_policy overwrite remote_path = inr (remote_path, false)
  by_policy skip remote_path = inr (remote_path, true)
  by_policy rename remote_path = free_candidate remote_path 1 999
  by_policy ask remote_path = inl exists_already
  by_policy (other name) remote_path = inl exists_already

  -- The path to write to, and whether to skip it.
  unfoldable pub resolve_remote_conflict : Text → SftpConflictPolicy → ConflictError ⊎ (Text × Bool)
  unfolding by_policy
  resolve_remote_conflict remote_path policy =
      if exists remote_path then by_policy policy remote_path else inr (remote_path, false)

  -- What holds of an index and of those above it.
  from_first :
      (index i : ℕ) (remote_path : Text)
      → exists (remote_rename_candidate remote_path index) ≡ true
      → index ≤ i
      → (suc index ≤ i → exists (remote_rename_candidate remote_path i) ≡ true)
      → exists (remote_rename_candidate remote_path i) ≡ true
  from_first index i remote_path h l above = elim (le-or-lt (suc index) i) [
    | inl m ↦ above m
    | inr m ↦ subst (λ k. exists (remote_rename_candidate remote_path k) ≡ true) (omega arith) h
  ]

  -- The index of the first name that is free.
  free_candidate-cases :
      (remote_path : Text) (index left : ℕ)
      → ((free_candidate remote_path index left ≡ inl no_free_name)
          × ((i : ℕ)
              → index ≤ i
              → i < index + left
              → exists (remote_rename_candidate remote_path i) ≡ true))
        ⊎ ((i : ℕ) × (index ≤ i)
            × (i < index + left)
            × (free_candidate remote_path index left
                ≡ inr (remote_rename_candidate remote_path i, false))
            × (exists (remote_rename_candidate remote_path i) ≡ false)
            × ((j : ℕ) → index ≤ j → j < i → exists (remote_rename_candidate remote_path j) ≡ true))
  unfolding free_candidate
  free_candidate-cases remote_path index zero = inl (refl, λ i l u. absurd (omega arith))
  free_candidate-cases remote_path index (suc left) =
      elim (Bool-cases (exists (remote_rename_candidate remote_path index))) [
        | inr h ↦ inr (index, omega arith, omega arith, rw h refl, h, λ j l u. absurd (omega arith))
        | inl h ↦ elim (free_candidate-cases remote_path (suc index) left) [
          | inl (e, all) ↦
              inl (rw h e, λ i l u. from_first index i remote_path h l (λ m. all i m (omega arith)))
          | inr (i, l, u, e, f, before) ↦ inr (
            i,
            omega arith,
            omega arith,
            rw h e,
            f,
            λ j m v. from_first index j remote_path h m (λ n. before j n v),
          )
        ]
      ]

  first_of : ConflictError ⊎ (Text × Bool) → Text
  first_of (inl e) = []
  first_of (inr (path, skipped)) = path

  second_of : ConflictError ⊎ (Text × Bool) → Bool
  second_of (inl e) = false
  second_of (inr (path, skipped)) = skipped

  inl-inr : (e : ConflictError) (r : Text × Bool) → ¬ (inl e ≡ inr r)
  inl-inr e r h = cc

  abbrev answer : Text → Bool → ConflictError ⊎ (Text × Bool)
  answer path skipped = inr (path, skipped)

  inr_pair : {a c : Text} {b d : Bool} → answer a b ≡ answer c d → (a ≡ c) × (b ≡ d)
  unfolding first_of second_of
  inr_pair h = (ap (λ r. first_of r) h, ap (λ r. second_of r) h)

  by_policy-inr :
      (remote_path target : Text) (policy : SftpConflictPolicy) (skipped : Bool)
      → exists remote_path ≡ true
      → by_policy policy remote_path ≡ inr (target, skipped)
      → ((skipped ≡ false) × ((exists target ≡ false) ⊎ (policy ≡ overwrite)))
        ⊎ ((skipped ≡ true)
            × (target ≡ remote_path)
            × (exists remote_path ≡ true)
            × (policy ≡ skip))
  unfolding by_policy
  by_policy-inr remote_path target overwrite skipped f h =
      let (t, s) = inr_pair h in inl (sym s, inr refl)
  by_policy-inr remote_path target skip skipped f h =
      let (t, s) = inr_pair h in inr (sym s, sym t, f, refl)
  by_policy-inr remote_path target ask skipped f h = cc
  by_policy-inr remote_path target (other name) skipped f h = cc
  by_policy-inr remote_path target rename skipped f h =
      elim (free_candidate-cases remote_path 1 999) [
        | inl (e, all) ↦ absurd (inl-inr no_free_name (target, skipped) (sym e ∙ h))
        | inr (i, l, u, e, free, before) ↦
            let (t, s) = inr_pair (sym e ∙ h) in
            inl (sym s, inl (subst (λ p. exists p ≡ false) t free))
      ]

  -- The path that is returned to be written is free, unless the policy is to overwrite; one to be
  -- skipped is that which was given, which exists, and the policy is to skip.
  pub resolve_remote_conflict-inr :
      (remote_path target : Text) (policy : SftpConflictPolicy) (skipped : Bool)
      → resolve_remote_conflict remote_path policy ≡ inr (target, skipped)
      → ((skipped ≡ false) × ((exists target ≡ false) ⊎ (policy ≡ overwrite)))
        ⊎ ((skipped ≡ true)
            × (target ≡ remote_path)
            × (exists remote_path ≡ true)
            × (policy ≡ skip))
  unfolding resolve_remote_conflict
  resolve_remote_conflict-inr remote_path target policy skipped h =
      elim (Bool-cases (exists remote_path)) [
        | inr f ↦
            let e =
              sym (ap (λ b. if b then by_policy policy remote_path else inr (remote_path, false)) f)
              ∙ h in
            let (t, s) = inr_pair e in inl (sym s, inl (subst (λ p. exists p ≡ false) t f))
        | inl f ↦ by_policy-inr remote_path target policy skipped f (
            sym (ap (λ b. if b then by_policy policy remote_path else inr (remote_path, false)) f)
            ∙ h)
      ]

  -- With the policy to rename, a path that exists gets the first of the names from (1) to (999)
  -- that is free; there is an error just where none of them is.
  pub resolve_remote_conflict-rename :
      (remote_path : Text)
      → exists remote_path ≡ true
      → ((resolve_remote_conflict remote_path rename ≡ inl no_free_name)
          × ((i : ℕ) → 1 ≤ i → i < 1000 → exists (remote_rename_candidate remote_path i) ≡ true))
        ⊎ ((i : ℕ) × (1 ≤ i)
            × (i < 1000)
            × (resolve_remote_conflict remote_path rename
                ≡ inr (remote_rename_candidate remote_path i, false))
            × (exists (remote_rename_candidate remote_path i) ≡ false)
            × ((j : ℕ) → 1 ≤ j → j < i → exists (remote_rename_candidate remote_path j) ≡ true))
  unfolding resolve_remote_conflict by_policy
  resolve_remote_conflict-rename remote_path h = rw h (free_candidate-cases remote_path 1 999)
