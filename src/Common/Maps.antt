-- ===== src/Common/Maps.antt =====
-- Go maps. A map that the code ranges over is an association list (`Dict`); a map that it only
-- indexes is a function with a value for every key (`put`).
use mathlib.Core.Path.{◌≡◌, refl}
use mathlib.Core.List.{List, [], ◌∷◌}
use mathlib.Core.Option.{Option, none, some}
use native.Mathlib.Omega.{arith}
use myapptest.Common.Tests.{Comparable, ◌==◌, if◌then◌else◌}
use myapptest.Common.Lists.{All}

abbrev pub Dict {ℓ κ} : Type ℓ → Type κ → Type (ℓ ⊔ κ)
Dict K V = List (K × V)

module _ {ℓ κ} {K : Type ℓ} {V : Type κ} ⦃c : Comparable K⦄ where
  -- `m[k] = v` on a map that is indexed only.
  abbrev pub put : K → V → (K → V) → K → V
  put k v f j = if j == k then v else f j

  unfoldable pub lookup : K → Dict K V → Option V
  lookup wanted [] = none
  lookup wanted ((key, value) ∷ rest) = if key == wanted then some value else lookup wanted rest

  -- `m[k] = v`: the entry keeps its place where the key is there, and is new at the end if not.
  unfoldable pub insert : K → V → Dict K V → Dict K V
  insert k new [] = (k, new) ∷ []
  insert k new ((key, old) ∷ rest) =
      let later = (key, old) ∷ insert k new rest in if key == k then (key, new) ∷ rest else later

  -- `delete(m, k)`
  unfoldable pub delete : K → Dict K V → Dict K V
  delete k [] = []
  delete k ((key, value) ∷ rest) =
      let others = delete k rest in if key == k then others else (key, value) ∷ others

  pub lookup-insert :
      (m : Dict K V) (written read : K) (new : V)
      → lookup read (insert written new m) ≡ (if written == read then some new else lookup read m)
  unfolding lookup insert
  lookup-insert [] written read new = refl
  lookup-insert ((key, old) ∷ rest) written read new = ground (
    arith,
    c.same_iff written read,
    c.same_iff key written,
    c.same_iff key read,
    lookup-insert rest written read new,
  )

  pub lookup-delete :
      (m : Dict K V) (gone read : K)
      → lookup read (delete gone m) ≡ (if gone == read then none else lookup read m)
  unfolding lookup delete
  lookup-delete [] gone read = ground arith
  lookup-delete ((key, value) ∷ rest) gone read = ground (
    arith,
    c.same_iff gone read,
    c.same_iff key gone,
    c.same_iff key read,
    lookup-delete rest gone read,
  )

module _ {ℓ κ ι} {K : Type ℓ} {V : Type κ} ⦃c : Comparable K⦄ (P : V → Type ι) where
  -- A predicate of the values is kept by a write of such a value, and by a removal.
  pub All-insert :
      (k : K) (v : V) (m : Dict K V)
      → P v
      → All (λ (kv : K × V). P kv.1) m
      → All (λ (kv : K × V). P kv.1) (insert k v m)
  unfolding insert
  All-insert k v [] p h = (p, tt)
  All-insert k v ((j, w) ∷ m) p h = ground (arith, All-insert k v m p h.1)

  pub All-delete :
      (k : K) (m : Dict K V)
      → All (λ (kv : K × V). P kv.1) m
      → All (λ (kv : K × V). P kv.1) (delete k m)
  unfolding delete
  All-delete k [] h = tt
  All-delete k ((j, w) ∷ m) h = ground (arith, All-delete k m h.1)
