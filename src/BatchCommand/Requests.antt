-- ===== src/BatchCommand/Requests.antt =====
-- What a start request becomes.
use myapptest.Common.{
  ℤ, pos, int_eq, int_beq_iff, is_positive, ◌≤ℤ◌, Bool, false, ◌&&◌, not, List, [], ◌∷◌, ◌≡◌, refl,
  arith, any, ◌==◌,
}
use myapptest.BatchCommand.{
  StartRequest, unique_from, unique_positive_server_ids, normalize_start_request,
}

-- A request keeps its servers and settings within the limits of the manager.
pub normalize_start_request_bounds :
    (r : StartRequest)
    → let n = normalize_start_request r in
      (pos 1 ≤ℤ n.concurrency)
      × (n.concurrency ≤ℤ pos 10)
      × (pos 5 ≤ℤ n.timeout_seconds)
      × (n.timeout_seconds ≤ℤ pos 3600)
unfolding normalize_start_request
normalize_start_request_bounds r = (ground arith, ground arith, ground arith, ground arith)

-- Is the id in the list?
abbrev pub has_id : ℤ → List ℤ → Bool
has_id id = any (λ s. s == id)

-- No id stands twice.
abbrev pub IsUnique : List ℤ → Type 0
IsUnique [] = Unit
IsUnique (id ∷ ids) = (has_id id ids ≡ false) × IsUnique ids

unique_from_has :
    (seen ids : List ℤ) (id : ℤ)
    → has_id id (unique_from seen ids) ≡ (has_id id ids && is_positive id && not (has_id id seen))
unfolding unique_from
unique_from_has seen [] id = refl
unique_from_has seen (x ∷ ids) id =
    ground (arith, int_beq_iff x id, unique_from_has seen ids id, unique_from_has (x ∷ seen) ids id)

unique_from-IsUnique : (seen ids : List ℤ) → IsUnique (unique_from seen ids)
unfolding unique_from
unique_from-IsUnique seen [] = tt
unique_from-IsUnique seen (x ∷ ids) = ground (
  arith,
  int_beq_iff x x,
  unique_from_has (x ∷ seen) ids x,
  unique_from-IsUnique seen ids,
  unique_from-IsUnique (x ∷ seen) ids,
)

-- A task is started on exactly the positive ids of the request, each of them once.
pub unique_positive_server_ids_lem :
    (ids : List ℤ)
    → IsUnique (unique_positive_server_ids ids)
      × ((id : ℤ) → has_id id (unique_positive_server_ids ids) ≡ (has_id id ids && is_positive id))
unfolding unique_positive_server_ids
unique_positive_server_ids_lem ids =
    (unique_from-IsUnique [] ids, λ id. ground (arith, unique_from_has [] ids id))
