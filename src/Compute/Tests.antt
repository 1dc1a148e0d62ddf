-- ===== src/Compute/Tests.antt =====
-- Runs of packages/compute/snapshot.py on small inputs.
use compute_weaver.Base.{◌+◌, ◌≤◌, ◌≡◌, refl, true, List, [], ◌∷◌, err}
use compute_weaver.Compute.{
  ready, failed, ComputeNode, Reservation, good, ComputeSnapshot, schedulable_gpu_count,
  duplicate_gpu, has_duplicates, all_gpus, reserved_gpus, build,
}
use compute_weaver.Compute.Capacity.{build-schedulable}

abbrev pair : List ComputeNode
pair =
    record { id = 41; tenant_id = 2; site_id = 51; state = ready; gpus = 61 ∷ 62 ∷ [] }
    ∷ record { id = 42; tenant_id = 2; site_id = 51; state = failed; gpus = 63 ∷ [] }
    ∷ []

abbrev kept : List Reservation
kept = record { gpu_ids = 61 ∷ []; is_protected = true } ∷ []

abbrev built : ComputeSnapshot
built = record { tenant_id = 2; quality = good; nodes = pair; reservations = kept; conflicts = [] }

build-schedulable_example : schedulable_gpu_count built + 1 ≤ 3
unfolding build has_duplicates all_gpus reserved_gpus
build-schedulable_example = build-schedulable 1 2 pair kept 0 100 [] [] built refl

-- A GPU of two nodes is refused.
twice_refused :
    build 1 2
      (record { id = 43; tenant_id = 2; site_id = 51; state = ready; gpus = 61 ∷ [] } ∷ pair)
      kept
      0
      100
      []
      []
    ≡ err duplicate_gpu
unfolding build has_duplicates all_gpus
twice_refused = refl
