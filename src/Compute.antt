-- ===== src/Compute.antt =====
-- packages/compute/snapshot.py: a snapshot of the nodes and reservations of a tenant, and how many of
-- its GPUs can be scheduled.
pub mod Capacity
mod Tests
use compute_weaver.Base.{
  ℕ, ◌+◌, ◌-◌, ◌*◌, Bool, true, false, not, ◌||◌, none, some, List, [], ◌∷◌, ◌++◌, map, leb, ◌==◌,
  if◌then◌else◌, Name, any, all, keep, find, elem, Result, ok, err,
}

-- The fields of packages/compute/inventory.py that are read.
pub data NodeState : Type 0 where
  ready maintenance failed : NodeState

pub record ComputeNode : Type 0 where
  pub id : Name
  pub tenant_id : Name
  pub site_id : Name
  pub state : NodeState
  pub gpus : List Name

-- the GPUs that are kept, and whether for protected inference
pub record Reservation : Type 0 where
  pub gpu_ids : List Name
  pub is_protected : Bool

pub data Quality : Type 0 where
  good stale conflict : Quality

pub record ComputeSnapshot : Type 0 where
  pub tenant_id : Name
  pub quality : Quality
  pub nodes : List ComputeNode
  pub reservations : List Reservation
  pub conflicts : List Name

abbrev pub is_ready : ComputeNode → Bool
is_ready n = elim n.state [ ready ↦ true | maintenance ↦ false | failed ↦ false ]

unfoldable pub count_free : List Reservation → List Name → ℕ
count_free reservations [] = 0
count_free reservations (gpu ∷ gpus) =
    let rest = count_free reservations gpus in
    if any (λ r. elem gpu r.gpu_ids) reservations then rest else rest + 1

unfoldable pub count_ready : List Reservation → List ComputeNode → ℕ
unfolding count_free
count_ready reservations [] = 0
count_ready reservations (n ∷ nodes) =
    let rest = count_ready reservations nodes in
    if is_ready n then count_free reservations n.gpus + rest else rest

unfoldable pub schedulable_gpu_count : ComputeSnapshot → ℕ
unfolding count_ready
schedulable_gpu_count snapshot = count_ready snapshot.reservations snapshot.nodes

pub data Error : Type 0 where
  cross_tenant_node duplicate_gpu reserved_twice unknown_gpu : Error

pub has_duplicates : List Name → Bool
has_duplicates [] = false
has_duplicates (x ∷ xs) = let rest = has_duplicates xs in elem x xs || rest

pub all_gpus : List ComputeNode → List Name
all_gpus [] = []
all_gpus (n ∷ nodes) = n.gpus ++ all_gpus nodes

pub reserved_gpus : List Reservation → List Name
reserved_gpus [] = []
reserved_gpus (r ∷ reservations) = r.gpu_ids ++ reserved_gpus reservations

-- an item of `scheduler_states` or `telemetry_states`
pub record Observed : Type 0 where
  pub node : Name
  pub text : Name

abbrev pub disagrees : List Observed → Observed → Bool
disagrees others o = elim (find (λ x. x.node == o.node) others) [
  | none ↦ false
  | some x ↦ not (x.text == o.text)
]

-- The nodes of which both say something and not the same. (The code walks a set, in any order.)
abbrev pub conflicting : List Observed → List Observed → List Name
conflicting scheduler telemetry = map (λ o. o.node) (keep (disagrees telemetry) scheduler)

-- More than 300 whole seconds, of `second` units of the clock, are between the moments.
abbrev pub is_old : ℕ → ℕ → ℕ → Bool
is_old second observed_at now = leb (301 * second) (now - observed_at)

abbrev pub quality_of : List Name → Bool → Quality
quality_of [] old = if old then stale else good
quality_of (_ ∷ _) old = conflict

pub build :
    ℕ
    → Name
    → List ComputeNode
    → List Reservation
    → ℕ
    → ℕ
    → List Observed
    → List Observed
    → Result Error ComputeSnapshot
unfolding has_duplicates all_gpus reserved_gpus
build second tenant_id nodes reservations observed_at now scheduler telemetry =
    let conflicts = conflicting scheduler telemetry in
    if any (λ n. not (n.tenant_id == tenant_id)) nodes
    then err cross_tenant_node
    else if has_duplicates (all_gpus nodes)
    then err duplicate_gpu
    else if has_duplicates (reserved_gpus reservations)
    then err reserved_twice
    else if not (all (λ g. elem g (all_gpus nodes)) (reserved_gpus reservations))
    then err unknown_gpu
    else ok (record {
      tenant_id = tenant_id;
      quality = quality_of conflicts (is_old second observed_at now);
      nodes = nodes;
      reservations = reservations;
      conflicts = conflicts;
    })
