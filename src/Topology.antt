-- ===== src/Topology.antt =====
-- packages/topology/validation.py and models.py: the graph of assets. The key of a `defaultdict` is
-- its children in the order of the relationships; capacities are exact.
pub mod Counts
pub mod Boundaries
pub mod Kahn
pub mod Layers
pub mod Registry
pub mod Descendants
-- pub mod Diff
mod Tests
use compute_weaver.Base.{
  ℕ, zero, suc, ◌+◌, ◌-◌, Bool, false, ◌&&◌, ◌||◌, Option, none, some, List, [], ◌∷◌, ◌++◌, map,
  ◌==◌, if◌then◌else◌, Name, length, all, keep, find, elem, Result, ok, err,
}
use compute_weaver.Base.Int.{ℤ, pos, ltb_ℤ, ◌+ℤ◌}

pub data AssetType : Type 0 where
  organization region campus site data_center room rack power_zone : AssetType
  cooling_zone compute_node energy_asset : AssetType

pub record TimeInterval : Type 0 where
  pub start : ℕ
  pub end : ℕ

pub record Asset : Type 0 where
  pub id : Name
  pub tenant_id : Name
  pub site_id : Name
  pub kind : AssetType
  pub name : Name
  pub capacity_kw : ℤ
  pub attributes : List (Name × Name)
  pub effective : Option TimeInterval
  pub decommissioned_at : Option ℕ

pub record Relationship : Type 0 where
  pub parent_id : Name
  pub child_id : Name
  pub kind : Name

pub data Error : Type 0 where
  duplicate_asset orphan cross_tenant cyclic out_of_fuel : Error
  exceeds_boundary : Name → Error

-- `len(by_id) != len(assets)`: an id stands twice
pub repeated : List Name → Bool
repeated [] = false
repeated (x ∷ xs) = elem x xs || repeated xs

abbrev pub ids : List Asset → List Name
ids assets = map (λ a. a.id) assets

-- `by_id.get(id)`, where the ids are distinct
pub by_id : List Asset → Name → Option Asset
by_id assets id = find (λ a. a.id == id) assets

-- the tests of a relationship
pub check_relationship : List Asset → Relationship → Result Error (Unit {0})
unfolding by_id
check_relationship assets r = elim (by_id assets r.parent_id) [
  | none ↦ err orphan
  | some parent ↦ elim (by_id assets r.child_id) [
    | none ↦ err orphan
    | some child ↦ if parent.tenant_id == child.tenant_id then ok tt else err cross_tenant
  ]
]

pub check_relationships : List Asset → List Relationship → Result Error (Unit {0})
unfolding check_relationship
check_relationships assets [] = ok tt
check_relationships assets (r ∷ rs) = elim (check_relationship assets r) [
  | err e ↦ err e
  | ok _ ↦ check_relationships assets rs
]

-- `children[id]`
pub children : List Relationship → Name → List Name
children [] id = []
children (r ∷ rs) id =
    let rest = children rs id in if r.parent_id == id then r.child_id ∷ rest else rest

-- `indegree[id]`, once the relationships are read
pub indegree : List Relationship → Name → ℕ
indegree [] id = 0
indegree (r ∷ rs) id = let rest = indegree rs id in if r.child_id == id then rest + 1 else rest

abbrev pub decrement : Name → (Name → ℕ) → Name → ℕ
decrement child count id = if id == child then count id - 1 else count id

-- the loop over the children of a node, on `indegree` and the queue
pub release : List Name → (Name → ℕ) → List Name → (Name → ℕ) × List Name
release [] count queue = (count, queue)
release (child ∷ cs) count queue =
    let left = decrement child count in
    release cs left (if count child == 1 then queue ++ child ∷ [] else queue)

-- the loop over the queue: `visited` are the nodes taken from it, of which the code keeps the number
pub drain : (Name → List Name) → ℕ → (Name → ℕ) → List Name → List Name → Option (List Name)
unfolding release
drain below fuel count [] visited = some visited
drain below zero count (node ∷ queue) visited = none
drain below (suc fuel) count (node ∷ queue) visited =
    let (left, rest) = release (below node) count queue in
    drain below fuel left rest (node ∷ visited)

abbrev pub roots : List Asset → List Relationship → List Name
roots assets rs = keep (λ id. indegree rs id == 0) (ids assets)

-- A node is queued at most once: as many rounds as assets are enough.
pub walk : List Asset → List Relationship → Option (List Name)
unfolding drain indegree children
walk assets rs = drain (children rs) (length assets) (indegree rs) (roots assets rs) []

-- `by_id[id].capacity_kw`
pub capacity_of : List Asset → Name → ℤ
unfolding by_id
capacity_of assets id = elim (by_id assets id) [ none ↦ pos 0 | some a ↦ a.capacity_kw ]

pub total : List ℤ → ℤ
total [] = pos 0
total (z ∷ zs) = z +ℤ total zs

-- the test of one parent
pub is_overfull : List Asset → List Relationship → Name → Bool
unfolding capacity_of total children
is_overfull assets rs parent =
    let capacity = capacity_of assets parent in
    ltb_ℤ (pos 0) capacity && ltb_ℤ capacity (total (map (capacity_of assets) (children rs parent)))

-- the last loop; the keys of `children` stand in the order of their first relationship
pub check_boundaries : List Asset → List Relationship → List Relationship → Result Error (Unit {0})
unfolding is_overfull
check_boundaries assets all [] = ok tt
check_boundaries assets all (r ∷ rs) =
    let rest = check_boundaries assets all rs in
    if is_overfull assets all r.parent_id then err (exceeds_boundary r.parent_id) else rest

-- `if visited != len(assets)`
abbrev pub is_complete : List Asset → List Name → Bool
is_complete assets visited = length visited == length assets

-- past the checks of the relationships
pub check_order : List Asset → List Relationship → Result Error (Unit {0})
unfolding walk check_boundaries
check_order assets rs = elim (walk assets rs) [
  | none ↦ err out_of_fuel
  | some visited ↦ if is_complete assets visited then check_boundaries assets rs rs else err cyclic
]

pub validate_graph : List Asset → List Relationship → Result Error (Unit {0})
unfolding repeated check_relationships check_order
validate_graph assets rs =
    if repeated (ids assets)
    then err duplicate_asset
    else elim (check_relationships assets rs) [ err e ↦ err e | ok _ ↦ check_order assets rs ]
