-- ===== src/Topology/Descendants.antt =====
-- packages/topology/validation.py: `descendants`, the walk down from an asset, and
-- `TopologyRegistry.traverse` of packages/topology/registry.py.
pub mod Reach
mod Tests
use compute_weaver.Base.{
  ℕ, zero, suc, ◌+◌, true, false, none, some, List, [], ◌∷◌, ◌++◌, Name, length, elem, Result, ok,
  err,
}
use compute_weaver.Topology.{Asset, Relationship, by_id, children, walk}
use compute_weaver.Topology.Registry.{RegistryError, Registry, asset, active}

pub data WalkError : Type 0 where
  unknown_asset out_of_rounds : WalkError
  not_active : RegistryError → WalkError

module _ (assets : List Asset) (rs : List Relationship) where
  -- the loop over the queue
  pub walk_down : ℕ → List Name → List Name → List Asset → Result WalkError (List Asset)
  unfolding by_id children
  walk_down fuel [] seen output = ok output
  walk_down zero (item ∷ queue) seen output = err out_of_rounds
  walk_down (suc fuel) (item ∷ queue) seen output = elim (elem item seen) [
    | true ↦ walk_down fuel queue seen output
    | false ↦ elim (by_id assets item) [
      | none ↦ err unknown_asset
      | some asset ↦ walk_down fuel (queue ++ children rs item) (item ∷ seen) (output ++ asset ∷ [])
    ]
  ]

  -- A relationship is queued once for its parent, and those of the root once more at the start.
  pub descendants : Name → Result WalkError (List Asset)
  unfolding walk_down
  descendants root = elim (by_id assets root) [
    | none ↦ err unknown_asset
    | some _ ↦ walk_down (length rs + length rs) (children rs root) [] []
  ]

pub traverse : Name → Name → Registry → Result WalkError (List Asset)
unfolding descendants
traverse tenant root s = elim (active tenant none s) [
  | err e ↦ err (not_active e)
  | ok v ↦ descendants v.assets v.relationships root
]
