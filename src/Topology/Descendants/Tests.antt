-- ===== src/Topology/Descendants/Tests.antt =====
-- Runs of `descendants` of packages/topology/validation.py on small inputs.
use compute_weaver.Base.{◌≡◌, refl, ◌↔◌, true, List, [], ◌∷◌, Name, elem, ok, err}
use compute_weaver.Base.Int.{}
use compute_weaver.Topology.{Asset, ids, by_id}
use compute_weaver.Topology.Boundaries.{IsSound, validate_graph_iff}
use compute_weaver.Topology.Tests.{node, nodes, links, graph_runs}
use compute_weaver.Topology.Descendants.{unknown_asset, descendants}
use compute_weaver.Topology.Descendants.Reach.{Below, descendants-reach}

descendants_runs :
    (descendants nodes links 1 ≡ ok (node 2 60 ∷ node 3 40 ∷ []))
    × (descendants nodes links 3 ≡ ok [])
    × (descendants nodes links 9 ≡ err unknown_asset)
unfolding descendants
descendants_runs = (refl, refl, refl)

links-IsSound : IsSound nodes links
links-IsSound = (validate_graph_iff nodes links).0 graph_runs.0

descendants-reach_example :
    (found : List Asset) × (descendants nodes links 1 ≡ ok found)
    × ((x : Name) → (elem x (ids found) ≡ true) ↔ Below links 1 x)
descendants-reach_example =
    descendants-reach nodes links 1 (node 1 100) links-IsSound (unfold by_id in refl)
