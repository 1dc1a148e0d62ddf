-- ===== src/Topology/Tests.antt =====
-- Runs of packages/topology on small inputs.
use compute_weaver.Base.{ℕ, ◌≡◌, refl, ◌≢◌, ◌↔◌, none, List, [], ◌∷◌, Name, ok, err}
use compute_weaver.Base.Int.{pos, ◌+ℤ◌}
use compute_weaver.Topology.{
  rack, Asset, Relationship, orphan, cyclic, out_of_fuel, exceeds_boundary, walk, check_order,
  validate_graph,
}
use compute_weaver.Topology.Boundaries.{IsSound, validate_graph_iff, validate_graph_returns}

abbrev pub node : Name → ℕ → Asset
node id capacity = record {
  id = id;
  tenant_id = 1;
  site_id = 5;
  kind = rack;
  name = id;
  capacity_kw = pos capacity;
  attributes = [];
  effective = none;
  decommissioned_at = none;
}

abbrev pub link : Name → Name → Relationship
link parent child = record { parent_id = parent; child_id = child; kind = 1 }

abbrev pub nodes : List Asset
nodes = node 1 100 ∷ node 2 60 ∷ node 3 40 ∷ []

abbrev pub links : List Relationship
links = link 1 2 ∷ link 1 3 ∷ link 2 3 ∷ []

pub graph_runs :
    (validate_graph nodes links ≡ ok tt)
    × (validate_graph nodes (link 3 1 ∷ links) ≡ err cyclic)
    × (validate_graph nodes (link 1 9 ∷ links) ≡ err orphan)
    × (validate_graph (node 1 90 ∷ node 2 60 ∷ node 3 40 ∷ []) links ≡ err (exceeds_boundary 1))
unfolding validate_graph check_order walk ◌+ℤ◌
graph_runs = (refl, refl, refl, refl)

validate_graph_iff_example : (validate_graph nodes links ≡ ok tt) ↔ IsSound nodes links
validate_graph_iff_example = validate_graph_iff nodes links

validate_graph_returns_example : validate_graph nodes (link 3 1 ∷ links) ≢ err out_of_fuel
validate_graph_returns_example = validate_graph_returns nodes (link 3 1 ∷ links)
