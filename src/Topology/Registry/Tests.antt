-- ===== src/Topology/Registry/Tests.antt =====
-- Runs of packages/topology/registry.py on small inputs.
use compute_weaver.Base.{ℕ, ◌+◌, ◌≡◌, refl, none, some, List, [], ◌∷◌, Name, ok, err}
use compute_weaver.Base.Int.{◌+ℤ◌}
use compute_weaver.Topology.{Asset, Relationship, walk, check_order, validate_graph}
use compute_weaver.Topology.Registry.{
  TopologySnapshot, no_published, none_at_timestamp, init, create_draft, Call, creating, publishing,
  publish, run, run_all, active, versions,
}
use compute_weaver.Topology.Registry.Published.{IsPublished, run_all-IsPublished}
use compute_weaver.Topology.Tests.{nodes, links}

abbrev digest : List Asset → List Relationship → ℕ → Name
digest assets rs version = version + 7

abbrev calls : List Call
calls = creating 1 nodes links ∷ publishing 1 1 50 ∷ publishing 1 2 60 ∷ publishing 1 1 70 ∷ []

abbrev first : TopologySnapshot
first = record {
  version = 1;
  tenant_id = 1;
  assets = nodes;
  relationships = links;
  published_at = 50;
  etag = 8;
}

active_runs :
    (active 1 none (run_all digest calls init)
      ≡ ok (record first { version = 2; published_at = 70; etag = 9 }))
    × (active 1 (some 60) (run_all digest calls init) ≡ ok first)
    × (active 1 (some 40) (run_all digest calls init) ≡ err none_at_timestamp)
    × (active 2 none (run_all digest calls init) ≡ err no_published)
unfolding active run_all run create_draft publish validate_graph check_order walk ◌+ℤ◌
active_runs = (refl, refl, refl, refl)

run_all-IsPublished_example : IsPublished 1 (versions 1 (run_all digest calls init))
run_all-IsPublished_example = run_all-IsPublished digest calls 1
