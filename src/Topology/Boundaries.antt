-- ===== src/Topology/Boundaries.antt =====
-- `validate_graph` of packages/topology/validation.py accepts exactly the graphs that are sound.
use compute_weaver.Base.{
  ℕ, ◌≤◌, ◌≡◌, refl, sym, ◌∙◌, ◌≢◌, ◌↔◌, inl, inr, true, false, some, List, [], ◌∷◌, map, arith,
  ◌==◌, if◌then◌else◌, Name, Bool-cases, Option-cases, ==→eq, eq→==, length, all, All, All-map, ok,
  err, Result-cases,
}
use compute_weaver.Base.Int.{pos, ltb_ℤ}
use compute_weaver.Topology.{
  Asset, Relationship, cyclic, out_of_fuel, repeated, ids, by_id, check_relationship,
  check_relationships, children, indegree, roots, walk, capacity_of, total, is_overfull,
  check_boundaries, is_complete, check_order, validate_graph,
}
use compute_weaver.Topology.Counts.{count, elem→count, count-keep}
use compute_weaver.Topology.Kahn.{
  pending-none, Nodes, Ordered, Settled, IsLoop, Searched, drain-Searched,
}
use compute_weaver.Topology.Layers.{Ranked, rank_in, complete→Ranked, Ranked→complete}

-- Both ends of a relationship are assets, of one tenant.
unfoldable pub Related : List Asset → Relationship → Type 0
unfolding by_id
Related assets r =
    (parent : Asset) × (child : Asset) × (by_id assets r.parent_id ≡ some parent)
    × (by_id assets r.child_id ≡ some child)
    × (parent.tenant_id ≡ child.tenant_id)

-- A parent with a capacity above 0 has at least that of all its children together.
pub Bounded : List Asset → List Relationship → Relationship → Type 0
unfolding capacity_of total children
Bounded assets rs r =
    let capacity = capacity_of assets r.parent_id in
    ltb_ℤ (pos 0) capacity ≡ true
    → ltb_ℤ capacity (total (map (capacity_of assets) (children rs r.parent_id))) ≡ false

-- what `validate_graph` is to accept
pub record IsSound (assets : List Asset) (rs : List Relationship) : Type 0 where
  pub once : (id : Name) → count id (ids assets) ≤ 1
  pub related : All (Related assets) rs
  pub rank : Name → ℕ
  pub ranked : Ranked rs rank
  pub bounded : All (Bounded assets rs) rs

repeated→once : (xs : List Name) → repeated xs ≡ false → (x : Name) → count x xs ≤ 1
unfolding repeated count
repeated→once [] e x = omega arith
repeated→once (y ∷ ys) e x = ground (arith, repeated→once ys (ground (arith, e)) x, elem→count y ys)

once→repeated : (xs : List Name) → ((x : Name) → count x xs ≤ 1) → repeated xs ≡ false
unfolding repeated count
once→repeated [] h = refl
once→repeated (y ∷ ys) h =
    ground (arith, once→repeated ys (λ x. ground (arith, h x)), elem→count y ys, h y)

by_id-count :
    (assets : List Asset) (id : Name) (a : Asset)
    → by_id assets id ≡ some a
    → 1 ≤ count id (ids assets)
unfolding by_id count
by_id-count [] id a e = ground arith
by_id-count (b ∷ assets) id a e = ground (arith, by_id-count assets id a)

module _ (assets : List Asset) where
  Related→check : (r : Relationship) → Related assets r → check_relationship assets r ≡ ok tt
  unfolding Related check_relationship
  Related→check r (parent, child, e, f, t) = rw (e, f, check_relationship) (ground arith)

  check→Related : (r : Relationship) → check_relationship assets r ≡ ok tt → Related assets r
  unfolding Related check_relationship
  check→Related r h = elim (Option-cases (by_id assets r.parent_id)) [
    | inl e ↦ ground arith
    | inr (parent, e) ↦ elim (Option-cases (by_id assets r.child_id)) [
      | inl f ↦ ground arith
      | inr (child, f) ↦ (parent, child, e, f, ground arith)
    ]
  ]

  related→checks :
      (rs : List Relationship) → All (Related assets) rs → check_relationships assets rs ≡ ok tt
  unfolding check_relationships
  related→checks [] h = refl
  related→checks (r ∷ rs) h = rw (Related→check r h.0, check_relationships) (related→checks rs h.1)

  checks→related :
      (rs : List Relationship) → check_relationships assets rs ≡ ok tt → All (Related assets) rs
  unfolding check_relationships
  checks→related [] h = tt
  checks→related (r ∷ rs) h = elim (Result-cases (check_relationship assets r)) [
    | inr (x, e) ↦ ground arith
    | inl (u, e) ↦ (check→Related r e, checks→related rs (ground arith))
  ]

  check_returns : (r : Relationship) → check_relationship assets r ≢ err out_of_fuel
  unfolding check_relationship
  check_returns r h = elim (Option-cases (by_id assets r.parent_id)) [
    | inl e ↦ ground arith
    | inr (parent, e) ↦ elim (Option-cases (by_id assets r.child_id)) [
      | inl f ↦ ground arith
      | inr (child, f) ↦ ground arith
    ]
  ]

  checks_return : (rs : List Relationship) → check_relationships assets rs ≢ err out_of_fuel
  unfolding check_relationships
  checks_return [] h = ground arith
  checks_return (r ∷ rs) h = elim (Result-cases (check_relationship assets r)) [
    | inr (x, e) ↦ ground (arith, check_returns r)
    | inl (u, e) ↦ checks_return rs (ground arith)
  ]

  related→Nodes :
      (rs : List Relationship)
      → repeated (ids assets) ≡ false
      → All (Related assets) rs
      → Nodes (ids assets) rs
  unfolding Related
  related→Nodes rs e h = record {
    once = repeated→once (ids assets) e;
    ends =
        All-map (Related assets)
          (λ r. (1 ≤ count r.parent_id (ids assets)) × (1 ≤ count r.child_id (ids assets))) rs
          (λ r (parent, child, p, c, t).
            (by_id-count assets r.parent_id parent p, by_id-count assets r.child_id child c))
          h;
  }

  module _ (all : List Relationship) where
    bounded→checks :
        (rs : List Relationship)
        → All (Bounded assets all) rs
        → check_boundaries assets all rs ≡ ok tt
    unfolding check_boundaries Bounded is_overfull
    bounded→checks [] h = refl
    bounded→checks (r ∷ rs) h = ground (arith, bounded→checks rs h.1, h.0)

    checks→bounded :
        (rs : List Relationship)
        → check_boundaries assets all rs ≡ ok tt
        → All (Bounded assets all) rs
    unfolding check_boundaries Bounded is_overfull
    checks→bounded [] h = tt
    checks→bounded (r ∷ rs) h = (λ e. ground arith, checks→bounded rs (ground arith))

  boundaries_return :
      (all rs : List Relationship) → check_boundaries assets all rs ≢ err out_of_fuel
  unfolding check_boundaries
  boundaries_return all [] h = ground arith
  boundaries_return all (r ∷ rs) h = ground (arith, boundaries_return all rs)

  check_order-some :
      (rs : List Relationship) (visited : List Name)
      → walk assets rs ≡ some visited
      → check_order assets rs
        ≡ (if is_complete assets visited then check_boundaries assets rs rs else err cyclic)
  unfolding check_order
  check_order-some rs visited e = rw (e, check_order) refl

  module _ (rs : List Relationship) (nodes : Nodes (ids assets) rs) where
    start-IsLoop : IsLoop (ids assets) rs (indegree rs) (roots assets rs) []
    unfolding Settled Ordered count
    start-IsLoop = record {
      counts = λ c. ground (arith, pending-none rs c);
      settled = λ c.
          ground (arith, count-keep (λ id. indegree rs id == 0) c (ids assets), pending-none rs c);
      ordered = tt;
    }

    length-ids : (xs : List Asset) → length (ids xs) ≡ length xs
    length-ids [] = refl
    length-ids (a ∷ xs) = ground (arith, length-ids xs)

    walk-Searched : Searched (ids assets) rs (walk assets rs)
    unfolding walk
    walk-Searched =
        drain-Searched (ids assets) rs nodes (length assets) (indegree rs) (roots assets rs) []
          start-IsLoop (omega (arith, length-ids assets))

    check_order→sound :
        check_order assets rs ≡ ok tt
        → ((rank : Name → ℕ) × Ranked rs rank) × All (Bounded assets rs) rs
    unfolding check_order Searched
    check_order→sound h =
        let (visited, e, settled, ordered) = walk-Searched in
        let result = sym (check_order-some rs visited e) ∙ h in
        elim (Bool-cases (is_complete assets visited)) [
          | inr f ↦ cc (f, result)
          | inl t ↦ (
            (
              rank_in visited,
              complete→Ranked (ids assets) rs nodes visited settled ordered
                  (omega (arith, length-ids assets, ==→eq (length visited) (length assets) t)),
            ),
            checks→bounded rs rs (simp t at result),
          )
        ]

    sound→check_order :
        (rank : Name → ℕ)
        → Ranked rs rank
        → All (Bounded assets rs) rs
        → check_order assets rs ≡ ok tt
    unfolding check_order Searched
    sound→check_order rank ranked bounded =
        let (visited, e, settled, ordered) = walk-Searched in
        let complete = Ranked→complete (ids assets) rs nodes visited rank settled ranked in
        rw
          (
            check_order-some rs visited e,
            eq→== (length visited) (length assets) (complete ∙ length-ids assets),
          )
          (bounded→checks rs rs bounded)

    check_order_returns : check_order assets rs ≢ err out_of_fuel
    unfolding check_order Searched
    check_order_returns h =
        let (visited, e, settled, ordered) = walk-Searched in
        ground (arith, e, boundaries_return rs rs)

-- A topology is accepted exactly when no id stands twice, both ends of every relationship are assets
-- of one tenant, its nodes can be ranked so that every parent stands below its child (there is no
-- cycle), and no parent of a capacity above 0 has children of more capacity together.
pub validate_graph_iff :
    (assets : List Asset) (rs : List Relationship)
    → (validate_graph assets rs ≡ ok tt) ↔ IsSound assets rs
unfolding validate_graph
validate_graph_iff assets rs = (
  λ h. elim (Bool-cases (repeated (ids assets))) [
    | inl t ↦ ground arith
    | inr f ↦ elim (Result-cases (check_relationships assets rs)) [
      | inr (x, e) ↦ ground arith
      | inl (u, e) ↦
          let related = checks→related assets rs e in
          let ((rank, ranked), bounded) =
            check_order→sound assets rs (related→Nodes assets rs f related) (ground arith) in
          record {
            once = repeated→once (ids assets) f;
            related = related;
            rank = rank;
            ranked = ranked;
            bounded = bounded;
          }
    ]
  ],
  λ s.
      let fresh = once→repeated (ids assets) s.once in
      rw (fresh, related→checks assets rs s.related, validate_graph)
        (sound→check_order assets rs (related→Nodes assets rs fresh s.related) s.rank s.ranked
          s.bounded),
)

-- The search of `validate_graph` ends within as many rounds as there are assets, on every graph.
pub validate_graph_returns :
    (assets : List Asset) (rs : List Relationship) → validate_graph assets rs ≢ err out_of_fuel
unfolding validate_graph
validate_graph_returns assets rs h = elim (Bool-cases (repeated (ids assets))) [
  | inl t ↦ ground arith
  | inr f ↦ elim (Result-cases (check_relationships assets rs)) [
    | inr (x, e) ↦ ground (arith, checks_return assets rs)
    | inl (u, e) ↦
        check_order_returns assets rs (related→Nodes assets rs f (checks→related assets rs e))
          (ground arith)
  ]
]
