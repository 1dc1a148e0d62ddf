-- ===== src/Topology/Registry/Published.antt =====
-- What the registry of packages/topology/registry.py publishes: sound graphs, numbered from 1.
use compute_weaver.Base.{
  ℕ, ◌+◌, ◌≡◌, refl, inl, inr, false, some, List, [], ◌∷◌, ◌++◌, arith, ◌==◌, Name, Bool-cases,
  Option-cases, ==→eq, eq→==, length, All, All-append, ok, Result-cases,
}
use compute_weaver.Base.Dict.{insert-All}
use compute_weaver.Topology.Boundaries.{IsSound, validate_graph_iff}
use compute_weaver.Topology.Registry.{
  TopologySnapshot, Draft, Registry, init, is_foreign, next_revision, create_draft, Call, creating,
  publishing, next_snapshot, publish, run, run_all, versions, Asset, Relationship, validate_graph,
}

-- the snapshots are numbered from `n`
pub Numbered : ℕ → List TopologySnapshot → Type 0
Numbered n [] = Unit
Numbered n (v ∷ vs) = (v.version ≡ n) × Numbered (n + 1) vs

abbrev Owned : Name → TopologySnapshot → Type 0
Owned tenant v =
    (v.tenant_id ≡ tenant)
    × All (λ a. a.tenant_id ≡ tenant) v.assets
    × IsSound v.assets v.relationships

-- The versions of a tenant are 1, 2, ... in their order; each is a sound graph of assets of the tenant.
pub IsPublished : Name → List TopologySnapshot → Type 0
unfolding Numbered
IsPublished tenant vs = Numbered 1 vs × All (Owned tenant) vs

Numbered-append :
    (n : ℕ) (vs : List TopologySnapshot) (v : TopologySnapshot)
    → Numbered n vs
    → v.version ≡ n + length vs
    → Numbered n (vs ++ v ∷ [])
unfolding Numbered
Numbered-append n [] v h e = (ground arith, tt)
Numbered-append n (w ∷ vs) v h e = (h.0, Numbered-append (n + 1) vs v h.1 (ground arith))

foreign→owned :
    (tenant : Name) (assets : List Asset)
    → is_foreign tenant assets ≡ false
    → All (λ a. a.tenant_id ≡ tenant) assets
foreign→owned tenant [] e = tt
foreign→owned tenant (a ∷ assets) e =
    (ground (arith, e), foreign→owned tenant assets (ground arith))

pub record IsRegistry (s : Registry) : Type 0 where
  pub drafts : (t : Name) (d : Draft) → s.drafts t ≡ some d → All (λ a. a.tenant_id ≡ t) d.assets
  pub published : (t : Name) → IsPublished t (s.published t)

init-IsRegistry : IsRegistry init
unfolding IsPublished Numbered
init-IsRegistry = record { drafts = λ t d e. cc; published = λ t. (tt, tt) }

create_draft-IsRegistry :
    (tenant : Name) (assets : List Asset) (rs : List Relationship) (s : Registry)
    → IsRegistry s
    → IsRegistry (create_draft tenant assets rs s).1
unfolding create_draft
create_draft-IsRegistry tenant assets rs s h = elim (Bool-cases (is_foreign tenant assets)) [
  | inl t ↦ rw (t, create_draft) h
  | inr f ↦ elim (Result-cases (validate_graph assets rs)) [
    | inr (x, e) ↦ rw (f, e, create_draft) h
    | inl (u, e) ↦
        rw (f, e, create_draft)
          (record {
            drafts =
                insert-All (λ t d. All (λ a. a.tenant_id ≡ t) d.assets) tenant
                  (record {
                    assets = assets;
                    relationships = rs;
                    revision = next_revision (s.drafts tenant);
                  })
                  s.drafts h.drafts (foreign→owned tenant assets f);
            published = h.published;
          })
  ]
]

module _ (etag : List Asset → List Relationship → ℕ → Name) where
  append-IsPublished :
      (tenant : Name) (d : Draft) (now : ℕ) (s : Registry)
      → IsRegistry s
      → s.drafts tenant ≡ some d
      → validate_graph d.assets d.relationships ≡ ok tt
      → IsPublished tenant (s.published tenant ++ next_snapshot etag tenant d now s ∷ [])
  unfolding IsPublished
  append-IsPublished tenant d now s h e valid =
      let v = next_snapshot etag tenant d now s in
      (
        Numbered-append 1 (s.published tenant) v (h.published tenant).0 (omega arith),
        All-append (Owned tenant) (s.published tenant) v (h.published tenant).1
            (refl, h.drafts tenant d e, (validate_graph_iff d.assets d.relationships).0 valid),
      )

  publish-IsRegistry :
      (tenant : Name) (revision now : ℕ) (s : Registry)
      → IsRegistry s
      → IsRegistry (publish etag tenant revision now s).1
  unfolding publish
  publish-IsRegistry tenant revision now s h = elim (Option-cases (s.drafts tenant)) [
    | inl e ↦ rw (e, publish) h
    | inr (d, e) ↦ elim (Bool-cases (d.revision == revision)) [
      | inr f ↦ rw (e, f, publish) h
      | inl t ↦ elim (Result-cases (validate_graph d.assets d.relationships)) [
        | inr (x, g) ↦ rw (e, t, g, publish) h
        | inl (u, g) ↦
            rw (e, t, g, publish)
              (record {
                drafts = h.drafts;
                published = λ j. elim (Bool-cases (j == tenant)) [
                  | inr n ↦ rw n (h.published j)
                  | inl y ↦
                      rw (==→eq j tenant y, eq→== tenant tenant refl)
                        (append-IsPublished tenant d now s h e g)
                ];
              })
      ]
    ]
  ]

  run_all-IsRegistry :
      (cs : List Call) (s : Registry) → IsRegistry s → IsRegistry (run_all etag cs s)
  unfolding run_all run
  run_all-IsRegistry [] s h = h
  run_all-IsRegistry (creating tenant assets rs ∷ cs) s h =
      run_all-IsRegistry cs (create_draft tenant assets rs s).1
        (create_draft-IsRegistry tenant assets rs s h)
  run_all-IsRegistry (publishing tenant revision now ∷ cs) s h =
      run_all-IsRegistry cs (publish etag tenant revision now s).1
        (publish-IsRegistry tenant revision now s h)

  -- From the empty registry, after any calls of create_draft and publish, raising or not: the published
  -- versions of every tenant are numbered 1, 2, ... in their order, and each is a sound graph whose
  -- assets are all of that tenant.
  pub run_all-IsPublished :
      (cs : List Call) (tenant : Name) → IsPublished tenant (versions tenant (run_all etag cs init))
  run_all-IsPublished cs tenant = (run_all-IsRegistry cs init init-IsRegistry).published tenant
