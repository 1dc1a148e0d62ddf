-- ===== src/Topology/Registry.antt =====
-- packages/topology/registry.py: `TopologyRegistry` in memory, and the snapshots of
-- packages/topology/models.py. `now` is `utc_now()`, `etag` the digest of the canonical text.
pub mod Published
mod Tests
use compute_weaver.Base.{
  ℕ, ◌+◌, ◌-◌, Bool, true, not, ◌&&◌, Option, none, some, List, [], ◌∷◌, ◌++◌, ltb, leb, ◌==◌,
  if◌then◌else◌, Name, length, any, keep, find, Result, ok, err, Method, raise,
}
use compute_weaver.Base.Dict.{Dict, empty, insert}
use compute_weaver.Topology.{TimeInterval, Asset, Relationship, Error, validate_graph}

pub record TopologySnapshot : Type 0 where
  pub version : ℕ
  pub tenant_id : Name
  pub assets : List Asset
  pub relationships : List Relationship
  pub published_at : ℕ
  pub etag : Name

pub data RegistryError : Type 0 where
  foreign_assets no_draft draft_changed no_published none_at_timestamp no_asset no_version :
      RegistryError
  invalid : Error → RegistryError

-- a value of `_drafts`
pub record Draft : Type 0 where
  pub assets : List Asset
  pub relationships : List Relationship
  pub revision : ℕ

pub record Registry : Type 0 where
  pub drafts : Dict Draft
  pub published : Name → List TopologySnapshot

abbrev pub init : Registry
init = record { drafts = empty; published = λ t. [] }

-- `TopologySnapshot.asset`
pub asset : TopologySnapshot → Name → Result RegistryError Asset
asset s id = elim (find (λ a. a.id == id) s.assets) [ none ↦ err no_asset | some a ↦ ok a ]

-- `TimeInterval.contains`
abbrev pub contains : TimeInterval → ℕ → Bool
contains i moment = leb i.start moment && ltb moment i.end

abbrev pub is_effective : Option TimeInterval → ℕ → Bool
is_effective none moment = true
is_effective (some i) moment = contains i moment

abbrev pub is_in_use : Option ℕ → ℕ → Bool
is_in_use none moment = true
is_in_use (some end) moment = ltb moment end

-- `TopologySnapshot.active_at`
pub active_at : TopologySnapshot → ℕ → List Asset
active_at s moment =
    keep (λ a. is_effective a.effective moment && is_in_use a.decommissioned_at moment) s.assets

abbrev pub is_foreign : Name → List Asset → Bool
is_foreign tenant assets = any (λ a. not (a.tenant_id == tenant)) assets

abbrev pub next_revision : Option Draft → ℕ
next_revision none = 1
next_revision (some d) = d.revision + 1

abbrev pub save_draft : Name → List Asset → List Relationship → Registry → Registry
save_draft tenant assets rs s = record s {
  drafts =
      insert tenant
        (record { assets = assets; relationships = rs; revision = next_revision (s.drafts tenant) })
        s.drafts;
}

-- The text `draft-{tenant_id}-{revision}` is the revision here.
pub create_draft : Name → List Asset → List Relationship → Method Registry RegistryError ℕ
create_draft tenant assets rs s =
    if is_foreign tenant assets then (err foreign_assets, s) else elim (validate_graph assets rs) [
      | err e ↦ (err (invalid e), s)
      | ok _ ↦ (ok (next_revision (s.drafts tenant)), save_draft tenant assets rs s)
    ]

pub data Call : Type 0 where
  creating : Name → List Asset → List Relationship → Call
  publishing : Name → ℕ → ℕ → Call

module _ (etag : List Asset → List Relationship → ℕ → Name) where
  -- `_snapshot`
  abbrev pub snapshot : Name → ℕ → List Asset → List Relationship → ℕ → TopologySnapshot
  snapshot tenant version assets rs now = record {
    version = version;
    tenant_id = tenant;
    assets = assets;
    relationships = rs;
    published_at = now;
    etag = etag assets rs version;
  }

  abbrev pub next_snapshot : Name → Draft → ℕ → Registry → TopologySnapshot
  next_snapshot tenant d now s =
      snapshot tenant (length (s.published tenant) + 1) d.assets d.relationships now

  abbrev pub append : Name → TopologySnapshot → Registry → Registry
  append tenant v s = record s {
    published = λ t. if t == tenant then s.published t ++ v ∷ [] else s.published t;
  }

  pub publish : Name → ℕ → ℕ → Method Registry RegistryError TopologySnapshot
  publish tenant expected_draft_revision now s = elim (s.drafts tenant) [
    | none ↦ (err no_draft, s)
    | some d ↦
        let v = next_snapshot tenant d now s in
        if not (d.revision == expected_draft_revision)
        then (err draft_changed, s)
        else elim (validate_graph d.assets d.relationships) [
          | err e ↦ (err (invalid e), s)
          | ok _ ↦ (ok v, append tenant v s)
        ]
  ]

  pub run : Call → Registry → Registry
  unfolding create_draft publish
  run (creating tenant assets rs) s = (create_draft tenant assets rs s).1
  run (publishing tenant revision now) s = (publish tenant revision now s).1

  -- the registry after a sequence of calls, each of which may raise
  pub run_all : List Call → Registry → Registry
  unfolding run
  run_all [] s = s
  run_all (c ∷ cs) s = run_all cs (run c s)

abbrev pub last : List TopologySnapshot → Option TopologySnapshot
last [] = none
last (v ∷ []) = some v
last (v ∷ w ∷ vs) = last (w ∷ vs)

abbrev pub or_error : {A : Type 0} → RegistryError → Option A → Result RegistryError A
or_error e none = err e
or_error e (some a) = ok a

pub active : Name → Option ℕ → Registry → Result RegistryError TopologySnapshot
active tenant none s = or_error no_published (last (s.published tenant))
active tenant (some at) s =
    let before = keep (λ v. leb v.published_at at) (s.published tenant) in
    if length (s.published tenant) == 0
    then err no_published
    else or_error none_at_timestamp (last before)

abbrev pub versions : Name → Registry → List TopologySnapshot
versions tenant s = s.published tenant
