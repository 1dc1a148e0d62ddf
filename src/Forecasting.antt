-- ===== src/Forecasting.antt =====
-- packages/forecasting/registry.py: `ModelRegistry`, in memory; the database is in Forecasting/Database.
-- `_models` is a list in insertion order: a version carries its key.
pub mod Promotions
pub mod Database
mod Tests
use compute_weaver.Base.{
  ℕ, Bool, true, false, not, ◌&&◌, none, some, List, [], ◌∷◌, ◌++◌, map, ltb, ◌==◌, if◌then◌else◌,
  Name, length, any, find, Result, ok, err, Method,
}

pub data ModelStage : Type 0 where
  registered staging production_stage archived : ModelStage

pub record ModelVersion : Type 0 where
  pub name : Name
  pub version : Name
  pub artifact_hash : Name
  pub dataset_hash : Name
  pub created_at : ℕ
  pub stage : ModelStage

-- `unique_violation` is raised by the index model_one_production_per_tenant
pub data ModelError : Type 0 where
  already_exists unknown_model no_previous tenant_required unique_violation : ModelError

pub record ModelRegistry : Type 0 where
  pub models : List ModelVersion
  pub history : Name → List Name

abbrev pub init : ModelRegistry
init = record { models = []; history = λ n. [] }

abbrev pub is_production : ModelStage → Bool
is_production production_stage = true
is_production _ = false

-- the key `(name, version)`
abbrev pub keyed : Name → Name → ModelVersion → Bool
keyed name version m = (m.name == name) && (m.version == version)

abbrev pub is_live : Name → ModelVersion → Bool
is_live name m = (m.name == name) && is_production m.stage

abbrev pub with_stage : ModelStage → ModelVersion → ModelVersion
with_stage stage m = record m { stage = stage }

pub register : ModelVersion → Method ModelRegistry ModelError (Unit {0})
register m s =
    if any (keyed m.name m.version) s.models
    then (err already_exists, s)
    else (ok tt, record s { models = s.models ++ m ∷ [] })

-- the loop of `promote`
abbrev pub archive : Name → ModelVersion → ModelVersion
archive name m = if is_live name m then with_stage archived m else m

-- `self._models[key] = promoted`, for a key that is there
abbrev pub replace : Name → Name → ModelVersion → ModelVersion → ModelVersion
replace name version promoted m = if keyed name version m then promoted else m

abbrev pub push : Name → Name → (Name → List Name) → Name → List Name
push name version history n = if n == name then history n ++ version ∷ [] else history n

pub promote : Name → Name → Method ModelRegistry ModelError ModelVersion
promote name version s = elim (find (keyed name version) s.models) [
  | none ↦ (err unknown_model, s)
  | some m ↦
      let promoted = with_stage production_stage m in
      (
        ok promoted,
        record {
          models = map (λ x. replace name version promoted (archive name x)) s.models;
          history = push name version s.history;
        },
      )
]

-- `history.pop()`
abbrev pub without_last : List Name → List Name
without_last [] = []
without_last (v ∷ []) = []
without_last (v ∷ w ∷ vs) = v ∷ without_last (w ∷ vs)

-- `history[-1]`, for a history that is not empty
abbrev pub last_or : Name → List Name → Name
last_or v [] = v
last_or v (w ∷ vs) = last_or w vs

abbrev pub pop : Name → ModelRegistry → ModelRegistry
pop name s = record s {
  history = λ n. if n == name then without_last (s.history n) else s.history n;
}

-- What is popped stays popped when `promote` raises.
pub rollback_model : Name → Method ModelRegistry ModelError ModelVersion
unfolding promote
rollback_model name s =
    if ltb (length (s.history name)) 2
    then (err no_previous, s)
    else promote name (last_or 0 (without_last (s.history name))) (pop name s)

pub production : Name → ModelRegistry → Result ModelError ModelVersion
production name s = elim (find (is_live name) s.models) [ none ↦ err unknown_model | some m ↦ ok m ]
