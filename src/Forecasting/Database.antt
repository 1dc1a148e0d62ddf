-- ===== src/Forecasting/Database.antt =====
-- packages/forecasting/registry.py: `ModelRegistry` over the table `model_versions`, with the unique
-- index of packages/persistence/migrations/001_initial.sql on the version in production.
pub mod Live
mod Tests
use compute_weaver.Base.{
  ℕ, Bool, true, false, ◌&&◌, Option, none, some, List, [], ◌∷◌, ◌++◌, map, ltb, ◌==◌,
  if◌then◌else◌, Name, any, keep, find, Result, ok, err, Method, raise, Pool, tenant_transaction,
}
use compute_weaver.Forecasting.{
  ModelStage, production_stage, archived, ModelVersion, ModelError, already_exists, unknown_model,
  no_previous, tenant_required, unique_violation, is_production, keyed, is_live, with_stage,
  production,
}

-- a row of `model_versions`
pub record Row : Type 0 where
  pub tenant : Name
  pub model : ModelVersion
  pub updated_at : ℕ

abbrev pub has_key : Name → Name → Name → Row → Bool
has_key tenant name version r = (r.tenant == tenant) && keyed name version r.model

abbrev pub in_production : Name → Name → Row → Bool
in_production tenant name r = (r.tenant == tenant) && is_live name r.model

abbrev pub is_archived : ModelStage → Bool
is_archived archived = true
is_archived _ = false

abbrev pub in_archive : Name → Name → Row → Bool
in_archive tenant name r =
    (r.tenant == tenant) && (r.model.name == name) && is_archived r.model.stage

abbrev pub restage : ModelStage → ℕ → Row → Row
restage stage now r = record r { model = with_stage stage r.model; updated_at = now }

-- `INSERT INTO model_versions …`, which the index refuses for a second version in production
pub insert_row : Name → ModelVersion → ℕ → Method (List Row) ModelError (Unit {0})
insert_row tenant m now rows =
    if any (has_key tenant m.name m.version) rows
    then (err already_exists, rows)
    else if is_production m.stage && any (in_production tenant m.name) rows
    then (err unique_violation, rows)
    else (ok tt, rows ++ record { tenant = tenant; model = m; updated_at = now } ∷ [])

-- `UPDATE … SET stage = 'archived' … WHERE … AND stage = 'production'`
abbrev pub archive_rows : Name → Name → ℕ → Row → Row
archive_rows tenant name now r = if in_production tenant name r then restage archived now r else r

-- `UPDATE … SET stage = 'production' … WHERE … version = %s`
abbrev pub promote_row : Name → Name → Name → ℕ → Row → Row
promote_row tenant name version now r =
    if has_key tenant name version r then restage production_stage now r else r

-- the lookup of the target and the two updates, which `promote` and `rollback` share
pub switch : Name → Name → Name → ℕ → Method (List Row) ModelError ModelVersion
switch tenant name version now rows = elim (find (has_key tenant name version) rows) [
  | none ↦ (err unknown_model, rows)
  | some r ↦ (
    ok (with_stage production_stage r.model),
    map (λ x. promote_row tenant name version now (archive_rows tenant name now x)) rows,
  )
]

-- `ORDER BY updated_at DESC LIMIT 1`
abbrev pub newer : Row → Option Row → Option Row
newer r none = some r
newer r (some other) = if ltb r.updated_at other.updated_at then some other else some r

abbrev pub newest : List Row → Option Row
newest [] = none
newest (r ∷ rows) = newer r (newest rows)

pub roll_back : Name → Name → ℕ → Method (List Row) ModelError ModelVersion
unfolding switch
roll_back tenant name now rows = elim (newest (keep (in_archive tenant name) rows)) [
  | none ↦ (err no_previous, rows)
  | some r ↦ switch tenant name r.model.version now rows
]

module _ (pool : Pool (List Row)) where
  pub register_db : Name → ModelVersion → ℕ → Method (List Row) ModelError (Unit {0})
  unfolding insert_row
  register_db tenant m now =
      tenant_transaction pool tenant_required tenant (insert_row tenant m now)

  pub promote_db : Name → Name → Name → ℕ → Method (List Row) ModelError ModelVersion
  unfolding switch
  promote_db tenant name version now =
      tenant_transaction pool tenant_required tenant (switch tenant name version now)

  pub rollback_db : Name → Name → ℕ → Method (List Row) ModelError ModelVersion
  unfolding roll_back
  rollback_db tenant name now =
      tenant_transaction pool tenant_required tenant (roll_back tenant name now)

pub production_db : Name → Name → List Row → Result ModelError ModelVersion
production_db tenant name rows = elim (find (in_production tenant name) rows) [
  | none ↦ err unknown_model
  | some r ↦ ok r.model
]

pub data Call : Type 0 where
  registering : Name → ModelVersion → ℕ → Call
  promoting : Name → Name → Name → ℕ → Call
  rolling_back : Name → Name → ℕ → Call

module _ (pool : Pool (List Row)) where
  pub run : Call → List Row → List Row
  unfolding register_db promote_db rollback_db
  run (registering tenant m now) rows = (register_db pool tenant m now rows).1
  run (promoting tenant name version now) rows = (promote_db pool tenant name version now rows).1
  run (rolling_back tenant name now) rows = (rollback_db pool tenant name now rows).1

  -- the table after a sequence of calls, each of which may raise
  pub run_all : List Call → List Row → List Row
  unfolding run
  run_all [] rows = rows
  run_all (c ∷ cs) rows = run_all cs (run c rows)
