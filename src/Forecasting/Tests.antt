-- ===== src/Forecasting/Tests.antt =====
-- Runs of packages/forecasting/registry.py on small inputs.
use compute_weaver.Base.{◌+◌, ◌≡◌, refl, [], ◌∷◌, Name, ok}
use compute_weaver.Forecasting.{
  registered, production_stage, ModelVersion, ModelRegistry, with_stage, promote, rollback_model,
  production,
}

abbrev pub model : Name → ModelVersion
model version = record {
  name = 5;
  version = version;
  artifact_hash = 70 + version;
  dataset_hash = 9;
  created_at = 40;
  stage = registered;
}

abbrev both : ModelRegistry
both = record { models = model 1 ∷ model 2 ∷ []; history = λ n. [] }

abbrev after_two : ModelRegistry
after_two = (promote 5 2 (promote 5 1 both).1).1

rollback_runs :
    (production 5 after_two ≡ ok (with_stage production_stage (model 2)))
    × ((rollback_model 5 after_two).0 ≡ ok (with_stage production_stage (model 1)))
    × ((rollback_model 5 (rollback_model 5 after_two).1).0
        ≡ ok (with_stage production_stage (model 1)))
unfolding production promote rollback_model
rollback_runs = (refl, refl, refl)
