-- ===== src/Forecasting/Database/Tests.antt =====
-- Runs of packages/forecasting/registry.py over the database on small inputs.
use compute_weaver.Base.{◌≡◌, refl, List, [], ◌∷◌, ok, rollback}
use compute_weaver.Forecasting.{production_stage, with_stage}
use compute_weaver.Forecasting.Tests.{model}
use compute_weaver.Forecasting.Database.{
  rollback_db, production_db, Call, registering, promoting, rolling_back, run_all,
}
use compute_weaver.Forecasting.Database.Live.{IsTable, run_all-IsTable}

abbrev calls : List Call
calls =
    registering 3 (model 1) 10
    ∷ registering 3 (model 2) 20
    ∷ promoting 3 5 1 30
    ∷ promoting 3 5 2 40
    ∷ rolling_back 3 5 50
    ∷ []

-- Over the database a rollback after a rollback goes forward again; in memory it stays.
forward_run :
    (production_db 3 5 (run_all rollback calls []) ≡ ok (with_stage production_stage (model 1)))
    × ((rollback_db rollback 3 5 60 (run_all rollback calls [])).0
        ≡ ok (with_stage production_stage (model 2)))
unfolding run_all production_db rollback_db
forward_run = (refl, refl)

run_all-IsTable_example : IsTable (run_all rollback calls [])
run_all-IsTable_example = run_all-IsTable rollback calls
