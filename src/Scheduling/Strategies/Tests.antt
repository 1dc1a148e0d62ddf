-- ===== src/Scheduling/Strategies/Tests.antt =====
-- Runs of packages/scheduling/strategies.py on small inputs.
use compute_weaver.Base.{◌≡◌, refl, [], ◌∷◌, arith, ok}
use compute_weaver.Base.Int.{pos, ◌+ℤ◌, scale}
use compute_weaver.Scheduling.{job_of, place, place_each, validate_plan}
use compute_weaver.Scheduling.Strategies.{
  price_aware, capacity_of, occupy, settle_job, schedule_job, schedule_jobs, schedule_ordered,
  schedule, heuristic, input_snapshot,
}
use compute_weaver.Scheduling.Strategies.Acceptance.{Planned, schedule-Planned}
use compute_weaver.Scheduling.Tests.{hours, both_jobs}

schedule-Planned_example : Planned 77 price_aware both_jobs hours
schedule-Planned_example =
    schedule-Planned 77 price_aware both_jobs hours (refl, (refl, tt))
      (omega arith, (omega arith, tt)) (((λ e. ground arith), tt), (tt, tt))

-- The job that can wait takes the cheap hour.
cheap_run :
    schedule 77 price_aware both_jobs hours
    ≡ ok (record {
      strategy = heuristic price_aware;
      allocations =
          record { job_id = 12; slot_indices = 0 ∷ []; gpu_count = 2; reason_code = 3 }
          ∷ record { job_id = 11; slot_indices = 1 ∷ []; gpu_count = 2; reason_code = 3 }
          ∷ [];
      unscheduled = [];
      energy_intent_kwh = 12;
      estimated_cost = pos 72;
      assumptions = input_snapshot ∷ [];
      violations = [];
      input_hash = 77;
    })
unfolding schedule schedule_ordered schedule_jobs schedule_job settle_job occupy capacity_of
    validate_plan place_each place job_of ◌+ℤ◌ scale
cheap_run = refl
