-- ===== src/Scheduling/Tests.antt =====
-- Runs of packages/scheduling/contracts.py on small inputs.
use compute_weaver.Base.{ℕ, ◌≤◌, ◌≡◌, refl, true, List, [], ◌∷◌, Name, err}
use compute_weaver.Base.Int.{pos}
use compute_weaver.Scheduling.{
  TimeSlot, Job, Allocation, exceeds_capacity, violates_deadline, job_of, place, place_each,
  validate_plan,
}
use compute_weaver.Scheduling.Limits.{demand, Once, validate_plan-demand}

abbrev pub slot : ℕ → ℕ → ℕ → ℕ → TimeSlot
slot index starts_at gpus price = record {
  index = index;
  starts_at = starts_at;
  duration_hours = 1;
  gpu_capacity = gpus;
  power_capacity_kw = 100;
  price_per_kwh = pos price;
}

abbrev pub hours : List TimeSlot
hours = slot 0 100 4 9 ∷ slot 1 160 2 3 ∷ []

abbrev pub job : Name → ℕ → Job
job id deadline = record {
  id = id;
  submitted_at = 0;
  priority = 50;
  deadline = deadline;
  gpu_count = 2;
  estimated_hours = 1;
  power_kw_per_gpu = 3;
  checkpointable = true;
}

abbrev pub both_jobs : List Job
both_jobs = job 11 200 ∷ job 12 150 ∷ []

abbrev plan : List Allocation
plan =
    record { job_id = 11; slot_indices = 0 ∷ 1 ∷ []; gpu_count = 2; reason_code = 1 }
    ∷ record { job_id = 12; slot_indices = 0 ∷ []; gpu_count = 2; reason_code = 1 }
    ∷ []

validate_plan-demand_example : (demand 0 plan ≤ 4) × Once [] plan
unfolding validate_plan place_each place job_of
validate_plan-demand_example =
    validate_plan-demand both_jobs hours plan 0 (slot 0 100 4 9) refl refl

-- A job past its deadline, and a slot that is full, are refused.
refused_runs :
    (validate_plan both_jobs hours
        (record { job_id = 12; slot_indices = 1 ∷ []; gpu_count = 1; reason_code = 1 } ∷ [])
      ≡ err violates_deadline)
    × (validate_plan both_jobs hours
          (record { job_id = 11; slot_indices = 1 ∷ []; gpu_count = 3; reason_code = 1 } ∷ [])
        ≡ err exceeds_capacity)
unfolding validate_plan place_each place job_of
refused_runs = (refl, refl)
