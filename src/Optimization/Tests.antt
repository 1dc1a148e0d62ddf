-- ===== src/Optimization/Tests.antt =====
-- Runs of packages/optimization/engine.py on small inputs.
use compute_weaver.Optimization.Optimality.{IsVerdict, optimize-IsVerdict}
use compute_weaver.Base.{ℕ, ◌+◌, ◌*◌, ◌≡◌, refl, true, false, some, List, [], ◌∷◌, Name, ok}
use compute_weaver.Base.Int.{ℤ, pos, negsuc, ◌+ℤ◌, scale}
use compute_weaver.Scheduling.{TimeSlot, Job, job_of, place, place_each, validate_plan}
use compute_weaver.Scheduling.Strategies.{exact_co_optimizer, capacity_of}
use compute_weaver.Optimization.{
  perfect_forecast, single_site, optimal, OptimizationResult, JobOptions, all_options, optimize,
}

abbrev hour : ℕ → ℕ → ℤ → TimeSlot
hour index gpus price = record {
  index = index;
  starts_at = 100 + 60 * index;
  duration_hours = 1;
  gpu_capacity = gpus;
  power_capacity_kw = 100;
  price_per_kwh = price;
}

abbrev hours : List TimeSlot
hours = hour 0 2 (pos 9) ∷ hour 1 2 (pos 3) ∷ []

abbrev job : Name → ℕ → ℕ → Job
job id deadline power = record {
  id = id;
  submitted_at = 0;
  priority = 50;
  deadline = deadline;
  gpu_count = 2;
  estimated_hours = 1;
  power_kw_per_gpu = power;
  checkpointable = true;
}

abbrev jobs : List Job
jobs = job 11 200 3 ∷ job 12 150 3 ∷ []

abbrev cheapest : OptimizationResult
cheapest = record {
  status = optimal;
  plan = some (record {
    strategy = exact_co_optimizer;
    allocations =
        record { job_id = 11; slot_indices = 1 ∷ []; gpu_count = 2; reason_code = 4 }
        ∷ record { job_id = 12; slot_indices = 0 ∷ []; gpu_count = 2; reason_code = 4 }
        ∷ [];
    unscheduled = [];
    energy_intent_kwh = 12;
    estimated_cost = pos 72;
    assumptions = perfect_forecast ∷ single_site ∷ [];
    violations = [];
    input_hash = 77;
  });
  gap = 0;
  diagnostics = [];
}

-- The job that can wait takes the cheap hour.
cheapest_run : optimize 77 jobs hours (λ n. false) ≡ ok cheapest
unfolding optimize ◌+ℤ◌ scale validate_plan place_each place job_of capacity_of
cheapest_run = refl

optimize-IsVerdict_example :
    (os : List JobOptions) × (all_options hours jobs ≡ ok os) × IsVerdict hours os cheapest
unfolding optimize ◌+ℤ◌ scale validate_plan place_each place job_of capacity_of
optimize-IsVerdict_example =
    optimize-IsVerdict 77 jobs hours (refl, (refl, tt)) (λ n. false) cheapest refl

-- With a negative price the search drops the cheaper placement of the two: 2 at hour 1 and then -100,
-- because 0 is not below the -10 that it has.
abbrev negative_hours : List TimeSlot
negative_hours = hour 0 2 (negsuc 4) ∷ hour 1 2 (pos 0) ∷ []

abbrev cut : OptimizationResult
cut = record {
  status = optimal;
  plan = some (record {
    strategy = exact_co_optimizer;
    allocations =
        record { job_id = 11; slot_indices = 0 ∷ []; gpu_count = 2; reason_code = 4 }
        ∷ record { job_id = 12; slot_indices = 1 ∷ []; gpu_count = 2; reason_code = 4 }
        ∷ [];
    unscheduled = [];
    energy_intent_kwh = 22;
    estimated_cost = negsuc 9;
    assumptions = perfect_forecast ∷ single_site ∷ [];
    violations = [];
    input_hash = 77;
  });
  gap = 0;
  diagnostics = [];
}

cut_run : optimize 77 (job 11 200 1 ∷ job 12 200 10 ∷ []) negative_hours (λ n. false) ≡ ok cut
unfolding optimize ◌+ℤ◌ scale validate_plan place_each place job_of capacity_of
cut_run = refl
