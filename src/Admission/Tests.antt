-- ===== src/Admission/Tests.antt =====
-- Runs of packages/admission/service.py on small inputs.
use compute_weaver.Base.{ℕ, ◌*◌, ◌≡◌, refl, true, none, [], ◌∷◌, ok}
use compute_weaver.Base.Int.{pos}
use compute_weaver.Quota.{
  Quota, exceeds, QuotaLedger, init, configure, reserve, reserve_demand, reserve_new,
}
use compute_weaver.Quota.Service.{memory_service}
use compute_weaver.Admission.{
  fine_tuning, Job, count_protected, AdmissionResult, blocking, charge_job, evaluate,
}
use compute_weaver.Compute.{
  ready, good, ComputeSnapshot, count_free, count_ready, schedulable_gpu_count,
}
use compute_weaver.Admission.Decisions.{IsFeasible, evaluate-charges}

abbrev limits : Quota
limits = record { max_gpus = pos 8; max_gpu_hours = pos 100; max_concurrent_jobs = pos 2 }

abbrev ledger : QuotaLedger
ledger = (configure 2 limits init).1

abbrev cluster : ComputeSnapshot
cluster = record {
  tenant_id = 2;
  quality = good;
  nodes =
      record { id = 41; tenant_id = 2; site_id = 51; state = ready; gpus = 61 ∷ 62 ∷ 63 ∷ 64 ∷ [] }
      ∷ [];
  reservations = record { gpu_ids = 61 ∷ []; is_protected = true } ∷ [];
  conflicts = [];
}

abbrev tuning : Job
tuning = record {
  id = 11;
  tenant_id = 2;
  workload_class = fine_tuning;
  gpu_count = 2;
  estimated_hours = 5;
  deadline = 1000;
  allowed_sites = 51 ∷ [];
}

abbrev minutes : ℕ → ℕ
minutes hours = hours * 60

abbrev outcome : AdmissionResult
outcome = record {
  admitted = true;
  blocking_constraints = [];
  capacity_shortfall = 0;
  earliest_feasible_window = none;
}

evaluate-charges_example :
    IsFeasible minutes tuning cluster 100
    × (charge_job minutes 60 memory_service tuning ledger
        ≡ (ok true, (evaluate minutes 60 memory_service tuning cluster 100 ledger).1))
unfolding evaluate blocking schedulable_gpu_count count_ready count_free count_protected
    memory_service reserve reserve_demand reserve_new configure exceeds
evaluate-charges_example =
    (evaluate-charges minutes 60 memory_service tuning cluster 100 ledger
        (evaluate minutes 60 memory_service tuning cluster 100 ledger).1 outcome refl).0
      refl
