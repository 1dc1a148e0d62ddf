-- ===== src/Admission.antt =====
-- packages/admission/service.py: whether a job is admitted against a snapshot of the compute
-- (of Compute) and the quota of its tenant. Moments and hours are numbers.
pub mod Decisions
mod Tests
use compute_weaver.Base.{
  ℕ, ◌+◌, ◌-◌, ◌*◌, Bool, true, false, not, ◌&&◌, Option, none, some, List, [], ◌∷◌, ltb, ◌==◌,
  if◌then◌else◌, Name, length, any, elem, ok, err, Method,
}
use compute_weaver.Base.Int.{pos}
use compute_weaver.Quota.{Error}
use compute_weaver.Compute.{
  ComputeNode, Reservation, Quality, stale, conflict, ComputeSnapshot, schedulable_gpu_count,
}
use compute_weaver.Quota.Service.{QuotaService}

pub data WorkloadClass : Type 0 where
  training fine_tuning rl batch_inference online_inference preprocessing evaluation : WorkloadClass

-- The fields of `Job`, its `request` and its `sla` that are read; no amount of a request is negative.
pub record Job : Type 0 where
  pub id : Name
  pub tenant_id : Name
  pub workload_class : WorkloadClass
  pub gpu_count : ℕ
  pub estimated_hours : ℕ
  pub deadline : ℕ
  pub allowed_sites : List Name

pub count_protected : List Reservation → ℕ
count_protected [] = 0
count_protected (r ∷ reservations) =
    let rest = count_protected reservations in
    if r.is_protected then length r.gpu_ids + rest else rest

pub data Constraint : Type 0 where
  tenant_scope compute_data_quality gpu_capacity deadline_missed sovereignty : Constraint
  protected_inference_reservation quota_exceeded : Constraint

pub record AdmissionResult : Type 0 where
  pub admitted : Bool
  pub blocking_constraints : List Constraint
  pub capacity_shortfall : ℕ
  pub earliest_feasible_window : Option ℕ

abbrev pub is_unreliable : Quality → Bool
is_unreliable stale = true
is_unreliable conflict = true
is_unreliable _ = false

abbrev pub is_online : WorkloadClass → Bool
is_online online_inference = true
is_online _ = false

abbrev pub block_if : Bool → Constraint → List Constraint → List Constraint
block_if c b rest = if c then b ∷ rest else rest

-- `timedelta(hours=float(…))` and `timedelta(hours=1)` in the clock's unit
module _ (timedelta : ℕ → ℕ) (one_hour : ℕ) where
  -- the list before the quota is asked
  pub blocking : Job → ComputeSnapshot → ℕ → List Constraint
  blocking job snapshot now =
      let available = schedulable_gpu_count snapshot in
      block_if (not (snapshot.tenant_id == job.tenant_id)) tenant_scope (
        block_if (is_unreliable snapshot.quality) compute_data_quality (
          block_if (ltb 0 (job.gpu_count - available)) gpu_capacity (
            block_if (ltb job.deadline (now + timedelta job.estimated_hours)) deadline_missed (
              block_if
                (ltb 0 (length job.allowed_sites)
                  && not (any (λ n. elem n.site_id job.allowed_sites) snapshot.nodes))
                sovereignty
                (block_if
                  (not (is_online job.workload_class)
                    && ltb available (count_protected snapshot.reservations + job.gpu_count))
                  protected_inference_reservation [])))))

  abbrev pub result : Job → ComputeSnapshot → ℕ → List Constraint → AdmissionResult
  result job snapshot now [] = record {
    admitted = true;
    blocking_constraints = [];
    capacity_shortfall = job.gpu_count - schedulable_gpu_count snapshot;
    earliest_feasible_window = none;
  }
  result job snapshot now (b ∷ bs) = record {
    admitted = false;
    blocking_constraints = b ∷ bs;
    capacity_shortfall = job.gpu_count - schedulable_gpu_count snapshot;
    earliest_feasible_window = some (now + one_hour);
  }

  module _ {S : Type 0} (quota : QuotaService S) where
    -- the reservation of an unblocked job, under the job's name
    abbrev pub charge_job : Job → Method S Error Bool
    charge_job job =
        quota.reserve_gpus job.tenant_id (pos job.gpu_count)
          (pos (job.gpu_count * job.estimated_hours)) (some job.id)

    pub evaluate : Job → ComputeSnapshot → ℕ → Method S Error AdmissionResult
    unfolding blocking
    evaluate job snapshot now s = elim (blocking job snapshot now) [
      | b ∷ bs ↦ (ok (result job snapshot now (b ∷ bs)), s)
      | [] ↦
          let (r, t) = charge_job job s in
          elim r [
            | err e ↦ (err e, t)
            | ok reserved ↦
                (ok (result job snapshot now (if reserved then [] else quota_exceeded ∷ [])), t)
          ]
    ]
