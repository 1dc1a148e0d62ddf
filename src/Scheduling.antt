-- ===== src/Scheduling.antt =====
-- packages/scheduling/contracts.py: the input and the plan of a schedule, and `validate_plan`, the
-- check of a plan against its input. Counts of GPUs, slot indices, hours and powers are naturals.
pub mod Strategies
pub mod Limits
mod Tests
use compute_weaver.Base.{
  ℕ, ◌+◌, Bool, not, Option, none, some, List, [], ◌∷◌, ltb, leb, ◌==◌, if◌then◌else◌, Name,
  get_elem?, any, elem, Result, ok, err,
}
use compute_weaver.Base.Int.{ℤ}

pub record TimeSlot : Type 0 where
  pub index : ℕ
  pub starts_at : ℕ
  pub duration_hours : ℕ
  pub gpu_capacity : ℕ
  pub power_capacity_kw : ℕ
  pub price_per_kwh : ℤ

-- The fields of `Job`, its `request` and its `sla` that are read.
pub record Job : Type 0 where
  pub id : Name
  pub submitted_at : ℕ
  pub priority : ℕ
  pub deadline : ℕ
  pub gpu_count : ℕ
  pub estimated_hours : ℕ
  pub power_kw_per_gpu : ℕ
  pub checkpointable : Bool

pub record Allocation : Type 0 where
  pub job_id : Name
  pub slot_indices : List ℕ
  pub gpu_count : ℕ
  pub reason_code : Name

-- `unknown_job` and `unknown_slot` are Python's `KeyError` and `IndexError`
pub data Error : Type 0 where
  allocated_twice exceeds_capacity violates_deadline unknown_job unknown_slot : Error
  division_by_zero : Error

-- `{job.id: job for job in request.jobs}`, in which the last job of an id stands
unfoldable pub job_of : List Job → Name → Option Job
job_of [] id = none
job_of (j ∷ jobs) id = elim (job_of jobs id) [
  | some k ↦ some k
  | none ↦ if j.id == id then some j else none
]

-- `used[i] += gpu_count`
abbrev pub add_use : ℕ → ℕ → (ℕ → ℕ) → ℕ → ℕ
add_use i gpu_count used j = if j == i then used j + gpu_count else used j

-- the loop over the slots of one allocation
module _ (slots : List TimeSlot) (deadline gpu_count : ℕ) where
  unfoldable pub place : List ℕ → (ℕ → ℕ) → Result Error (ℕ → ℕ)
  place [] used = ok used
  place (i ∷ indices) used =
      let rest = place indices (add_use i gpu_count used) in
      elim (get_elem? slots i) [
        | none ↦ err unknown_slot
        | some slot ↦
            if not (any (λ s. s.index == i) slots)
            then err unknown_slot
            else if ltb slot.gpu_capacity (used i + gpu_count)
            then err exceeds_capacity
            else if leb deadline slot.starts_at
            then err violates_deadline
            else rest
      ]

module _ (jobs : List Job) (slots : List TimeSlot) where
  -- the loop over the allocations, with what they use
  unfoldable pub place_each : List Allocation → (ℕ → ℕ) → List Name → Result Error (ℕ → ℕ)
  unfolding place job_of
  place_each [] used allocated = ok used
  place_each (a ∷ allocations) used allocated =
      if elem a.job_id allocated then err allocated_twice else elim (job_of jobs a.job_id) [
        | none ↦ err unknown_job
        | some job ↦ elim (place slots job.deadline a.gpu_count a.slot_indices used) [
          | err e ↦ err e
          | ok used' ↦ place_each allocations used' (a.job_id ∷ allocated)
        ]
      ]

  unfoldable pub validate_plan : List Allocation → Result Error (Unit {0})
  unfolding place_each
  validate_plan allocations = elim (place_each allocations (λ i. 0) []) [
    | err e ↦ err e
    | ok _ ↦ ok tt
  ]
