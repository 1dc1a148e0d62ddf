-- ===== src/Scheduling/Strategies.antt =====
-- packages/scheduling/strategies.py: the three strategies. Arithmetic on `Decimal` is exact here. The
-- hash of the input, `request.content_hash()`, is an argument. The texts that the code spells out are
-- fixed numbers.
pub mod Slots
pub mod Acceptance
mod Tests
use Prim.Native.Nat.{◌/◌}
use compute_weaver.Base.{
  ℕ, ◌+◌, ◌-◌, ◌*◌, Bool, true, false, not, ◌&&◌, ◌||◌, Option, none, some, List, [], ◌∷◌, ◌++◌,
  map, ltb, leb, ◌==◌, if◌then◌else◌, Name, length, any, keep, Result, ok, err, raise,
}
use compute_weaver.Base.Int.{ℤ, pos, ltb_ℤ, ◌+ℤ◌, scale}
use compute_weaver.Base.Sorting.{take, sort_by}
use compute_weaver.Scheduling.{
  TimeSlot, Job, Allocation, Error, division_by_zero, add_use, validate_plan,
}

pub data Strategy : Type 0 where
  fifo priority_edf price_aware : Strategy

-- the texts of `SchedulePlan.strategy`
pub data Planner : Type 0 where
  heuristic : Strategy → Planner
  exact_co_optimizer : Planner

pub record SchedulePlan : Type 0 where
  pub strategy : Planner
  pub allocations : List Allocation
  pub unscheduled : List Name
  pub energy_intent_kwh : ℕ
  pub estimated_cost : ℤ
  pub assumptions : List Name
  pub violations : List Name
  pub input_hash : Name

-- the locals of `_schedule`; `available[i]` is the capacity of slot `i` less `used i`
pub record Progress : Type 0 where
  pub used : ℕ → ℕ
  pub allocations : List Allocation
  pub unscheduled : List Name
  pub energy : ℕ
  pub cost : ℤ

-- `{slot.index: slot.gpu_capacity for slot in request.slots}`, in which the last slot of an index stands
unfoldable pub capacity_of : List TimeSlot → ℕ → ℕ
capacity_of [] i = 0
capacity_of (s ∷ slots) i =
    let rest = capacity_of slots i in
    if any (λ t. t.index == i) slots then rest else if s.index == i then s.gpu_capacity else 0

-- `int((estimated_hours / duration).to_integral_value(rounding=ROUND_CEILING))`
abbrev pub required_slots : ℕ → ℕ → ℕ
required_slots estimated_hours duration = (estimated_hours + duration - 1) / duration

-- the tests of a candidate slot
abbrev pub is_candidate : List TimeSlot → (ℕ → ℕ) → Job → TimeSlot → Bool
is_candidate slots used job slot =
    ltb slot.starts_at job.deadline
    && leb (used slot.index + job.gpu_count) (capacity_of slots slot.index)
    && leb (job.power_kw_per_gpu * job.gpu_count) slot.power_capacity_kw

abbrev pub earlier : TimeSlot → TimeSlot → Bool
earlier a b = ltb a.starts_at b.starts_at

-- before by `(price_per_kwh, starts_at)`
abbrev pub cheaper : TimeSlot → TimeSlot → Bool
cheaper a b =
    ltb_ℤ a.price_per_kwh b.price_per_kwh
    || (not (ltb_ℤ b.price_per_kwh a.price_per_kwh) && earlier a b)

-- the slots that are chosen for a job, by their start
abbrev pub select : Bool → List TimeSlot → (ℕ → ℕ) → Job → ℕ → List TimeSlot
select price slots used job required = sort_by earlier (
    take required
      (sort_by (if price then cheaper else earlier) (keep (is_candidate slots used job) slots)))

abbrev pub consecutive : List TimeSlot → Bool
consecutive [] = true
consecutive (a ∷ []) = true
consecutive (a ∷ b ∷ slots) = (b.index == a.index + 1) && consecutive (b ∷ slots)

-- the loop that takes the GPUs of the selected slots and counts energy and cost
pub occupy : Job → List TimeSlot → Progress → Progress
occupy job [] p = p
occupy job (slot ∷ slots) p =
    let slot_energy = job.power_kw_per_gpu * job.gpu_count * slot.duration_hours in
    occupy job slots (record p {
      used = add_use slot.index job.gpu_count p.used;
      energy = p.energy + slot_energy;
      cost = p.cost +ℤ scale slot_energy slot.price_per_kwh;
    })

abbrev pub leave_out : Job → Progress → Progress
leave_out job p = record p { unscheduled = p.unscheduled ++ job.id ∷ [] }

-- `strategy.upper()`
abbrev pub upper : Strategy → Name
upper fifo = 1
upper priority_edf = 2
upper price_aware = 3

-- the text "deterministic input snapshot"
abbrev pub input_snapshot : Name
input_snapshot = 5

abbrev pub allocation : Strategy → Job → List TimeSlot → Allocation
allocation strategy job selected = record {
  job_id = job.id;
  slot_indices = map (λ s. s.index) selected;
  gpu_count = job.gpu_count;
  reason_code = upper strategy;
}

abbrev pub allocate : Strategy → Job → List TimeSlot → Progress → Progress
allocate strategy job selected p =
    let q = occupy job selected p in
    record q { allocations = q.allocations ++ allocation strategy job selected ∷ [] }

abbrev pub first_duration : List TimeSlot → Option ℕ
first_duration [] = none
first_duration (slot ∷ _) = some slot.duration_hours

module _ (strategy : Strategy) (price : Bool) (slots : List TimeSlot) where
  -- the end of the loop's body, for the slots `selected`
  pub settle_job : Job → ℕ → List TimeSlot → Progress → Progress
  unfolding occupy
  settle_job job required selected p =
      if not (length selected == required) || (not job.checkpointable && not (consecutive selected))
      then leave_out job p
      else allocate strategy job selected p

  -- the body of the loop over the jobs; the division by the first slot's duration may raise
  pub schedule_job : Job → Progress → Result Error Progress
  unfolding settle_job capacity_of sort_by
  schedule_job job p = elim (first_duration slots) [
    | none ↦ ok (leave_out job p)
    | some duration ↦
        let required = required_slots job.estimated_hours duration in
        if duration == 0
        then err division_by_zero
        else ok (settle_job job required (select price slots p.used job required) p)
  ]

  pub schedule_jobs : List Job → Progress → Result Error Progress
  unfolding schedule_job
  schedule_jobs [] p = ok p
  schedule_jobs (job ∷ jobs) p = elim (schedule_job job p) [
    | err e ↦ err e
    | ok q ↦ schedule_jobs jobs q
  ]

abbrev pub no_progress : Progress
no_progress = record { used = λ i. 0; allocations = []; unscheduled = []; energy = 0; cost = pos 0 }

abbrev pub plan_of : Name → Strategy → Progress → SchedulePlan
plan_of input_hash strategy p = record {
  strategy = heuristic strategy;
  allocations = p.allocations;
  unscheduled = p.unscheduled;
  energy_intent_kwh = p.energy;
  estimated_cost = p.cost;
  assumptions = input_snapshot ∷ [];
  violations = [];
  input_hash = input_hash;
}

-- `_schedule` on ordered jobs: the plan is checked before it is returned.
pub schedule_ordered :
    Name → Strategy → Bool → List Job → List Job → List TimeSlot → Result Error SchedulePlan
unfolding schedule_jobs
schedule_ordered input_hash strategy price jobs ordered slots =
    elim (schedule_jobs strategy price slots ordered no_progress) [
      | err e ↦ err e
      | ok p ↦ elim (validate_plan jobs slots p.allocations) [
        | err e ↦ err e
        | ok _ ↦ ok (plan_of input_hash strategy p)
      ]
    ]

-- before by `(submitted_at, id)`
abbrev pub submitted_before : Job → Job → Bool
submitted_before a b =
    ltb a.submitted_at b.submitted_at || ((a.submitted_at == b.submitted_at) && ltb a.id b.id)

-- before by `(-priority, deadline, id)`
abbrev pub more_urgent : Job → Job → Bool
more_urgent a b =
    ltb b.priority a.priority
    || ((a.priority == b.priority)
        && (ltb a.deadline b.deadline || ((a.deadline == b.deadline) && ltb a.id b.id)))

-- `schedule_fifo`, `schedule_priority_edf` and `schedule_price_aware`
unfoldable pub schedule : Name → Strategy → List Job → List TimeSlot → Result Error SchedulePlan
unfolding schedule_ordered sort_by
schedule input_hash fifo jobs slots =
    schedule_ordered input_hash fifo false jobs (sort_by submitted_before jobs) slots
schedule input_hash priority_edf jobs slots =
    schedule_ordered input_hash priority_edf false jobs (sort_by more_urgent jobs) slots
schedule input_hash price_aware jobs slots =
    schedule_ordered input_hash price_aware true jobs (sort_by more_urgent jobs) slots
