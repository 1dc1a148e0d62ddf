-- ===== src/Optimization.antt =====
-- packages/optimization/engine.py: `optimize`, the exact search for the cheapest plan. Each reading of
-- `time.perf_counter()` asks whether the time is over: `is_late n` is the answer to reading `n`.
-- `current` and `capacity` are put back after a call of `search`, so they are its arguments here.
pub mod Placements
pub mod Steps
pub mod Accepted
pub mod Windows
pub mod Returns
pub mod Optimality
-- pub mod Soundness
mod Tests
use compute_weaver.Base.{
  ℕ, zero, suc, ◌+◌, ◌*◌, Bool, true, false, not, ◌&&◌, ◌||◌, Option, none, some, List, [], ◌∷◌,
  ◌++◌, map, ltb, leb, ◌==◌, if◌then◌else◌, Name, length, get_elem?, all, keep, Result, ok, err,
}
use compute_weaver.Base.Int.{ℤ, pos, leb_ℤ, ◌+ℤ◌, scale}
use compute_weaver.Scheduling.{
  TimeSlot, Job, Allocation, Error, unknown_slot, division_by_zero, add_use, validate_plan,
}
use compute_weaver.Scheduling.Strategies.{
  SchedulePlan, capacity_of, required_slots, first_duration, exact_co_optimizer,
}

pub data Status : Type 0 where
  infeasible timeout feasible_timeout optimal quality_blocked : Status

pub data Diagnostic : Type 0 where
  no_feasible_window : Name → Diagnostic
  search_timeout gpu_capacity_conflict low_data_quality : Diagnostic

-- The solver's name, the runtime and the assumptions are left out; the breakdown is the plan's cost.
pub record OptimizationResult : Type 0 where
  pub status : Status
  pub plan : Option SchedulePlan
  pub gap : ℕ
  pub diagnostics : List Diagnostic

-- `itertools.combinations(xs, n)`
pub combinations : ℕ → List ℕ → List (List ℕ)
combinations zero xs = [] ∷ []
combinations (suc n) [] = []
combinations (suc n) (x ∷ xs) = map (λ c. x ∷ c) (combinations n xs) ++ combinations (suc n) xs

-- `all(b == a + 1 for a, b in zip(choice, choice[1:]))`
abbrev pub adjacent : List ℕ → Bool
adjacent [] = true
adjacent (a ∷ []) = true
adjacent (a ∷ b ∷ choice) = (b == a + 1) && adjacent (b ∷ choice)

abbrev pub is_eligible : Job → TimeSlot → Bool
is_eligible job slot =
    ltb slot.starts_at job.deadline
    && leb job.gpu_count slot.gpu_capacity
    && leb (job.gpu_count * job.power_kw_per_gpu) slot.power_capacity_kw

abbrev pub eligible : List TimeSlot → Job → List ℕ
eligible slots job = map (λ s. s.index) (keep (is_eligible job) slots)

-- `_job_options`
pub job_options : List TimeSlot → Job → Result Error (List (List ℕ))
unfolding combinations
job_options slots job = elim (first_duration slots) [
  | none ↦ ok []
  | some duration ↦
      if duration == 0
      then err division_by_zero
      else ok (
          keep (λ c. job.checkpointable || adjacent c)
            (combinations (required_slots job.estimated_hours duration) (eligible slots job)))
]

-- a job beside its entry of `options`
pub record JobOptions : Type 0 where
  pub job : Job
  pub choices : List (List ℕ)

abbrev pub with_options : Job → List (List ℕ) → JobOptions
with_options job choices = record { job = job; choices = choices }

pub all_options : List TimeSlot → List Job → Result Error (List JobOptions)
unfolding job_options
all_options slots [] = ok []
all_options slots (job ∷ jobs) = elim (job_options slots job) [
  | err e ↦ err e
  | ok choices ↦ elim (all_options slots jobs) [
    | err e ↦ err e
    | ok rest ↦ ok (with_options job choices ∷ rest)
  ]
]

-- `best_cost` and `best_choices`
pub record Best : Type 0 where
  pub cost : ℤ
  pub choices : List (List ℕ)

-- the variables that `search` writes, and the number of readings of the clock
pub record Search : Type 0 where
  pub best : Option Best
  pub timed_out : Bool
  pub readings : ℕ

abbrev pub no_search : Search
no_search = record { best = none; timed_out = false; readings = 0 }

abbrev pub read_clock : Bool → Search → Search
read_clock over s = record s { timed_out = over || s.timed_out; readings = s.readings + 1 }

-- `best_cost is not None and running_cost >= best_cost`
abbrev pub is_pruned : Option Best → ℤ → Bool
is_pruned none running = false
is_pruned (some b) running = leb_ℤ b.cost running

abbrev pub improve : ℤ → List (List ℕ) → Search → Search
improve running current s = record s { best = some (record { cost = running; choices = current }) }

-- `capacity[slot]` is the capacity of the slot less `used slot`
abbrev pub occupy_slots : ℕ → List ℕ → (ℕ → ℕ) → ℕ → ℕ
occupy_slots gpus [] used = used
occupy_slots gpus (i ∷ choice) used = occupy_slots gpus choice (add_use i gpus used)

module _ (slots : List TimeSlot) where
  -- `all(capacity[slot] >= job.request.gpu_count for slot in choice)`
  abbrev pub has_room : (ℕ → ℕ) → ℕ → List ℕ → Bool
  has_room used gpus choice = all (λ i. leb (used i + gpus) (capacity_of slots i)) choice

  -- the energy that a job takes in a slot
  abbrev pub slot_energy : Job → TimeSlot → ℕ
  slot_energy job s = s.duration_hours * job.gpu_count * job.power_kw_per_gpu

  -- the cost of a choice; an index that is no position raises
  pub choice_cost : Job → List ℕ → Result Error ℤ
  choice_cost job [] = ok (pos 0)
  choice_cost job (i ∷ choice) = elim (get_elem? slots i) [
    | none ↦ err unknown_slot
    | some s ↦ elim (choice_cost job choice) [
      | err e ↦ err e
      | ok cost ↦ ok (scale (slot_energy job s) s.price_per_kwh +ℤ cost)
    ]
  ]

  -- `search(index + 1, …)`, for what is placed so far
  abbrev pub Step : Type 0
  Step = List (List ℕ) → (ℕ → ℕ) → ℤ → Search → Result Error Search

  -- the body of the loop over the choices of a job
  pub attempt : Step → Job → List ℕ → Step
  unfolding choice_cost
  attempt next job choice current used running s = elim (has_room used job.gpu_count choice) [
    | false ↦ ok s
    | true ↦ elim (choice_cost job choice) [
      | err e ↦ err e
      | ok cost ↦
          next (current ++ choice ∷ []) (occupy_slots job.gpu_count choice used) (running +ℤ cost) s
    ]
  ]

  pub attempt_each : Step → Job → List (List ℕ) → Step
  unfolding attempt
  attempt_each next job [] current used running s = ok s
  attempt_each next job (choice ∷ choices) current used running s =
      elim (attempt next job choice current used running s) [
        | err e ↦ err e
        | ok s' ↦ attempt_each next job choices current used running s'
      ]

  module _ (is_late : ℕ → Bool) where
    -- the two early returns of `search`
    pub enter : Step → Step
    enter body current used running s =
        let s' = read_clock (is_late s.readings) s in
        elim (is_late s.readings || is_pruned s.best running) [
          | true ↦ ok s'
          | false ↦ body current used running s'
        ]

    -- `search`, from the jobs that are not placed yet
    pub explore : List JobOptions → Step
    unfolding enter attempt_each
    explore [] = enter (λ current used running s. ok (improve running current s))
    explore (o ∷ os) = enter (attempt_each (explore os) o.job o.choices)

-- the texts "MIN_TOTAL_COST", "perfect slot forecast" and "single-site bounded MVP"
abbrev pub min_total_cost : Name
min_total_cost = 4

abbrev pub perfect_forecast : Name
perfect_forecast = 6

abbrev pub single_site : Name
single_site = 7

-- the allocations of the best choices
pub allocations : List JobOptions → List (List ℕ) → List Allocation
allocations [] choices = []
allocations (o ∷ os) [] = []
allocations (o ∷ os) (c ∷ choices) =
    record {
      job_id = o.job.id;
      slot_indices = c;
      gpu_count = o.job.gpu_count;
      reason_code = min_total_cost;
    }
    ∷ allocations os choices

-- the energy of a choice, and of the whole plan
pub choice_energy : List TimeSlot → Job → List ℕ → Result Error ℕ
choice_energy slots job [] = ok 0
choice_energy slots job (i ∷ choice) = elim (get_elem? slots i) [
  | none ↦ err unknown_slot
  | some s ↦ elim (choice_energy slots job choice) [
    | err e ↦ err e
    | ok energy ↦ ok (slot_energy slots job s + energy)
  ]
]

pub plan_energy : List TimeSlot → List Allocation → List JobOptions → Result Error ℕ
unfolding choice_energy
plan_energy slots [] os = ok 0
plan_energy slots (a ∷ more) [] = ok 0
plan_energy slots (a ∷ more) (o ∷ os) = elim (choice_energy slots o.job a.slot_indices) [
  | err e ↦ err e
  | ok energy ↦ elim (plan_energy slots more os) [ err e ↦ err e | ok rest ↦ ok (energy + rest) ]
]

abbrev pub is_infeasible : JobOptions → Bool
is_infeasible o = length o.choices == 0

-- `empty`
abbrev pub without_window : List JobOptions → List Name
without_window os = map (λ o. o.job.id) (keep is_infeasible os)

abbrev pub no_window : List Name → OptimizationResult
no_window ids = record {
  status = infeasible;
  plan = none;
  gap = 0;
  diagnostics = map no_feasible_window ids;
}

abbrev pub nothing_found : Bool → OptimizationResult
nothing_found timed_out = record {
  status = if timed_out then timeout else infeasible;
  plan = none;
  gap = if timed_out then 1 else 0;
  diagnostics = (if timed_out then search_timeout else gpu_capacity_conflict) ∷ [];
}

abbrev pub plan_for : Name → List JobOptions → Best → ℕ → SchedulePlan
plan_for input_hash os b energy = record {
  strategy = exact_co_optimizer;
  allocations = allocations os b.choices;
  unscheduled = [];
  energy_intent_kwh = energy;
  estimated_cost = b.cost;
  assumptions = perfect_forecast ∷ single_site ∷ [];
  violations = [];
  input_hash = input_hash;
}

abbrev pub found : Bool → SchedulePlan → OptimizationResult
found timed_out plan = record {
  status = if timed_out then feasible_timeout else optimal;
  plan = some plan;
  gap = if timed_out then 1 else 0;
  diagnostics = [];
}

module _ (input_hash : Name) (jobs : List Job) (slots : List TimeSlot) where
  -- past the search
  pub conclude : List JobOptions → Bool → Option Best → Result Error OptimizationResult
  unfolding plan_energy allocations
  conclude os timed_out none = ok (nothing_found timed_out)
  conclude os timed_out (some b) = elim (plan_energy slots (allocations os b.choices) os) [
    | err e ↦ err e
    | ok energy ↦ elim (validate_plan jobs slots (allocations os b.choices)) [
      | err e ↦ err e
      | ok _ ↦ ok (found timed_out (plan_for input_hash os b energy))
    ]
  ]

  -- what `optimize` does with the options of the jobs
  pub optimize_options : (ℕ → Bool) → List JobOptions → Result Error OptimizationResult
  unfolding explore conclude
  optimize_options is_late os = elim (without_window os) [
    | id ∷ ids ↦ ok (no_window (id ∷ ids))
    | [] ↦ elim (explore slots is_late os [] (λ i. 0) (pos 0) no_search) [
      | err e ↦ err e
      | ok s ↦ conclude os s.timed_out s.best
    ]
  ]

  unfoldable pub optimize : (ℕ → Bool) → Result Error OptimizationResult
  unfolding all_options optimize_options
  optimize is_late = elim (all_options slots jobs) [
    | err e ↦ err e
    | ok os ↦ optimize_options is_late os
  ]
