-- ===== src/Mpc.antt =====
-- packages/mpc/controller.py and state_estimator.py: the controller that plans again in every cycle
-- and executes one slot. A set of slots is a sorted list; a dict that the code walks is a list of
-- pairs. Progress and quality are counted in a unit of which `hundredth` make 0.01.
pub mod Horizon
pub mod States
pub mod Slots
pub mod Cycles
mod Tests
use compute_weaver.Base.{
  ℕ, ◌+◌, ◌-◌, ◌*◌, min, max, Bool, true, false, not, ◌&&◌, ◌||◌, Option, none, some, List, [], ◌∷◌,
  ◌++◌, map, ltb, ◌==◌, if◌then◌else◌, Name, length, any, keep, elem, Result, ok, err, Method,
  raise,
}
use compute_weaver.Base.Int.{ℤ, sub_ℕ}
use compute_weaver.Scheduling.{TimeSlot, Job, Allocation, Error}
use compute_weaver.Scheduling.Strategies.{SchedulePlan, Progress, allocation}
use compute_weaver.Optimization.{
  quality_blocked, Diagnostic, low_data_quality, OptimizationResult, allocations, optimize,
}

pub record ObservedState : Type 0 where
  pub completed_jobs : List Name
  pub running_progress : List (Name × ℕ)
  pub available_gpus : ℕ
  pub battery_soc : ℕ
  pub grid_limit_kw : ℕ
  pub data_quality : ℕ
  pub version : Name

pub record StateDiff : Type 0 where
  pub removed_jobs : List Name
  pub progress_errors : List (Name × ℤ)
  pub material : Bool

abbrev pub keys : List (Name × ℕ) → List Name
keys items = map (λ p. p.0) items

-- `running_progress.get(job_id)`
abbrev pub progress_of : List (Name × ℕ) → Name → Option ℕ
progress_of [] job = none
progress_of ((j, n) ∷ items) job = if j == job then some n else progress_of items job

-- `abs(a - b)`
abbrev pub distance : ℕ → ℕ → ℕ
distance a b = (a - b) + (b - a)

abbrev pub is_empty {ℓ} : {A : Type ℓ} → List A → Bool
is_empty [] = true
is_empty (_ ∷ _) = false

module _ (hundredth : ℕ) where
  -- the entries of `errors`
  pub progress_errors : List (Name × ℕ) → List (Name × ℕ) → List (Name × ℤ)
  progress_errors running [] = []
  progress_errors running ((job, planned) ∷ items) =
      let rest = progress_errors running items in
      elim (progress_of running job) [
        | none ↦ rest
        | some n ↦
            if ltb hundredth (distance n planned) then (job, sub_ℕ n planned) ∷ rest else rest
      ]

  pub reconcile : List (Name × ℕ) → ObservedState → StateDiff
  unfolding progress_errors
  reconcile planned observed =
      let removed =
        keep
          (λ j.
            not (elem j (keys observed.running_progress)) && not (elem j observed.completed_jobs))
          (keys planned) in
      let errors = progress_errors observed.running_progress planned in
      record {
        removed_jobs = removed;
        progress_errors = errors;
        material = not (is_empty removed) || not (is_empty errors);
      }

pub data Fallback : Type 0 where
  last_safe_plan stability_hold : Fallback

pub data Reason : Type 0 where
  observed_state_divergence plan_churn_limit optimization_result : Reason
  diagnostic : Diagnostic → Reason

pub record MpcCycle : Type 0 where
  pub id : ℕ
  pub started_at : ℕ
  pub observed_state : ObservedState
  pub state_diff : StateDiff
  pub previous_plan : Option SchedulePlan
  pub new_plan : SchedulePlan
  pub current_allocations : List Allocation
  pub fallback_status : Option Fallback
  pub revision_reasons : List Reason

pub record MpcController : Type 0 where
  pub stability_penalty : ℤ
  pub last_safe : Option SchedulePlan
  pub cycles : List MpcCycle
  pub cycle_sequence : ℕ
  pub executed_slots : List ℕ

pub data MpcError : Type 0 where
  already_executed no_fallback : MpcError
  not_optimized : Error → MpcError

abbrev pub init : ℤ → MpcController
init penalty = record {
  stability_penalty = penalty;
  last_safe = none;
  cycles = [];
  cycle_sequence = 0;
  executed_slots = [];
}

-- the arguments of a cycle
pub record Request : Type 0 where
  pub jobs : List Job
  pub slots : List TimeSlot
  pub observed : ObservedState
  pub started_at : ℕ
  pub planned_progress : List (Name × ℕ)
  pub is_late : ℕ → Bool
  pub input_hash : Name

-- equality of tuples of slot indices
abbrev pub same_indices : List ℕ → List ℕ → Bool
same_indices [] [] = true
same_indices [] (_ ∷ _) = false
same_indices (_ ∷ _) [] = false
same_indices (i ∷ xs) (j ∷ ys) = (i == j) && same_indices xs ys

abbrev pub same_place : Allocation → Allocation → Bool
same_place a b = (a.job_id == b.job_id) && same_indices a.slot_indices b.slot_indices

-- `{(item.job_id, item.slot_indices) for item in allocations}`
abbrev pub place_set : List Allocation → List Allocation
place_set [] = []
place_set (a ∷ xs) = if any (same_place a) xs then place_set xs else a ∷ place_set xs

abbrev pub minus : List Allocation → List Allocation → List Allocation
minus xs ys = keep (λ a. not (any (same_place a) ys)) xs

-- `self._churn(left, right) > Decimal("0.5")`
abbrev pub is_churn : SchedulePlan → SchedulePlan → Bool
is_churn left right =
    let l = place_set left.allocations in
    let r = place_set right.allocations in
    let changed = length (minus l r) + length (minus r l) in
    ltb (max 1 (length l + length (minus r l))) (2 * changed)

abbrev pub is_held : Option SchedulePlan → SchedulePlan → Bool → Bool
is_held none plan material = false
is_held (some previous) plan material = is_churn previous plan && not material

-- what a cycle executes and why
pub record Decision : Type 0 where
  pub plan : SchedulePlan
  pub fallback : Option Fallback
  pub reasons : List Reason
  pub last_safe : Option SchedulePlan

abbrev pub quality_blocked_result : OptimizationResult
quality_blocked_result = record {
  status = quality_blocked;
  plan = none;
  gap = 1;
  diagnostics = low_data_quality ∷ [];
}

-- `plan = previous`, where there is one
abbrev pub or_plan : Option SchedulePlan → SchedulePlan → SchedulePlan
or_plan none plan = plan
or_plan (some previous) plan = previous

abbrev pub fall_back : SchedulePlan → List Reason → List Diagnostic → Decision
fall_back p reasons diagnostics = record {
  plan = p;
  fallback = some last_safe_plan;
  reasons = reasons ++ map diagnostic diagnostics;
  last_safe = some p;
}

abbrev pub hold : Option SchedulePlan → SchedulePlan → List Reason → Decision
hold previous plan reasons = record {
  plan = or_plan previous plan;
  fallback = some stability_hold;
  reasons = reasons ++ plan_churn_limit ∷ [];
  last_safe = previous;
}

abbrev pub accept : SchedulePlan → List Reason → Decision
accept plan reasons = record {
  plan = plan;
  fallback = none;
  reasons = reasons ++ optimization_result ∷ [];
  last_safe = some plan;
}

abbrev pub first_reasons : StateDiff → List Reason
first_reasons diff = if diff.material then observed_state_divergence ∷ [] else []

-- the branches on `result.plan`
abbrev pub decide : Option SchedulePlan → StateDiff → OptimizationResult → Result MpcError Decision
decide previous diff result =
    let reasons = first_reasons diff in
    elim result.plan [
      | none ↦ elim previous [
        | none ↦ err no_fallback
        | some p ↦ ok (fall_back p reasons result.diagnostics)
      ]
      | some plan ↦ ok (
          if is_held previous plan diff.material
          then hold previous plan reasons
          else accept plan reasons)
    ]

-- `min(…, default=None)`
abbrev pub least : List ℕ → Option ℕ
least [] = none
least (i ∷ xs) = elim (least xs) [ none ↦ some i | some j ↦ some (min i j) ]

abbrev pub current_index : List TimeSlot → List ℕ → Option ℕ
current_index slots executed = least (keep (λ i. not (elem i executed)) (map (λ s. s.index) slots))

-- `replace(allocation, slot_indices=(current_index,))`
abbrev pub in_slot : ℕ → Allocation → Allocation
in_slot i a = record a { slot_indices = i ∷ [] }

-- `current`
abbrev pub current : Option ℕ → List Allocation → List Allocation
current none planned = []
current (some i) planned = map (in_slot i) (keep (λ a. elem i a.slot_indices) planned)

-- `set.add`
pub add_slot : ℕ → List ℕ → List ℕ
add_slot i [] = i ∷ []
add_slot i (j ∷ xs) =
    let rest = add_slot i xs in if i == j then j ∷ xs else if ltb i j then i ∷ j ∷ xs else j ∷ rest

abbrev pub execute : Option ℕ → List ℕ → List ℕ
execute none executed = executed
execute (some i) executed = add_slot i executed

module _ (hundredth : ℕ) where
  abbrev pub checked_result : ObservedState → OptimizationResult → OptimizationResult
  checked_result observed result =
      if ltb observed.data_quality (60 * hundredth) then quality_blocked_result else result

  -- the end of a cycle
  pub finish : Request → StateDiff → Decision → MpcController → MpcCycle × MpcController
  unfolding add_slot
  finish q diff d c =
      let index = current_index q.slots c.executed_slots in
      let done : MpcCycle = record {
        id = c.cycle_sequence + 1;
        started_at = q.started_at;
        observed_state = q.observed;
        state_diff = diff;
        previous_plan = c.last_safe;
        new_plan = d.plan;
        current_allocations = current index d.plan.allocations;
        fallback_status = d.fallback;
        revision_reasons = d.reasons;
      } in
      (
        done,
        record c {
          last_safe = d.last_safe;
          cycles = c.cycles ++ done ∷ [];
          cycle_sequence = c.cycle_sequence + 1;
          executed_slots = execute index c.executed_slots;
        },
      )

  pub cycle : Request → Method MpcController MpcError MpcCycle
  unfolding reconcile finish
  cycle q c =
      if any (λ s. elem s.index c.executed_slots) q.slots
      then (err already_executed, c)
      else elim (optimize q.input_hash q.jobs q.slots q.is_late) [
        | err e ↦ (err (not_optimized e), c)
        | ok result ↦
            let diff = reconcile hundredth q.planned_progress q.observed in
            elim (decide c.last_safe diff (checked_result q.observed result)) [
              | err e ↦ (err e, c)
              | ok d ↦ let (done, c') = finish q diff d c in (ok done, c')
            ]
      ]

  -- the controller after a sequence of cycles, each of which may raise
  pub run : List Request → MpcController → MpcController
  unfolding cycle
  run [] c = c
  run (q ∷ qs) c = run qs (cycle q c).1
