-- ===== src/Mpc/Tests.antt =====
-- Runs of packages/mpc on small inputs.
use compute_weaver.Base.{
  ℕ, zero, suc, ◌+◌, ◌*◌, ◌≡◌, refl, ap, Bool, true, false, Option, none, some, List, [], ◌∷◌, map,
  arith, if◌then◌else◌, err,
}
use compute_weaver.Base.Int.{ℤ, pos, negsuc, ◌+ℤ◌, scale}
use compute_weaver.Scheduling.{
  TimeSlot, Job, unknown_slot, job_of, place, place_each, validate_plan,
}
use compute_weaver.Scheduling.Strategies.{capacity_of}
use compute_weaver.Optimization.{optimize}
use compute_weaver.Mpc.{
  ObservedState, last_safe_plan, MpcController, not_optimized, init, Request, cycle, run,
}
use compute_weaver.Mpc.Slots.{Rising}
use compute_weaver.Mpc.Cycles.{IsController, run-IsController}
use compute_weaver.Mpc.States.{Decimals, export_state, from_state, from_state-export_state}

abbrev hour : ℕ → ℕ → TimeSlot
hour index price = record {
  index = index;
  starts_at = 100 + 60 * index;
  duration_hours = 1;
  gpu_capacity = 4;
  power_capacity_kw = 100;
  price_per_kwh = pos price;
}

abbrev job : Job
job = record {
  id = 11;
  submitted_at = 0;
  priority = 50;
  deadline = 400;
  gpu_count = 2;
  estimated_hours = 1;
  power_kw_per_gpu = 3;
  checkpointable = true;
}

abbrev observed : ℕ → ObservedState
observed quality = record {
  completed_jobs = [];
  running_progress = [];
  available_gpus = 4;
  battery_soc = 50;
  grid_limit_kw = 100;
  data_quality = quality;
  version = 1;
}

abbrev request : List TimeSlot → ℕ → Request
request slots quality = record {
  jobs = job ∷ [];
  slots = slots;
  observed = observed quality;
  started_at = 7;
  planned_progress = [];
  is_late = λ n. false;
  input_hash = 77;
}

-- Three cycles: a plan, a plan again for a slot that is executed (refused), and bad data in the
-- next slot, where the last safe plan stands in.
abbrev requests : List Request
requests =
    request (hour 0 5 ∷ hour 1 2 ∷ []) 90
    ∷ request (hour 0 5 ∷ []) 90
    ∷ request (record (hour 1 2) { gpu_capacity = 1 } ∷ []) 10
    ∷ []

cycle_runs :
    ((run 1 requests (init (pos 1))).executed_slots ≡ 0 ∷ 1 ∷ [])
    × (map (λ d. d.current_allocations) (run 1 requests (init (pos 1))).cycles
        ≡ []
          ∷ (record { job_id = 11; slot_indices = 1 ∷ []; gpu_count = 2; reason_code = 4 } ∷ [])
          ∷ [])
    × (map (λ d. d.fallback_status) (run 1 requests (init (pos 1))).cycles
        ≡ none ∷ some last_safe_plan ∷ [])
unfolding run optimize ◌+ℤ◌ scale validate_plan place_each place job_of capacity_of
cycle_runs = (refl, refl, refl)

-- A horizon that starts after slot 0, as it must once that is executed, makes the optimizer look for
-- position 1 of a list of one slot.
index_run :
    (cycle 1
      (request (hour 1 2 ∷ []) 90)
      (run 1 (request (hour 0 5 ∷ hour 1 2 ∷ []) 90 ∷ []) (init (pos 1)))).0
    ≡ err (not_optimized unknown_slot)
unfolding run optimize ◌+ℤ◌ scale validate_plan place_each place job_of capacity_of
index_run = refl

run-IsController_example : IsController requests (run 1 requests (init (pos 1)))
run-IsController_example = run-IsController 1 requests (pos 1)

-- texts of decimals: even numbers for those that are not negative
half : ℕ → Bool × ℕ
half zero = (true, zero)
half (suc n) = let (even, m) = half n in if even then (false, m) else (true, suc m)

read : ℕ → ℤ
unfolding half
read t = let (even, m) = half t in if even then pos m else negsuc m

abbrev write : ℤ → ℕ
write (pos n) = n + n
write (negsuc n) = suc (n + n)

half-double : (n : ℕ) → (half (n + n) ≡ (true, n)) × (half (suc (n + n)) ≡ (false, n))
unfolding half
half-double zero = (refl, refl)
half-double (suc n) =
    let (e, f) = half-double n in
    let p : suc n + suc n ≡ suc (suc (n + n)) = omega arith in
    (rw (p, e, half) refl, rw (p, e, half) refl)

read-write : (z : ℤ) → read (write z) ≡ z
unfolding read
read-write (pos n) = let e = (half-double n).0 in rw (e, read) refl
read-write (negsuc n) = let e = (half-double n).1 in rw (e, read) refl

abbrev decimals : Decimals
decimals = record {
  text = write;
  decimal = λ t. some (read t);
  decimal-text = λ z. ap {B = Option ℤ} (λ x. some x) (read-write z);
}

abbrev controller : MpcController
controller = record (init (pos 1)) { executed_slots = 0 ∷ 1 ∷ []; cycle_sequence = 2 }

from_state-export_state_example :
    from_state decimals (export_state decimals controller) ≡ some controller
unfolding Rising
from_state-export_state_example =
    from_state-export_state decimals controller ((omega arith, tt), (tt, tt))
