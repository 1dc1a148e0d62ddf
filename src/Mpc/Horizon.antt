-- ===== src/Mpc/Horizon.antt =====
-- packages/mpc/horizon.py, fallback.py, stability.py and warm_start.py.
use mathlib.Core.Path.{subst}
use compute_weaver.Base.{
  ℕ, zero, suc, ◌+◌, ◌≡◌, refl, sym, ap, ◌∙◌, Bool, true, false, ◌&&◌, ◌||◌, Option, none, List, [],
  ◌∷◌, ◌++◌, map, arith, ltb, ◌==◌, if◌then◌else◌, is_some, any, all, keep, elem, Result, ok, err,
}
use compute_weaver.Base.Int.{ℤ, pos, pos_part, ltb_ℤ, is_negative}
use compute_weaver.Base.Sorting.{take, sort_by}
use compute_weaver.Scheduling.{TimeSlot, Job, Allocation}
use compute_weaver.Scheduling.Strategies.{SchedulePlan}
use compute_weaver.Mpc.{is_empty}

pub record HorizonPartition : Type 0 where
  pub locked : List TimeSlot
  pub controllable : List TimeSlot
  pub forecast_only : List TimeSlot

pub data HorizonError : Type 0 where
  invalid_sizes duplicate_slots no_controllable : HorizonError

-- `xs[n:]`
abbrev pub drop : ℕ → List TimeSlot → List TimeSlot
drop zero xs = xs
drop (suc n) [] = []
drop (suc n) (x ∷ xs) = drop n xs

-- before by `(starts_at, index)`
abbrev pub comes_first : TimeSlot → TimeSlot → Bool
comes_first a b =
    ltb a.starts_at b.starts_at || ((a.starts_at == b.starts_at) && ltb a.index b.index)

-- an index stands twice
abbrev pub repeats : List ℕ → Bool
repeats [] = false
repeats (i ∷ xs) = elem i xs || repeats xs

-- The counts are integers in the code: a negative one raises.
pub partition_horizon : List TimeSlot → ℤ → ℤ → Result HorizonError HorizonPartition
unfolding sort_by
partition_horizon slots locked_count controllable_count =
    let ordered = sort_by comes_first slots in
    let n = pos_part locked_count in
    let m = pos_part controllable_count in
    if is_negative locked_count || ltb_ℤ controllable_count (pos 1)
    then err invalid_sizes
    else if repeats (map (λ s. s.index) ordered)
    then err duplicate_slots
    else if is_empty (take m (drop n ordered))
    then err no_controllable
    else ok (record {
      locked = take n ordered;
      controllable = take m (drop n ordered);
      forecast_only = drop (n + m) ordered;
    })

take-drop : (n : ℕ) (xs : List TimeSlot) → take n xs ++ drop n xs ≡ xs
take-drop zero xs = refl
take-drop (suc n) [] = refl
take-drop (suc n) (x ∷ xs) = ap {B = List TimeSlot} (λ r. x ∷ r) (take-drop n xs)

drop-nil : (n : ℕ) → drop n [] ≡ []
drop-nil zero = refl
drop-nil (suc n) = refl

drop-drop : (n m : ℕ) (xs : List TimeSlot) → drop m (drop n xs) ≡ drop (n + m) xs
drop-drop zero m xs = let p : 0 + m ≡ m = omega arith in rw p refl
drop-drop (suc n) m [] = drop-nil m ∙ sym (drop-nil (suc n + m))
drop-drop (suc n) m (x ∷ xs) =
    let p : suc n + m ≡ suc (n + m) = omega arith in rw p (drop-drop n m xs)

abbrev parts : ℕ → ℕ → List TimeSlot → HorizonPartition
parts n m ordered = record {
  locked = take n ordered;
  controllable = take m (drop n ordered);
  forecast_only = drop (n + m) ordered;
}

parts-append :
    (n m : ℕ) (ordered : List TimeSlot)
    → (parts n m ordered).locked
        ++ ((parts n m ordered).controllable ++ (parts n m ordered).forecast_only)
      ≡ ordered
parts-append n m ordered =
    rw (sym (drop-drop n m ordered), take-drop m (drop n ordered)) (take-drop n ordered)

-- The three parts together are the slots by their start, and at least one slot is controllable.
pub partition_horizon-parts :
    (slots : List TimeSlot) (locked_count controllable_count : ℤ) (p : HorizonPartition)
    → partition_horizon slots locked_count controllable_count ≡ ok p
    → (p.locked ++ (p.controllable ++ p.forecast_only) ≡ sort_by comes_first slots)
      × (is_empty p.controllable ≡ false)
unfolding partition_horizon
partition_horizon-parts slots locked_count controllable_count p e =
    let n = pos_part locked_count in
    let m = pos_part controllable_count in
    let ordered = sort_by comes_first slots in
    let made : parts n m ordered ≡ p = ground arith in
    let some_left : is_empty (take m (drop n ordered)) ≡ false = ground arith in
    subst
      (λ q.
        (q.locked ++ (q.controllable ++ q.forecast_only) ≡ ordered)
        × (is_empty q.controllable ≡ false))
      made (parts-append n m ordered, some_left)

pub data Mode : Type 0 where
  last_safe emergency_shed hold_back : Mode

pub record FallbackDecision : Type 0 where
  pub mode : Mode
  pub plan : Option SchedulePlan
  pub automation_allowed : Bool

pub select_fallback : Option SchedulePlan → Bool → Bool → FallbackDecision
select_fallback safe_plan data_quality_ok emergency_shedding_allowed =
    if is_some safe_plan && data_quality_ok
    then record { mode = last_safe; plan = safe_plan; automation_allowed = true }
    else if emergency_shedding_allowed
    then record { mode = emergency_shed; plan = none; automation_allowed = false }
    else record { mode = hold_back; plan = none; automation_allowed = false }

-- `reusable_allocations`
pub reusable_allocations : SchedulePlan → List Job → List TimeSlot → List Allocation
reusable_allocations previous jobs slots =
    keep
      (λ a.
        any (λ j. j.id == a.job_id) jobs && all (λ i. any (λ s. s.index == i) slots) a.slot_indices)
      previous.allocations
