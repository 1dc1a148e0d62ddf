-- ===== src/Mpc/States.antt =====
-- packages/mpc/controller.py: the state of a controller as a document, `export_state` and
-- `from_state`. The formats of `Decimal` are given.
use compute_weaver.Base.{
  ℕ, ◌<◌, ◌≡◌, refl, Option, none, some, List, [], ◌∷◌, arith, ltb, Name, All,
}
use compute_weaver.Base.Int.{ℤ, pos, pos_part}
use compute_weaver.Base.Sorting.{insert_by, sort_by}
use compute_weaver.Scheduling.{Allocation}
use compute_weaver.Scheduling.Strategies.{Planner, SchedulePlan}
use compute_weaver.Mpc.{MpcController, init, add_slot}
use compute_weaver.Mpc.Slots.{Rising}

-- `str` of a Decimal and the constructor, which reads back what `str` writes
pub record Decimals : Type 0 where
  pub text : ℤ → Name
  pub decimal : Name → Option ℤ
  pub decimal-text : (z : ℤ) → decimal (text z) ≡ some z

-- `asdict` of a plan: its fields, from which `from_state` builds it again; the tuples are lists, and an
-- allocation's fields are its own
pub record PlanDocument : Type 0 where
  pub strategy : Planner
  pub allocations : List Allocation
  pub unscheduled : List Name
  pub energy_intent_kwh : ℕ
  pub estimated_cost : ℤ
  pub assumptions : List Name
  pub violations : List Name
  pub input_hash : Name

pub record Document : Type 0 where
  pub stability_penalty : Name
  pub last_safe : Option PlanDocument
  pub executed_slots : List ℕ
  pub cycle_sequence : ℕ

abbrev pub document_of : SchedulePlan → PlanDocument
document_of p = record {
  strategy = p.strategy;
  allocations = p.allocations;
  unscheduled = p.unscheduled;
  energy_intent_kwh = p.energy_intent_kwh;
  estimated_cost = p.estimated_cost;
  assumptions = p.assumptions;
  violations = p.violations;
  input_hash = p.input_hash;
}

-- `set(…)` of a list of slots
pub set_of : List ℕ → List ℕ
unfolding add_slot
set_of [] = []
set_of (i ∷ xs) = add_slot i (set_of xs)

module _ (d : Decimals) where
  abbrev pub export_plan : Option SchedulePlan → Option PlanDocument
  export_plan none = none
  export_plan (some p) = some (document_of p)

  pub export_state : MpcController → Document
  unfolding sort_by
  export_state c = record {
    stability_penalty = d.text c.stability_penalty;
    last_safe = export_plan c.last_safe;
    executed_slots = sort_by ltb c.executed_slots;
    cycle_sequence = c.cycle_sequence;
  }

  -- `Decimal(str(x))` of a number; none where it raises
  abbrev pub restored : ℤ → Option ℤ
  restored z = d.decimal (d.text z)

  abbrev pub restore_plan : PlanDocument → Option SchedulePlan
  restore_plan p = elim (restored (pos p.energy_intent_kwh)) [
    | none ↦ none
    | some energy ↦ elim (restored p.estimated_cost) [
      | none ↦ none
      | some cost ↦ some (record {
        strategy = p.strategy;
        allocations = p.allocations;
        unscheduled = p.unscheduled;
        energy_intent_kwh = pos_part energy;
        estimated_cost = cost;
        assumptions = p.assumptions;
        violations = p.violations;
        input_hash = p.input_hash;
      })
    ]
  ]

  -- `isinstance(raw_plan, dict)`
  abbrev pub restore_last_safe : Option PlanDocument → Option (Option SchedulePlan)
  restore_last_safe none = some none
  restore_last_safe (some p) = elim (restore_plan p) [ none ↦ none | some plan ↦ some (some plan) ]

  pub from_state : Document → Option MpcController
  unfolding set_of
  from_state document = elim (d.decimal document.stability_penalty) [
    | none ↦ none
    | some penalty ↦ elim (restore_last_safe document.last_safe) [
      | none ↦ none
      | some plan ↦ some (record (init penalty) {
        last_safe = plan;
        executed_slots = set_of document.executed_slots;
        cycle_sequence = document.cycle_sequence;
      })
    ]
  ]

  insert_by_first : (i : ℕ) (xs : List ℕ) → All (λ j. i < j) xs → insert_by ltb i xs ≡ i ∷ xs
  unfolding insert_by
  insert_by_first i [] h = refl
  insert_by_first i (j ∷ xs) h = ground (arith, h.0)

  add_first : (i : ℕ) (xs : List ℕ) → All (λ j. i < j) xs → add_slot i xs ≡ i ∷ xs
  unfolding add_slot
  add_first i [] h = refl
  add_first i (j ∷ xs) h = ground (arith, h.0)

  sort_by-Rising : (xs : List ℕ) → Rising xs → sort_by ltb xs ≡ xs
  unfolding Rising sort_by
  sort_by-Rising [] h = refl
  sort_by-Rising (i ∷ xs) h = rw (sort_by-Rising xs h.1) (insert_by_first i xs h.0)

  set_of-Rising : (xs : List ℕ) → Rising xs → set_of xs ≡ xs
  unfolding Rising set_of add_slot
  set_of-Rising [] h = refl
  set_of-Rising (i ∷ xs) h = rw (set_of-Rising xs h.1) (add_first i xs h.0)

  restore_last_safe-export_plan :
      (p : Option SchedulePlan) → restore_last_safe (export_plan p) ≡ some p
  restore_last_safe-export_plan none = refl
  restore_last_safe-export_plan (some p) =
      ground (arith, d.decimal-text (pos p.energy_intent_kwh), d.decimal-text p.estimated_cost)

  -- A controller whose executed slots rise, as those of every run do, is read back from its exported
  -- state, but for the list of its cycles, which is not exported.
  pub from_state-export_state :
      (c : MpcController)
      → Rising c.executed_slots
      → from_state (export_state c) ≡ some (record c { cycles = [] })
  unfolding from_state export_state
  from_state-export_state c h =
      rw
        (
          d.decimal-text c.stability_penalty,
          restore_last_safe-export_plan c.last_safe,
          sort_by-Rising c.executed_slots h,
          set_of-Rising c.executed_slots h,
          from_state,
          export_state,
        )
        refl
