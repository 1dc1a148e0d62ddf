-- ===== src/Optimization/Optimality.antt =====
-- What the status of a result of packages/optimization/engine.py promises, if no price is negative.
use mathlib.Core.Path.{subst}
use compute_weaver.Base.{
  ℕ, ◌≡◌, refl, sym, ◌∙◌, ◌≢◌, inl, inr, Bool, true, none, some, List, [], ◌∷◌, arith, Name,
  Bool-cases, Option-cases, List-cases, length, get_elem?, All, ok, Result-cases,
}
use compute_weaver.Base.Int.{ℤ, pos, leb_ℤ, ◌+ℤ◌}
use compute_weaver.Scheduling.{TimeSlot, Job, validate_plan}
use compute_weaver.Scheduling.Strategies.{SchedulePlan}
use compute_weaver.Optimization.{
  infeasible, optimal, OptimizationResult, JobOptions, all_options, Best, Search, no_search,
  occupy_slots, explore, allocations, plan_energy, is_infeasible, without_window, no_window,
  nothing_found, plan_for, found, conclude, optimize_options, optimize,
}
use compute_weaver.Optimization.Placements.{Completes, Explored}
use compute_weaver.Optimization.Steps.{IsPriced, search-Explored}

-- a placement of all jobs, for that cost
abbrev pub Places : List TimeSlot → List JobOptions → List (List ℕ) → ℤ → Type 0
Places slots os placed cost = Completes slots os (λ i. 0) (pos 0) placed cost

-- what the status of a result promises
pub record IsVerdict (slots : List TimeSlot) (os : List JobOptions) (r : OptimizationResult)
    : Type 0 where
  pub plan_places :
      (plan : SchedulePlan)
      → r.plan ≡ some plan
      → (placed : List (List ℕ)) × Places slots os placed plan.estimated_cost
        × (plan.allocations ≡ allocations os placed)
  pub optimal_least :
      r.status ≡ optimal
      → (plan : SchedulePlan) × (r.plan ≡ some plan)
        × ((placed : List (List ℕ)) (cost : ℤ)
            → Places slots os placed cost
            → leb_ℤ plan.estimated_cost cost ≡ true)
  pub infeasible_none :
      r.status ≡ infeasible → (placed : List (List ℕ)) (cost : ℤ) → ¬ Places slots os placed cost

module _ (input_hash : Name) (jobs : List Job) (slots : List TimeSlot)
    (priced : All IsPriced slots) where
  nothing-IsVerdict :
      (os : List JobOptions) (s : Search)
      → Explored slots os [] (λ i. 0) (pos 0) no_search s
      → s.best ≡ none
      → IsVerdict slots os (nothing_found s.timed_out)
  nothing-IsVerdict os s h n = record {
    plan_places = λ plan e. cc;
    optimal_least =
        λ e. elim (Bool-cases s.timed_out) [ inl t ↦ ground arith | inr t ↦ ground arith ];
    infeasible_none = λ e placed cost found. elim (Bool-cases s.timed_out) [
      | inl t ↦ ground arith
      | inr t ↦ let (b, f, l) = h.covered t placed cost found in cc (n, f)
    ];
  }

  found-IsVerdict :
      (os : List JobOptions) (s : Search) (b : Best) (energy : ℕ)
      → Explored slots os [] (λ i. 0) (pos 0) no_search s
      → s.best ≡ some b
      → IsVerdict slots os (found s.timed_out (plan_for input_hash os b energy))
  found-IsVerdict os s b energy h m = record {
    plan_places = λ plan e. elim h.sound [
      | inl none_yet ↦ cc (none_yet, m)
      | inr (placed, cost, at, f) ↦
          let best : record { cost = cost; choices = placed } ≡ b = ground arith in
          let made : plan_for input_hash os b energy ≡ plan = ground arith in
          subst
            (λ q.
              (x : List (List ℕ)) × Places slots os x q.estimated_cost
              × (q.allocations ≡ allocations os x))
            made (b.choices, subst (λ x. Places slots os x.choices x.cost) best at, refl)
    ];
    optimal_least = λ e. elim (Bool-cases s.timed_out) [
      | inl t ↦ ground arith
      | inr t ↦ (
        plan_for input_hash os b energy,
        refl,
        λ placed cost found.
            let (c, f, l) = h.covered t placed cost found in ground (arith, m, f, l),
      )
    ];
    infeasible_none = λ e placed cost found. elim (Bool-cases s.timed_out) [
      | inl t ↦ ground arith
      | inr t ↦ ground arith
    ];
  }

  conclude-IsVerdict :
      (os : List JobOptions) (s : Search) (r : OptimizationResult)
      → Explored slots os [] (λ i. 0) (pos 0) no_search s
      → conclude input_hash jobs slots os s.timed_out s.best ≡ ok r
      → IsVerdict slots os r
  unfolding conclude
  conclude-IsVerdict os s r h e = elim (Option-cases s.best) [
    | inl n ↦
        let same : nothing_found s.timed_out ≡ r = ground arith in
        subst (IsVerdict slots os) same (nothing-IsVerdict os s h n)
    | inr (b, m) ↦ elim (Result-cases (plan_energy slots (allocations os b.choices) os)) [
      | inr (x, p) ↦ ground arith
      | inl (energy, p) ↦
          elim (Result-cases (validate_plan jobs slots (allocations os b.choices))) [
            | inr (x, v) ↦ ground arith
            | inl (u, v) ↦
                let same : found s.timed_out (plan_for input_hash os b energy) ≡ r = ground arith in
                subst (IsVerdict slots os) same (found-IsVerdict os s b energy h m)
          ]
    ]
  ]

  no_element : (cs : List (List ℕ)) (k : ℕ) → length cs ≡ 0 → get_elem? cs k ≡ none
  no_element [] k e = refl
  no_element (d ∷ cs) k e = ground arith

  placed_window :
      (os : List JobOptions) (used : ℕ → ℕ) (running : ℤ) (placed : List (List ℕ)) (cost : ℤ)
      → Completes slots os used running placed cost
      → without_window os ≡ []
  unfolding Completes
  placed_window [] used running placed cost h = refl
  placed_window (o ∷ os) used running placed cost (k, c, rest, z, at, p, room, paid, h) =
      let rest_window =
        placed_window os (occupy_slots o.job.gpu_count c used) (running +ℤ z) rest cost h in
      elim (Bool-cases (is_infeasible o)) [
        | inl empty ↦ cc (no_element o.choices k (ground (arith, empty)), at)
        | inr full ↦ rw full rest_window
      ]

  no_window-IsVerdict :
      (os : List JobOptions) (ids : List Name)
      → without_window os ≡ ids
      → ids ≢ []
      → IsVerdict slots os (no_window ids)
  no_window-IsVerdict os ids e f = record {
    plan_places = λ plan g. cc;
    optimal_least = λ g. cc;
    infeasible_none =
        λ g placed cost found. f (sym e ∙ placed_window os (λ i. 0) (pos 0) placed cost found);
  }

  options-IsVerdict :
      (is_late : ℕ → Bool) (os : List JobOptions) (r : OptimizationResult)
      → optimize_options input_hash jobs slots is_late os ≡ ok r
      → IsVerdict slots os r
  unfolding optimize_options
  options-IsVerdict is_late os r e = elim (List-cases (without_window os)) [
    | inr (id, ids, w) ↦
        let same : no_window (id ∷ ids) ≡ r = ground arith in
        subst (IsVerdict slots os) same (no_window-IsVerdict os (id ∷ ids) w (λ f. cc))
    | inl w ↦ elim (Result-cases (explore slots is_late os [] (λ i. 0) (pos 0) no_search)) [
      | inr (x, m) ↦ ground arith
      | inl (s, m) ↦
          conclude-IsVerdict os s r (search-Explored slots priced is_late os s m) (ground arith)
    ]
  ]

  -- Whatever `optimize` returns for slots without negative prices, and whenever the clock says that the
  -- time is over: a plan of the result places every job in one of its windows, within the capacities,
  -- at the plan's cost; under the status `optimal` there is a plan, and no placement of the jobs costs
  -- less; under `infeasible` there is no placement.
  pub optimize-IsVerdict :
      (is_late : ℕ → Bool) (r : OptimizationResult)
      → optimize input_hash jobs slots is_late ≡ ok r
      → (os : List JobOptions) × (all_options slots jobs ≡ ok os) × IsVerdict slots os r
  unfolding optimize
  optimize-IsVerdict is_late r e = elim (Result-cases (all_options slots jobs)) [
    | inr (x, m) ↦ ground arith
    | inl (os, m) ↦ (os, m, options-IsVerdict is_late os r (ground arith))
  ]
