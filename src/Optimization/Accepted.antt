-- ===== src/Optimization/Accepted.antt =====
-- A plan of packages/optimization/engine.py has passed the contract of the schedule.
use compute_weaver.Base.{
  ℕ, ◌≡◌, inl, inr, Bool, Option, none, some, List, [], arith, Name, List-cases, ok, Result-cases,
}
use compute_weaver.Base.Int.{pos}
use compute_weaver.Scheduling.{TimeSlot, Job, validate_plan}
use compute_weaver.Scheduling.Strategies.{SchedulePlan}
use compute_weaver.Optimization.{
  OptimizationResult, JobOptions, all_options, Best, no_search, explore, allocations, plan_energy,
  without_window, conclude, optimize_options, optimize,
}

module _ (input_hash : Name) (jobs : List Job) (slots : List TimeSlot) where
  conclude-accepted :
      (os : List JobOptions) (timed_out : Bool) (best : Option Best) (r : OptimizationResult)
      (plan : SchedulePlan)
      → conclude input_hash jobs slots os timed_out best ≡ ok r
      → r.plan ≡ some plan
      → validate_plan jobs slots plan.allocations ≡ ok tt
  unfolding conclude
  conclude-accepted os timed_out none r plan e f = ground arith
  conclude-accepted os timed_out (some b) r plan e f =
      elim (Result-cases (plan_energy slots (allocations os b.choices) os)) [
        | inr (x, m) ↦ ground arith
        | inl (n, m) ↦ elim (Result-cases (validate_plan jobs slots (allocations os b.choices))) [
          | inr (x, v) ↦ ground arith
          | inl (u, v) ↦ ground arith
        ]
      ]

  pub optimize-accepted :
      (is_late : ℕ → Bool) (r : OptimizationResult) (plan : SchedulePlan)
      → optimize input_hash jobs slots is_late ≡ ok r
      → r.plan ≡ some plan
      → validate_plan jobs slots plan.allocations ≡ ok tt
  unfolding optimize optimize_options
  optimize-accepted is_late r plan e f = elim (Result-cases (all_options slots jobs)) [
    | inr (x, m) ↦ ground arith
    | inl (os, m) ↦ elim (List-cases (without_window os)) [
      | inr (id, ids, w) ↦ ground arith
      | inl w ↦ elim (Result-cases (explore slots is_late os [] (λ i. 0) (pos 0) no_search)) [
        | inr (x, n) ↦ ground arith
        | inl (s, n) ↦ conclude-accepted os s.timed_out s.best r plan (ground arith) f
      ]
    ]
  ]
