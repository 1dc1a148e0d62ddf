-- ===== src/Dependencies/Tests.antt =====
-- Job 1 needs 2 and 3, and 2 needs 3; then 3 needs 1 as well.
use compute_weaver.Base.{◌≡◌, refl, ◌⊎◌, true, List, [], ◌∷◌, arith, Name, All, elem, ok, err}
use compute_weaver.Dependencies.{
  DependencyJob, cycle, unknown_dependency, recursion_error, job_of, keys, visit,
  validate_dependency_graph,
}
use compute_weaver.Dependencies.Order.{Ordered, accepted_has_order}
use compute_weaver.Dependencies.Fuel.{validation_total}

abbrev job : Name → List Name → DependencyJob
job id deps = record { id = id; dependencies = deps }

abbrev jobs : List DependencyJob
jobs = job 1 (2 ∷ 3 ∷ []) ∷ job 2 (3 ∷ []) ∷ job 3 [] ∷ []

abbrev tangled : List DependencyJob
tangled = job 1 (2 ∷ 3 ∷ []) ∷ job 2 (3 ∷ []) ∷ job 3 (1 ∷ []) ∷ []

jobs_accepted : validate_dependency_graph jobs 4 ≡ ok tt
unfolding validate_dependency_graph visit keys job_of
jobs_accepted = refl

tangled_refused : validate_dependency_graph tangled 4 ≡ err cycle
unfolding validate_dependency_graph visit keys job_of
tangled_refused = refl

accepted_has_order_example :
    (order : List Name) × Ordered jobs order × All (λ id. elem id order ≡ true) (keys jobs)
accepted_has_order_example = accepted_has_order jobs 4 jobs_accepted

-- One allowed call less than the longest chain needs.
jobs_too_deep : validate_dependency_graph jobs 2 ≡ err recursion_error
unfolding validate_dependency_graph visit keys job_of
jobs_too_deep = refl

validation_total_example :
    (validate_dependency_graph tangled 4 ≡ ok tt)
    ⊎ (validate_dependency_graph tangled 4 ≡ err cycle)
    ⊎ (validate_dependency_graph tangled 4 ≡ err unknown_dependency)
unfolding keys
validation_total_example = validation_total tangled 4 (omega arith)
