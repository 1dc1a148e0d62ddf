-- ===== src/Dependencies.antt =====
-- packages/workloads/state_machine.py: `validate_dependency_graph`, a depth-first search over the
-- jobs by id. `stack` is how many nested calls of `visit` the interpreter still allows: one more raises
-- `RecursionError`, as Python's does at its recursion limit (1000 frames unless it is set).
pub mod Order
pub mod Fuel
mod Tests
use compute_weaver.Base.{
  ℕ, zero, suc, not, Option, none, some, List, [], ◌∷◌, ◌==◌, if◌then◌else◌, Name, keep, elem,
  Result, ok, err,
}

pub record DependencyJob : Type 0 where
  pub id : Name
  pub dependencies : List Name

pub data Error : Type 0 where
  cycle unknown_dependency recursion_error : Error

-- the sets `visiting` and `visited`
pub record Search : Type 0 where
  pub visiting : List Name
  pub visited : List Name

-- `by_id.get(id)`: the last job of that id
pub job_of : List DependencyJob → Name → Option DependencyJob
job_of [] id = none
job_of (j ∷ js) id = elim (job_of js id) [
  | some later ↦ some later
  | none ↦ if j.id == id then some j else none
]

-- the keys of `by_id`, in the order of their first insertion
pub keys : List DependencyJob → List Name
keys [] = []
keys (j ∷ js) = j.id ∷ keep (λ k. not (k == j.id)) (keys js)

-- the `for` loop over ids, with what it calls on each
pub visit_each : (Name → Search → Result Error Search) → List Name → Search → Result Error Search
visit_each visit_one [] s = ok s
visit_each visit_one (id ∷ ids) s = elim (visit_one id s) [
  | ok s' ↦ visit_each visit_one ids s'
  | err e ↦ err e
]

-- `visiting.remove(id)` and `visited.add(id)`
abbrev pub leave : Name → Search → Search
leave id s = record { visiting = keep (λ k. not (k == id)) s.visiting; visited = id ∷ s.visited }

abbrev pub finish : Name → Result Error Search → Result Error Search
finish id (ok s) = ok (leave id s)
finish id (err e) = err e

module _ (jobs : List DependencyJob) where
  pub visit : ℕ → Name → Search → Result Error Search
  unfolding visit_each
  visit zero id s = err recursion_error
  visit (suc stack) id s =
      if elem id s.visiting
      then err cycle
      else if elem id s.visited
      then ok s
      else elim (job_of jobs id) [
        | none ↦ err unknown_dependency
        | some job ↦
            finish id
              (visit_each (visit stack) job.dependencies (record s { visiting = id ∷ s.visiting }))
      ]

  pub walk : ℕ → Result Error Search
  walk stack = visit_each (visit stack) (keys jobs) (record { visiting = []; visited = [] })

  pub validate_dependency_graph : ℕ → Result Error (Unit {0})
  unfolding walk
  validate_dependency_graph stack = elim (walk stack) [ ok s ↦ ok tt | err e ↦ err e ]
