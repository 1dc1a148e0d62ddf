-- ===== src/Dependencies/Order.antt =====
-- A graph that is accepted has a topological order, so it has no cycle.
use compute_weaver.Base.{
  ℕ, zero, suc, ◌≡◌, inl, inr, true, none, some, List, [], ◌∷◌, arith, Name, Bool-cases,
  Option-cases, All, elem, Result, ok, Result-cases,
}
use mathlib.Core.Path.{subst}
use compute_weaver.Dependencies.{
  DependencyJob, Error, Search, job_of, visit_each, visit, leave, validate_dependency_graph, keys,
  walk,
}

-- The id is of a job, and all its dependencies are among those given.
abbrev pub Resolves : List DependencyJob → List Name → Name → Type 0
Resolves jobs earlier id = elim (job_of jobs id) [
  | none ↦ ⊥
  | some job ↦ All (λ d. elem d earlier ≡ true) job.dependencies
]

-- Every id is of a job whose dependencies all stand behind it in the list.
abbrev pub Ordered : List DependencyJob → List Name → Type 0
Ordered jobs [] = Unit
Ordered jobs (id ∷ earlier) = Resolves jobs earlier id × Ordered jobs earlier

abbrev Extends : Search → Search → Type 0
Extends s s' = (x : Name) → elem x s.visited ≡ true → elem x s'.visited ≡ true

module _ (jobs : List DependencyJob) where
  abbrev IsSound : (Name → Search → Result Error Search) → Type 0
  IsSound f =
      (id : Name) (s s' : Search)
      → f id s ≡ ok s'
      → Ordered jobs s.visited
      → Ordered jobs s'.visited × Extends s s' × (elem id s'.visited ≡ true)

  All-elem :
      (ids : List Name) (s s' : Search)
      → Extends s s'
      → All (λ d. elem d s.visited ≡ true) ids
      → All (λ d. elem d s'.visited ≡ true) ids
  All-elem [] s s' ext h = tt
  All-elem (d ∷ ids) s s' ext h = (ext d h.0, All-elem ids s s' ext h.1)

  visit_each_sound :
      (f : Name → Search → Result Error Search) (sound : IsSound f) (ids : List Name)
      (s s' : Search)
      → visit_each f ids s ≡ ok s'
      → Ordered jobs s.visited
      → Ordered jobs s'.visited × Extends s s' × All (λ d. elem d s'.visited ≡ true) ids
  unfolding visit_each
  visit_each_sound f sound [] s s' e o =
      let p : s ≡ s' = ground arith in
      subst (λ t. Ordered jobs t.visited × Extends s t × Unit {0}) p (o, λ x h. h, tt)
  visit_each_sound f sound (id ∷ ids) s s' e o = elim (Result-cases (f id s)) [
    | inl (s₁, q) ↦
        let first = sound id s s₁ q o in
        let rest = visit_each_sound f sound ids s₁ s' (ground arith) first.0 in
        (rest.0, λ x h. rest.1 x (first.1 x h), (rest.1 id first.2, rest.2))
    | inr (e', q) ↦ absurd (ground arith)
  ]

  -- what a call that goes into the job has done, from what its loop over the dependencies has
  leave_sound :
      (fuel : ℕ) (id : Name) (job : DependencyJob) (s s₂ : Search)
      → IsSound (visit jobs fuel)
      → job_of jobs id ≡ some job
      → visit_each (visit jobs fuel) job.dependencies (record s { visiting = id ∷ s.visiting })
        ≡ ok s₂
      → Ordered jobs s.visited
      → Ordered jobs (leave id s₂).visited
        × Extends s (leave id s₂)
        × (elem id (leave id s₂).visited ≡ true)
  leave_sound fuel id job s s₂ sound found e o =
      let (o₂, ext, deps) =
        visit_each_sound (visit jobs fuel) sound job.dependencies
          (record s { visiting = id ∷ s.visiting }) s₂ e o in
      ((rw (found, Resolves) deps, o₂), λ x h. ground (arith, ext x h), ground arith)

  visit-IsSound : (fuel : ℕ) → IsSound (visit jobs fuel)
  unfolding visit
  visit-IsSound zero id s s' e o = cc
  visit-IsSound (suc fuel) id s s' e o = elim (Bool-cases (elem id s.visiting)) [
    | inl on_path ↦ absurd (ground arith)
    | inr off ↦ elim (Bool-cases (elem id s.visited)) [
      | inl done ↦
          let p : s ≡ s' = ground arith in
          subst (λ t. Ordered jobs t.visited × Extends s t × (elem id t.visited ≡ true)) p
            (o, λ x h. h, done)
      | inr new ↦ elim (Option-cases (job_of jobs id)) [
        | inl unknown ↦ absurd (ground arith)
        | inr (job, found) ↦
            elim (Result-cases (
              visit_each (visit jobs fuel) job.dependencies
                (record s { visiting = id ∷ s.visiting }))) [
                  | inl (s₂, q) ↦
                      let p : leave id s₂ ≡ s' = ground arith in
                      subst (λ t. Ordered jobs t.visited × Extends s t × (elem id t.visited ≡ true))
                        p (leave_sound fuel id job s s₂ (visit-IsSound fuel) found q o)
                  | inr (e', q) ↦ absurd (ground arith)
                ]
      ]
    ]
  ]

  -- If the dependency graph is accepted, whatever the recursion limit, there is an order of ids in which the id of every job
  -- stands, and each id is of a job whose dependencies all stand behind it: the graph is closed
  -- under dependency and has no cycle.
  pub accepted_has_order :
      (stack : ℕ)
      → validate_dependency_graph jobs stack ≡ ok tt
      → (order : List Name) × Ordered jobs order × All (λ id. elem id order ≡ true) (keys jobs)
  unfolding validate_dependency_graph
  accepted_has_order stack e = elim (Result-cases (walk jobs stack)) [
    | inl (s, q) ↦
        let (o, ext, all_keys) =
          visit_each_sound (visit jobs stack) (visit-IsSound stack) (keys jobs)
            (record { visiting = []; visited = [] }) s q tt in
        (s.visited, o, all_keys)
    | inr (e', q) ↦ absurd (ground arith)
  ]
