-- ===== src/Dependencies/Fuel.antt =====
-- How deep the search goes.
use compute_weaver.Base.{
  ℕ, zero, suc, ◌≤◌, ◌<◌, ◌≡◌, refl, ◌∙◌, ◌≢◌, ◌⊎◌, inl, inr, true, false, not, some, List, [], ◌∷◌,
  arith, ◌==◌, Name, Bool-cases, Option-cases, ==→eq, length, keep, elem, Result, ok, err,
  Result-cases,
}
use mathlib.Core.Path.{subst}
use compute_weaver.Dependencies.{
  DependencyJob, Error, cycle, unknown_dependency, recursion_error, Search, job_of, keys,
  visit_each, visit, walk, validate_dependency_graph,
}

-- how many ids are not on the path
abbrev free : List Name → List Name → ℕ
free path ids = length (keep (λ k. not (elem k path)) ids)

free-le : (id : Name) (path ids : List Name) → free (id ∷ path) ids ≤ free path ids
free-le id path [] = omega arith
free-le id path (k ∷ ids) = ground (arith, free-le id path ids)

free-push :
    (id : Name) (path ids : List Name)
    → elem id ids ≡ true
    → elem id path ≡ false
    → free (id ∷ path) ids < free path ids
free-push id path [] h n = cc
free-push id path (k ∷ ids) h n = elim (Bool-cases (id == k)) [
  | inl e ↦
      let p : elem k path ≡ false = subst (λ x. elem x path ≡ false) (==→eq id k e) n in
      ground (arith, free-le id path ids)
  | inr e ↦ ground (arith, free-push id path ids)
]

free-le-length : (path ids : List Name) → free path ids ≤ length ids
free-le-length path [] = omega arith
free-le-length path (k ∷ ids) = ground (arith, free-le-length path ids)

elem-keep_ne :
    (x y : Name) (ids : List Name)
    → (x == y) ≡ false
    → elem x (keep (λ k. not (k == y)) ids) ≡ elem x ids
elem-keep_ne x y [] h = refl
elem-keep_ne x y (k ∷ ids) h = ground (arith, elem-keep_ne x y ids h)

elem-keys :
    (jobs : List DependencyJob) (id : Name) (job : DependencyJob)
    → job_of jobs id ≡ some job
    → elem id (keys jobs) ≡ true
unfolding job_of keys
elem-keys [] id job e = cc
elem-keys (j ∷ js) id job e = elim (Bool-cases (id == j.id)) [
  | inl same ↦ ground arith
  | inr other ↦ ground (arith, elem-keep_ne id j.id (keys js) other, elem-keys js id job)
]

keep_absent :
    (id : Name) (path : List Name) → elem id path ≡ false → keep (λ k. not (k == id)) path ≡ path
keep_absent id [] h = refl
keep_absent id (k ∷ path) h = ground (arith, keep_absent id path)

module _ (jobs : List DependencyJob) where
  abbrev KeepsPath : (Name → Search → Result Error Search) → Type 0
  KeepsPath f = (id : Name) (s s' : Search) → f id s ≡ ok s' → s'.visiting ≡ s.visiting

  visit_each-path :
      (f : Name → Search → Result Error Search) (keeps : KeepsPath f) (ids : List Name)
      (s s' : Search)
      → visit_each f ids s ≡ ok s'
      → s'.visiting ≡ s.visiting
  unfolding visit_each
  visit_each-path f keeps [] s s' e = ground arith
  visit_each-path f keeps (id ∷ ids) s s' e = elim (Result-cases (f id s)) [
    | inl (s₁, q) ↦ visit_each-path f keeps ids s₁ s' (ground arith) ∙ keeps id s s₁ q
    | inr (e', q) ↦ ground arith
  ]

  visit-path : (fuel : ℕ) → KeepsPath (visit jobs fuel)
  unfolding visit
  visit-path zero id s s' e = cc
  visit-path (suc fuel) id s s' e = elim (Option-cases (job_of jobs id)) [
    | inl unknown ↦ ground arith
    | inr (job, found) ↦
        elim (Result-cases (
          visit_each (visit jobs fuel) job.dependencies
            (record s { visiting = id ∷ s.visiting }))) [
              | inl (s₂, q) ↦ ground (
                arith,
                visit_each-path (visit jobs fuel) (visit-path fuel) job.dependencies
                    (record s { visiting = id ∷ s.visiting }) s₂ q,
                keep_absent id s.visiting,
              )
              | inr (e', q) ↦ ground arith
            ]
  ]

  abbrev HasFuel : ℕ → (Name → Search → Result Error Search) → Type 0
  HasFuel fuel f =
      (id : Name) (s : Search) → free s.visiting (keys jobs) < fuel → f id s ≢ err recursion_error

  visit_each-fuel :
      (fuel : ℕ) (f : Name → Search → Result Error Search) (keeps : KeepsPath f)
      (has : HasFuel fuel f) (ids : List Name) (s : Search)
      → free s.visiting (keys jobs) < fuel
      → visit_each f ids s ≢ err recursion_error
  unfolding visit_each
  visit_each-fuel fuel f keeps has [] s h = λ e. cc
  visit_each-fuel fuel f keeps has (id ∷ ids) s h = elim (Result-cases (f id s)) [
    | inl (s₁, q) ↦
        λ e. visit_each-fuel fuel f keeps has ids s₁ (rw (keeps id s s₁ q) h) (ground arith)
    | inr (e', q) ↦ λ e. has id s h (ground arith)
  ]

  visit-fuel : (fuel : ℕ) → HasFuel fuel (visit jobs fuel)
  unfolding visit
  visit-fuel zero id s h = elim h [ ]
  visit-fuel (suc fuel) id s h = λ e. elim (Option-cases (job_of jobs id)) [
    | inl unknown ↦ ground arith
    | inr (job, found) ↦ elim (Bool-cases (elem id s.visiting)) [
      | inl on_path ↦ ground arith
      | inr off ↦
          visit_each-fuel fuel (visit jobs fuel) (visit-path fuel) (visit-fuel fuel)
            job.dependencies (record s { visiting = id ∷ s.visiting })
            (omega (arith, free-push id s.visiting (keys jobs) (elem-keys jobs id job found) off))
            (ground (
              arith,
              Result-cases (
                  visit_each (visit jobs fuel) job.dependencies
                    (record s { visiting = id ∷ s.visiting })),
            ))
    ]
  ]

  -- Where the interpreter allows more nested calls than the jobs have ids, the validation does not run
  -- into the recursion limit: it accepts, finds a cycle or finds an unknown dependency, for every
  -- graph.
  pub validation_total :
      (stack : ℕ)
      → length (keys jobs) < stack
      → (validate_dependency_graph jobs stack ≡ ok tt)
        ⊎ (validate_dependency_graph jobs stack ≡ err cycle)
        ⊎ (validate_dependency_graph jobs stack ≡ err unknown_dependency)
  unfolding validate_dependency_graph
  validation_total stack deep =
      let enough : validate_dependency_graph jobs stack ≢ err recursion_error = λ e.
        visit_each-fuel stack (visit jobs stack) (visit-path stack) (visit-fuel stack) (keys jobs)
          (record { visiting = []; visited = [] })
          (omega (arith, deep, free-le-length [] (keys jobs)))
          (ground (arith, Result-cases (walk jobs stack))) in
      elim (Result-cases (walk jobs stack)) [
        | inl (s, e) ↦ inl (rw (e, validate_dependency_graph) refl)
        | inr (cycle, e) ↦ inr (inl (rw (e, validate_dependency_graph) refl))
        | inr (unknown_dependency, e) ↦ inr (inr (rw (e, validate_dependency_graph) refl))
        | inr (recursion_error, e) ↦ absurd (enough (rw (e, validate_dependency_graph) refl))
      ]
