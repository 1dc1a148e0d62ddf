-- ===== src/Optimization/Returns.antt =====
-- `optimize` of packages/optimization/engine.py raises nothing on inputs in order.
use compute_weaver.Scheduling.Strategies.Acceptance.{Distinct-job_of}
use compute_weaver.Base.Sorting.{Distinct}
use compute_weaver.Base.{
  ℕ, ◌+◌, ◌≡◌, refl, ◌≢◌, Bool, false, some, List, [], ◌∷◌, map, arith, Name, All, elem, All-map₂,
  All-get, ok,
}
use compute_weaver.Base.Int.{ℤ, pos, ◌+ℤ◌}
use compute_weaver.Scheduling.{TimeSlot, Job, job_of, place_each, validate_plan}
use compute_weaver.Optimization.{
  OptimizationResult, JobOptions, Best, Search, occupy_slots, Step, allocations, plan_energy,
  plan_for, found, conclude,
}
use compute_weaver.Optimization.Placements.{Completes}
use compute_weaver.Optimization.Windows.{IsWindow, place-IsWindow, choice_energy-IsWindow}

module _ (slots : List TimeSlot) where
  abbrev pub IsOffer : JobOptions → Type 0
  IsOffer o = All (IsWindow slots o.job) o.choices

  abbrev jobs_of : List JobOptions → List Job
  jobs_of os = map (λ o. o.job) os

  abbrev Returns : Step slots → Type 0
  Returns next =
      (current : List (List ℕ)) (used : ℕ → ℕ) (running : ℤ) (s : Search)
      → (s' : Search) × (next current used running s ≡ ok s')

  All-fresh : (js : List Job) → All (λ j. elem j.id [] ≡ false) js
  All-fresh [] = tt
  All-fresh (j ∷ js) = (refl, All-fresh js)

  plan_energy-returns :
      (os : List JobOptions) (used : ℕ → ℕ) (running : ℤ) (placed : List (List ℕ)) (cost : ℤ)
      → Completes slots os used running placed cost
      → All IsOffer os
      → (n : ℕ) × (plan_energy slots (allocations os placed) os ≡ ok n)
  unfolding Completes plan_energy allocations
  plan_energy-returns [] used running placed cost h offers = (0, refl)
  plan_energy-returns (o ∷ os) used running placed cost (k, c, rest, z, at, p, room, paid, h)
        offers =
      let window = All-get (IsWindow slots o.job) o.choices k c offers.0 at in
      let (n, e) = choice_energy-IsWindow slots o.job c window.0 in
      let (m, f) =
        plan_energy-returns os (occupy_slots o.job.gpu_count c used) (running +ℤ z) rest cost h
          offers.1 in
      (n + m, rw p (rw (e, f, plan_energy) refl))

  place_each-returns :
      (jobs : List Job) (os : List JobOptions) (used : ℕ → ℕ) (running : ℤ) (placed : List (List ℕ))
      (cost : ℤ) (seen : List Name)
      → Completes slots os used running placed cost
      → All IsOffer os
      → All (λ j. job_of jobs j.id ≡ some j) (jobs_of os)
      → Distinct (λ j. j.id) (jobs_of os)
      → All (λ j. elem j.id seen ≡ false) (jobs_of os)
      → (used' : ℕ → ℕ) × (place_each jobs slots (allocations os placed) used seen ≡ ok used')
  unfolding Completes place_each allocations
  place_each-returns jobs [] used running placed cost seen h offers known apart fresh = (used, refl)
  place_each-returns jobs (o ∷ os) used running placed cost seen
        (k, c, rest, z, at, p, room, paid, h) offers known apart fresh =
      let window = All-get (IsWindow slots o.job) o.choices k c offers.0 at in
      let put = place-IsWindow slots o.job o.job.gpu_count c used window room in
      let still : All (λ j. elem j.id (o.job.id ∷ seen) ≡ false) (jobs_of os) =
        All-map₂ (λ j. j.id ≢ o.job.id) (λ j. elem j.id seen ≡ false)
          (λ j. elem j.id (o.job.id ∷ seen) ≡ false) (jobs_of os) (λ j x y. ground (arith, x, y))
          apart.0 fresh.1 in
      let (used', e) =
        place_each-returns jobs os (occupy_slots o.job.gpu_count c used) (running +ℤ z) rest cost
          (o.job.id ∷ seen) h offers.1 known.1 apart.1 still in
      (used', rw p (rw (fresh.0, known.0, put, place_each) e))

  pub conclude-returns :
      (input_hash : Name) (jobs : List Job) (os : List JobOptions) (timed_out : Bool) (b : Best)
      → Completes slots os (λ i. 0) (pos 0) b.choices b.cost
      → All IsOffer os
      → jobs_of os ≡ jobs
      → Distinct (λ j. j.id) jobs
      → (r : OptimizationResult) × (conclude input_hash jobs slots os timed_out (some b) ≡ ok r)
  unfolding conclude validate_plan
  conclude-returns input_hash jobs os timed_out b h offers same distinct =
      let (n, e) = plan_energy-returns os (λ i. 0) (pos 0) b.choices b.cost h offers in
      let (used, f) =
        place_each-returns jobs os (λ i. 0) (pos 0) b.choices b.cost [] h offers
          (rw same (Distinct-job_of jobs distinct)) (rw same distinct) (All-fresh (jobs_of os)) in
      let valid : validate_plan jobs slots (allocations os b.choices) ≡ ok tt =
        rw (f, validate_plan) refl in
      (found timed_out (plan_for input_hash os b n), rw (e, valid, conclude) refl)
