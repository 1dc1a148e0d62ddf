-- ===== src/Scheduling/Limits.antt =====
-- A schedule that is accepted keeps to the capacity of the slots.
use compute_weaver.Base.{
  ℕ, ◌+◌, ◌≤◌, ◌≡◌, inl, inr, false, some, List, [], ◌∷◌, arith, ◌==◌, if◌then◌else◌, Name,
  Option-cases, get_elem?, elem, ok, Result-cases,
}
use compute_weaver.Scheduling.{
  TimeSlot, Allocation, add_use, place, validate_plan, place_each, Job, job_of,
}

-- What an allocation of `gpu_count` GPUs uses of slot `i`.
abbrev pub use_of : ℕ → ℕ → List ℕ → ℕ
use_of i gpu_count [] = 0
use_of i gpu_count (k ∷ indices) =
    let rest = use_of i gpu_count indices in if i == k then gpu_count + rest else rest

-- what a schedule uses of slot `i`
abbrev pub demand : ℕ → List Allocation → ℕ
demand i [] = 0
demand i (a ∷ allocations) = use_of i a.gpu_count a.slot_indices + demand i allocations

-- No slot is used beyond its capacity.
abbrev pub Fits : List TimeSlot → (ℕ → ℕ) → Type 0
Fits slots used =
    (i : ℕ) (slot : TimeSlot) → get_elem? slots i ≡ some slot → used i ≤ slot.gpu_capacity

place-use :
    (slots : List TimeSlot) (deadline gpu_count : ℕ) (indices : List ℕ) (used used' : ℕ → ℕ) (i : ℕ)
    → place slots deadline gpu_count indices used ≡ ok used'
    → used' i ≡ used i + use_of i gpu_count indices
unfolding place
place-use slots deadline g [] used used' i e = ground arith
place-use slots deadline g (k ∷ indices) used used' i e =
    ground (arith, place-use slots deadline g indices (add_use k g used) used' i)

place-Fits :
    (slots : List TimeSlot) (deadline gpu_count : ℕ) (indices : List ℕ) (used used' : ℕ → ℕ)
    → Fits slots used
    → place slots deadline gpu_count indices used ≡ ok used'
    → Fits slots used'
unfolding place
place-Fits slots deadline g [] used used' fits e = λ i slot at. ground (arith, fits i slot at)
place-Fits slots deadline g (k ∷ indices) used used' fits e =
    place-Fits slots deadline g indices (add_use k g used) used'
      (λ i slot at. ground (arith, fits i slot at)) (ground arith)

-- No allocation is of a job in `seen` or of the job of an earlier one.
abbrev pub Once : List Name → List Allocation → Type 0
Once seen [] = Unit
Once seen (a ∷ allocations) = (elem a.job_id seen ≡ false) × Once (a.job_id ∷ seen) allocations

-- what the accepted allocations are known to satisfy, from use `used` to `used'`
abbrev Placed : List TimeSlot → List Allocation → (ℕ → ℕ) → (ℕ → ℕ) → List Name → Type 0
Placed slots allocations used used' seen =
    (Fits slots used → Fits slots used')
    × ((i : ℕ) → used' i ≡ used i + demand i allocations)
    × Once seen allocations

place_each-Placed :
    (jobs : List Job) (slots : List TimeSlot) (allocations : List Allocation) (used used' : ℕ → ℕ)
    (seen : List Name)
    → place_each jobs slots allocations used seen ≡ ok used'
    → Placed slots allocations used used' seen
unfolding place_each
place_each-Placed jobs slots [] used used' seen e =
    (λ fits i slot at. ground (arith, fits i slot at), λ i. ground arith, tt)
place_each-Placed jobs slots (a ∷ allocations) used used' seen e =
    elim (Option-cases (job_of jobs a.job_id)) [
      | inl n ↦ ground arith
      | inr (job, n) ↦
          elim (Result-cases (place slots job.deadline a.gpu_count a.slot_indices used)) [
            | inr (x, m) ↦ ground arith
            | inl (used'', m) ↦
                let later =
                  place_each-Placed jobs slots allocations used'' used' (a.job_id ∷ seen)
                    (ground arith) in
                (
                  λ fits.
                      later.0 (
                        place-Fits slots job.deadline a.gpu_count a.slot_indices used used'' fits
                          m),
                  λ i. ground (
                    arith,
                    later.1 i,
                    place-use slots job.deadline a.gpu_count a.slot_indices used used'' i m,
                  ),
                  (ground arith, later.2),
                )
          ]
    ]

-- In a schedule that `validate_plan` accepts, the allocations together use no slot of the input beyond
-- its GPU capacity, and no job is allocated twice.
pub validate_plan-demand :
    (jobs : List Job) (slots : List TimeSlot) (allocations : List Allocation) (i : ℕ)
    (slot : TimeSlot)
    → validate_plan jobs slots allocations ≡ ok tt
    → get_elem? slots i ≡ some slot
    → (demand i allocations ≤ slot.gpu_capacity) × Once [] allocations
unfolding validate_plan
validate_plan-demand jobs slots allocations i slot e at =
    elim (Result-cases (place_each jobs slots allocations (λ i. 0) [])) [
      | inr (x, n) ↦ ground arith
      | inl (used, n) ↦
          let placed = place_each-Placed jobs slots allocations (λ i. 0) used [] n in
          (ground (arith, placed.0 (λ i slot at. ground arith) i slot at, placed.1 i), placed.2)
    ]
