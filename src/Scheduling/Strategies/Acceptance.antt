-- ===== src/Scheduling/Strategies/Acceptance.antt =====
-- The plans of the strategies pass the contract.
use compute_weaver.Base.{
  ℕ, ◌+◌, ◌*◌, ◌≤◌, ◌≡◌, refl, sym, ◌≢◌, ◌⊎◌, inl, inr, Bool, true, false, not, ◌&&◌, ◌||◌, none,
  some, List, [], ◌∷◌, ◌++◌, map, arith, ◌==◌, Name, Bool-cases, Option-cases, length, All, elem,
  length-append, elem-append, All-append, All-map, ok, Result-cases,
}
use compute_weaver.Base.Int.{◌+ℤ◌, scale}
use compute_weaver.Base.Sorting.{
  sort_by, length-sort_by, Distinct, All-unsort_by, All-sort_by, Distinct-sort_by,
}
use compute_weaver.Scheduling.{
  TimeSlot, Job, Allocation, job_of, add_use, place, place_each, validate_plan,
}
use compute_weaver.Scheduling.Strategies.{
  Strategy, fifo, priority_edf, price_aware, SchedulePlan, Progress, required_slots, select,
  consecutive, occupy, leave_out, allocation, allocate, first_duration, settle_job, schedule_job,
  schedule_jobs, no_progress, plan_of, schedule_ordered, submitted_before, more_urgent, schedule,
}
use compute_weaver.Scheduling.Strategies.Slots.{NumberedFrom, Free, Free-add_use, select-Free}

place-occupy :
    (slots : List TimeSlot) (job : Job) (selected : List TimeSlot) (p : Progress)
    → All (Free slots job p.used) selected
    → Distinct (λ s. s.index) selected
    → place slots job.deadline job.gpu_count (map (λ s. s.index) selected) p.used
      ≡ ok (occupy job selected p).used
unfolding place occupy
place-occupy slots job [] p free distinct = refl
place-occupy slots job (s ∷ selected) p free distinct =
    let slot_energy = job.power_kw_per_gpu * job.gpu_count * s.duration_hours in
    let rest =
      place-occupy slots job selected
        (record p {
          used = add_use s.index job.gpu_count p.used;
          energy = p.energy + slot_energy;
          cost = p.cost +ℤ scale slot_energy s.price_per_kwh;
        })
        (Free-add_use slots job p.used s.index selected distinct.0 free.1) distinct.1 in
    ground (arith, rest, free.0)

occupy_keeps :
    (job : Job) (selected : List TimeSlot) (p : Progress)
    → ((occupy job selected p).allocations ≡ p.allocations)
      × ((occupy job selected p).unscheduled ≡ p.unscheduled)
unfolding occupy
occupy_keeps job [] p = (refl, refl)
occupy_keeps job (s ∷ selected) p =
    let slot_energy = job.power_kw_per_gpu * job.gpu_count * s.duration_hours in
    occupy_keeps job selected (record p {
      used = add_use s.index job.gpu_count p.used;
      energy = p.energy + slot_energy;
      cost = p.cost +ℤ scale slot_energy s.price_per_kwh;
    })

place_each-append :
    (jobs : List Job) (slots : List TimeSlot) (done : List Allocation) (a : Allocation) (job : Job)
    (used u v : ℕ → ℕ) (seen : List Name)
    → place_each jobs slots done used seen ≡ ok u
    → elem a.job_id seen ≡ false
    → All (λ b. b.job_id ≢ a.job_id) done
    → job_of jobs a.job_id ≡ some job
    → place slots job.deadline a.gpu_count a.slot_indices u ≡ ok v
    → place_each jobs slots (done ++ a ∷ []) used seen ≡ ok v
unfolding place_each
place_each-append jobs slots [] a job used u v seen e fresh apart found placed = ground arith
place_each-append jobs slots (b ∷ done) a job used u v seen e fresh apart found placed =
    elim (Option-cases (job_of jobs b.job_id)) [
      | inl n ↦ ground arith
      | inr (k, n) ↦ elim (Result-cases (place slots k.deadline b.gpu_count b.slot_indices used)) [
        | inr (x, m) ↦ ground arith
        | inl (used', m) ↦ ground (
          arith,
          apart.0,
          place_each-append jobs slots done a job used' u v (b.job_id ∷ seen) (ground arith)
              (ground (arith, apart.0)) apart.1 found placed,
        )
      ]
    ]

abbrev ids : List Job → List Name
ids jobs = map (λ j. j.id) jobs

abbrev job_ids : List Allocation → List Name
job_ids allocations = map (λ a. a.job_id) allocations

-- the id is of an allocation or among the unscheduled
abbrev pub has_place : Name → List Allocation → List Name → Bool
has_place id allocations unscheduled = elem id (job_ids allocations) || elem id unscheduled

elem-job_ids :
    (id : Name) (done : List Allocation) (a : Allocation)
    → elem id (job_ids (done ++ a ∷ [])) ≡ (elem id (job_ids done) || (id == a.job_id))
elem-job_ids id [] a = ground arith
elem-job_ids id (b ∷ done) a = ground (arith, elem-job_ids id done a)

-- the loop's state while the jobs `remaining` are still to come
record IsAccepted (jobs : List Job) (slots : List TimeSlot) (remaining : List Job) (total : ℕ)
    (p : Progress) : Type 0 where
  accepted : place_each jobs slots p.allocations (λ i. 0) [] ≡ ok p.used
  apart : All (λ b. All (λ j. b.job_id ≢ j.id) remaining) p.allocations
  counted : length p.allocations + length p.unscheduled + length remaining ≡ total
  placed :
      All
        (λ j. (has_place j.id p.allocations p.unscheduled || elem j.id (ids remaining)) ≡ true)
        jobs

apart_first :
    (job : Job) (remaining : List Job) (done : List Allocation)
    → All (λ b. All (λ j. b.job_id ≢ j.id) (job ∷ remaining)) done
    → All (λ b. b.job_id ≢ job.id) done
apart_first job remaining [] h = tt
apart_first job remaining (b ∷ done) h = (h.0.0, apart_first job remaining done h.1)

apart_rest :
    (job : Job) (remaining : List Job) (done : List Allocation)
    → All (λ b. All (λ j. b.job_id ≢ j.id) (job ∷ remaining)) done
    → All (λ b. All (λ j. b.job_id ≢ j.id) remaining) done
apart_rest job remaining [] h = tt
apart_rest job remaining (b ∷ done) h = (h.0.1, apart_rest job remaining done h.1)

apart_job :
    (job : Job) (remaining : List Job)
    → All (λ j. j.id ≢ job.id) remaining
    → All (λ j. job.id ≢ j.id) remaining
apart_job job [] h = tt
apart_job job (j ∷ remaining) h = (λ e. h.0 (sym e), apart_job job remaining h.1)

leave_out-IsAccepted :
    (jobs : List Job) (slots : List TimeSlot) (job : Job) (remaining : List Job) (total : ℕ)
    (p : Progress)
    → IsAccepted jobs slots (job ∷ remaining) total p
    → IsAccepted jobs slots remaining total (leave_out job p)
leave_out-IsAccepted jobs slots job remaining total p h = record {
  accepted = h.accepted;
  apart = apart_rest job remaining p.allocations h.apart;
  counted = omega (arith, h.counted, length-append p.unscheduled (job.id ∷ []));
  placed =
      All-map
        (λ j.
          (has_place j.id p.allocations p.unscheduled || elem j.id (ids (job ∷ remaining))) ≡ true)
        (λ j.
          (has_place j.id p.allocations (p.unscheduled ++ job.id ∷ []) || elem j.id (ids remaining))
          ≡ true)
        jobs (λ j k. ground (arith, k, elem-append j.id p.unscheduled (job.id ∷ []))) h.placed;
}

allocate-IsAccepted :
    (strategy : Strategy) (jobs : List Job) (slots : List TimeSlot) (job : Job)
    (remaining : List Job) (total : ℕ) (p : Progress) (selected : List TimeSlot)
    → All (Free slots job p.used) selected
    → Distinct (λ s. s.index) selected
    → job_of jobs job.id ≡ some job
    → All (λ j. j.id ≢ job.id) remaining
    → IsAccepted jobs slots (job ∷ remaining) total p
    → IsAccepted jobs slots remaining total (allocate strategy job selected p)
allocate-IsAccepted strategy jobs slots job remaining total p selected free distinct found others
      h =
    let (same, left) = occupy_keeps job selected p in
    record {
      accepted = rw same (
          place_each-append jobs slots p.allocations (allocation strategy job selected) job (λ i. 0)
            p.used (occupy job selected p).used [] h.accepted refl
            (apart_first job remaining p.allocations h.apart) found
            (place-occupy slots job selected p free distinct));
      apart = rw same (
          All-append (λ b. All (λ j. b.job_id ≢ j.id) remaining) p.allocations
            (allocation strategy job selected) (apart_rest job remaining p.allocations h.apart)
            (apart_job job remaining others));
      counted =
          rw (same, left)
            (omega (
              arith,
              h.counted,
              length-append p.allocations (allocation strategy job selected ∷ []),
            ));
      placed =
          rw (same, left)
            (All-map
              (λ j.
                (has_place j.id p.allocations p.unscheduled || elem j.id (ids (job ∷ remaining)))
                ≡ true)
              (λ j.
                (has_place j.id (p.allocations ++ allocation strategy job selected ∷ [])
                    p.unscheduled
                  || elem j.id (ids remaining))
                ≡ true)
              jobs
              (λ j k.
                ground
                  (arith, k, elem-job_ids j.id p.allocations (allocation strategy job selected)))
              h.placed);
    }

first_lasting :
    (slots : List TimeSlot)
    → All (λ s. 1 ≤ s.duration_hours) slots
    → (first_duration slots ≡ none) ⊎ ((d : ℕ) × ((first_duration slots ≡ some d) × (1 ≤ d)))
first_lasting [] h = inl refl
first_lasting (s ∷ slots) h = inr (s.duration_hours, (refl, h.0))

module _ (strategy : Strategy) (price : Bool) (jobs : List Job) (slots : List TimeSlot) (total : ℕ)
    (numbered : NumberedFrom 0 slots) where
  settle_job-IsAccepted :
      (job : Job) (remaining : List Job) (required : ℕ) (p : Progress)
      → job_of jobs job.id ≡ some job
      → All (λ j. j.id ≢ job.id) remaining
      → IsAccepted jobs slots (job ∷ remaining) total p
      → IsAccepted jobs slots remaining total
          (settle_job strategy price slots job required (select price slots p.used job required) p)
  unfolding settle_job
  settle_job-IsAccepted job remaining required p found others h =
      let selected = select price slots p.used job required in
      let (free, distinct) = select-Free price slots p.used job required numbered in
      elim (Bool-cases (
        not (length selected == required)
        || (not job.checkpointable && not (consecutive selected)))) [
          | inl c ↦ rw c (leave_out-IsAccepted jobs slots job remaining total p h)
          | inr c ↦ rw c (
              allocate-IsAccepted strategy jobs slots job remaining total p selected free distinct
                found others h)
        ]

  schedule_job-IsAccepted :
      (job : Job) (remaining : List Job) (p : Progress)
      → All (λ s. 1 ≤ s.duration_hours) slots
      → job_of jobs job.id ≡ some job
      → All (λ j. j.id ≢ job.id) remaining
      → IsAccepted jobs slots (job ∷ remaining) total p
      → (q : Progress) × (schedule_job strategy price slots job p ≡ ok q)
        × IsAccepted jobs slots remaining total q
  unfolding schedule_job
  schedule_job-IsAccepted job remaining p lasting found others h =
      elim (first_lasting slots lasting) [
        | inl n ↦ (
          leave_out job p,
          rw (n, schedule_job),
          leave_out-IsAccepted jobs slots job remaining total p h,
        )
        | inr (d, (n, long)) ↦
            let required = required_slots job.estimated_hours d in
            (
              settle_job strategy price slots job required (select price slots p.used job required)
                  p,
              ground arith,
              settle_job-IsAccepted job remaining required p found others h,
            )
      ]

  schedule_jobs-IsAccepted :
      (ordered : List Job) (p : Progress)
      → All (λ s. 1 ≤ s.duration_hours) slots
      → All (λ j. job_of jobs j.id ≡ some j) ordered
      → Distinct (λ j. j.id) ordered
      → IsAccepted jobs slots ordered total p
      → (q : Progress) × (schedule_jobs strategy price slots ordered p ≡ ok q)
        × IsAccepted jobs slots [] total q
  unfolding schedule_jobs
  schedule_jobs-IsAccepted [] p lasting found distinct h = (p, refl, h)
  schedule_jobs-IsAccepted (job ∷ ordered) p lasting found distinct h =
      let (q, e, k) = schedule_job-IsAccepted job ordered p lasting found.0 distinct.0 h in
      let (r, e', k') = schedule_jobs-IsAccepted ordered q lasting found.1 distinct.1 k in
      (r, rw (e, schedule_jobs) e', k')

not-job_of : (jobs : List Job) (id : Name) → All (λ j. j.id ≢ id) jobs → job_of jobs id ≡ none
unfolding job_of
not-job_of [] id h = refl
not-job_of (j ∷ jobs) id h = ground (arith, h.0, not-job_of jobs id h.1)

All-job_of_cons :
    (j : Job) (jobs xs : List Job)
    → All (λ k. job_of jobs k.id ≡ some k) xs
    → All (λ k. job_of (j ∷ jobs) k.id ≡ some k) xs
unfolding job_of
All-job_of_cons j jobs [] h = tt
All-job_of_cons j jobs (k ∷ xs) h = (rw h.0 refl, All-job_of_cons j jobs xs h.1)

pub Distinct-job_of :
    (jobs : List Job) → Distinct (λ j. j.id) jobs → All (λ j. job_of jobs j.id ≡ some j) jobs
unfolding job_of
Distinct-job_of [] h = tt
Distinct-job_of (j ∷ jobs) h = (
  ground (arith, not-job_of jobs j.id h.0),
  All-job_of_cons j jobs jobs (Distinct-job_of jobs h.1),
)

All-elem : (jobs : List Job) → All (λ j. elem j.id (ids jobs) ≡ true) jobs
All-elem [] = tt
All-elem (k ∷ jobs) = (
  ground arith,
  All-map (λ j. elem j.id (ids jobs) ≡ true) (λ j. elem j.id (ids (k ∷ jobs)) ≡ true) jobs
      (λ j h. ground (arith, h)) (All-elem jobs),
)

All-sorted :
    (order : Job → Job → Bool) (jobs : List Job)
    → All (λ j. elem j.id (ids (sort_by order jobs)) ≡ true) jobs
All-sorted order jobs =
    All-unsort_by (λ j. elem j.id (ids (sort_by order jobs)) ≡ true) order jobs
      (All-elem (sort_by order jobs))

-- what a strategy returns: a plan that the contract accepts, in which every job has a place
abbrev pub Planned : Name → Strategy → List Job → List TimeSlot → Type 0
Planned input_hash strategy jobs slots =
    (plan : SchedulePlan) × (schedule input_hash strategy jobs slots ≡ ok plan)
    × (validate_plan jobs slots plan.allocations ≡ ok tt)
    × (length plan.allocations + length plan.unscheduled ≡ length jobs)
    × All (λ j. has_place j.id plan.allocations plan.unscheduled ≡ true) jobs

ordered-Planned :
    (input_hash : Name) (strategy : Strategy) (price : Bool) (order : Job → Job → Bool)
    (jobs : List Job) (slots : List TimeSlot)
    → NumberedFrom 0 slots
    → All (λ s. 1 ≤ s.duration_hours) slots
    → Distinct (λ j. j.id) jobs
    → (plan : SchedulePlan) × (schedule_ordered input_hash strategy price jobs
          (sort_by order jobs)
          slots
        ≡ ok plan)
      × (validate_plan jobs slots plan.allocations ≡ ok tt)
      × (length plan.allocations + length plan.unscheduled ≡ length jobs)
      × All (λ j. has_place j.id plan.allocations plan.unscheduled ≡ true) jobs
unfolding schedule_ordered validate_plan
ordered-Planned input_hash strategy price order jobs slots numbered lasting distinct =
    let start : IsAccepted jobs slots (sort_by order jobs) (length jobs) no_progress = record {
      accepted = refl;
      apart = tt;
      counted = omega (arith, length-sort_by order jobs);
      placed = All-sorted order jobs;
    } in
    let (p, e, h) =
      schedule_jobs-IsAccepted strategy price jobs slots (length jobs) numbered (sort_by order jobs)
        no_progress lasting
        (All-sort_by (λ j. job_of jobs j.id ≡ some j) order jobs (Distinct-job_of jobs distinct))
        (Distinct-sort_by (λ j. j.id) order jobs distinct) start in
    (
      plan_of input_hash strategy p,
      ground (arith, h.accepted),
      ground (arith, h.accepted),
      omega (arith, h.counted),
      All-map (λ j. (has_place j.id p.allocations p.unscheduled || false) ≡ true)
          (λ j. has_place j.id p.allocations p.unscheduled ≡ true) jobs (λ j k. ground (arith, k))
          h.placed,
    )

-- On slots that are numbered from 0 in their order and are not empty of time, and jobs with different
-- ids, every strategy returns a plan: `validate_plan` accepts it, so it raises nothing; the id of each job
-- is that of an allocation or among the unscheduled, and the two together are as many as the jobs.
pub schedule-Planned :
    (input_hash : Name) (strategy : Strategy) (jobs : List Job) (slots : List TimeSlot)
    → NumberedFrom 0 slots
    → All (λ s. 1 ≤ s.duration_hours) slots
    → Distinct (λ j. j.id) jobs
    → Planned input_hash strategy jobs slots
unfolding schedule
schedule-Planned input_hash fifo jobs slots =
    ordered-Planned input_hash fifo false submitted_before jobs slots
schedule-Planned input_hash priority_edf jobs slots =
    ordered-Planned input_hash priority_edf false more_urgent jobs slots
schedule-Planned input_hash price_aware jobs slots =
    ordered-Planned input_hash price_aware true more_urgent jobs slots
