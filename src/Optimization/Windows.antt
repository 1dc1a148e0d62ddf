-- ===== src/Optimization/Windows.antt =====
-- The choices of packages/optimization/engine.py lie in slots that their job may take.
use compute_weaver.Base.{
  ℕ, zero, suc, ◌+◌, ◌≤◌, ◌<◌, ◌≡◌, refl, ◌≢◌, inl, inr, Bool, true, ◌||◌, some, List, [], ◌∷◌, map,
  arith, ◌==◌, Bool-cases, get_elem?, any, keep, All, All-map, All-map₂, All-concat, All-image, ok,
}
use compute_weaver.Base.Int.{ℤ, pos, ◌+ℤ◌, scale}
use compute_weaver.Base.Sorting.{Distinct, All-keep, Distinct-keep}
use compute_weaver.Scheduling.{TimeSlot, Job, add_use, place}
use compute_weaver.Scheduling.Strategies.{capacity_of, required_slots}
use compute_weaver.Scheduling.Strategies.Slots.{
  NumberedFrom, At, NumberedFrom-At, NumberedFrom-Distinct, Known, Distinct-Known, at_self,
}
use compute_weaver.Optimization.{
  combinations, adjacent, is_eligible, eligible, job_options, occupy_slots, has_room, slot_energy,
  choice_cost, choice_energy,
}

module _ (slots : List TimeSlot) (job : Job) where
  -- `i` is the index of a slot of the input that starts before the deadline
  abbrev pub Ready : ℕ → Type 0
  Ready i =
      (s : TimeSlot) × (get_elem? slots i ≡ some s)
      × (any (λ t. t.index == i) slots ≡ true)
      × (capacity_of slots i ≡ s.gpu_capacity)
      × (s.starts_at < job.deadline)

  abbrev pub IsWindow : List ℕ → Type 0
  IsWindow choice = All Ready choice × Distinct (λ i. i) choice

  eligible-Ready :
      (xs : List TimeSlot)
      → All (At 0 slots) xs
      → All (Known slots) xs
      → All Ready (map (λ s. s.index) (keep (is_eligible job) xs))
  eligible-Ready [] at known = tt
  eligible-Ready (s ∷ xs) at known =
      let rest = eligible-Ready xs at.1 known.1 in
      elim (Bool-cases (is_eligible job s)) [
        | inr c ↦ rw c rest
        | inl c ↦
            rw c
              ((s, at_self slots s s.index at.0.1, known.0.0, known.0.1, ground (arith, c)), rest)
      ]

  has_room-add_use :
      (used : ℕ → ℕ) (gpus i : ℕ) (choice : List ℕ)
      → All (λ j. j ≢ i) choice
      → has_room slots (add_use i gpus used) gpus choice ≡ has_room slots used gpus choice
  has_room-add_use used gpus i [] h = refl
  has_room-add_use used gpus i (j ∷ choice) h =
      ground (arith, has_room-add_use used gpus i choice h.1, h.0)

  pub place-IsWindow :
      (gpus : ℕ) (choice : List ℕ) (used : ℕ → ℕ)
      → IsWindow choice
      → has_room slots used gpus choice ≡ true
      → place slots job.deadline gpus choice used ≡ ok (occupy_slots gpus choice used)
  unfolding place
  place-IsWindow gpus [] used w room = refl
  place-IsWindow gpus (i ∷ choice) used (((s, at, known, capacity, early), more), (apart, distinct))
        room =
      let rest =
        place-IsWindow gpus choice (add_use i gpus used) (more, distinct)
          (ground (arith, has_room-add_use used gpus i choice apart, room)) in
      ground (arith, rest, at, known, capacity, early, room)

  pub choice_cost-IsWindow :
      (choice : List ℕ) → All Ready choice → (z : ℤ) × (choice_cost slots job choice ≡ ok z)
  unfolding choice_cost
  choice_cost-IsWindow [] h = (pos 0, refl)
  choice_cost-IsWindow (i ∷ choice) ((s, at, known, capacity, early), more) =
      let (z, e) = choice_cost-IsWindow choice more in
      (scale (slot_energy slots job s) s.price_per_kwh +ℤ z, rw (at, e, choice_cost) refl)

  pub choice_energy-IsWindow :
      (choice : List ℕ) → All Ready choice → (n : ℕ) × (choice_energy slots job choice ≡ ok n)
  unfolding choice_energy
  choice_energy-IsWindow [] h = (0, refl)
  choice_energy-IsWindow (i ∷ choice) ((s, at, known, capacity, early), more) =
      let (n, e) = choice_energy-IsWindow choice more in
      (slot_energy slots job s + n, rw (at, e, choice_energy) refl)

combinations-All :
    (P : ℕ → Type 0) (n : ℕ) (xs : List ℕ) → All P xs → All (λ c. All P c) (combinations n xs)
unfolding combinations
combinations-All P zero xs h = (tt, tt)
combinations-All P (suc n) [] h = tt
combinations-All P (suc n) (x ∷ xs) h =
    All-concat (λ c. All P c) (map (λ c. x ∷ c) (combinations n xs)) (combinations (suc n) xs)
      (All-image (λ c. All P c) (λ c. x ∷ c) (combinations n xs)
        (All-map (λ c. All P c) (λ c. All P (x ∷ c)) (combinations n xs) (λ c k. (h.0, k))
          (combinations-All P n xs h.1)))
      (combinations-All P (suc n) xs h.1)

combinations-Distinct :
    (n : ℕ) (xs : List ℕ) → Distinct (λ i. i) xs → All (Distinct (λ i. i)) (combinations n xs)
unfolding combinations
combinations-Distinct zero xs h = (tt, tt)
combinations-Distinct (suc n) [] h = tt
combinations-Distinct (suc n) (x ∷ xs) h =
    All-concat (Distinct (λ i. i)) (map (λ c. x ∷ c) (combinations n xs)) (combinations (suc n) xs)
      (All-image (Distinct (λ i. i)) (λ c. x ∷ c) (combinations n xs)
        (All-map₂ (λ c. All (λ j. j ≢ x) c) (Distinct (λ i. i)) (λ c. Distinct (λ i. i) (x ∷ c))
          (combinations n xs) (λ c k l. (k, l)) (combinations-All (λ j. j ≢ x) n xs h.0)
          (combinations-Distinct n xs h.1)))
      (combinations-Distinct (suc n) xs h.1)

Distinct-indices :
    (xs : List TimeSlot) → Distinct (λ s. s.index) xs → Distinct (λ i. i) (map (λ s. s.index) xs)
Distinct-indices [] h = tt
Distinct-indices (s ∷ xs) h =
    (All-image (λ j. j ≢ s.index) (λ t. t.index) xs h.0, Distinct-indices xs h.1)

-- Every choice of a job is a window of slots.
pub job_options-IsWindow :
    (slots : List TimeSlot) (job : Job)
    → NumberedFrom 0 slots
    → All (λ s. 1 ≤ s.duration_hours) slots
    → (cs : List (List ℕ)) × (job_options slots job ≡ ok cs) × All (IsWindow slots job) cs
unfolding job_options
job_options-IsWindow [] job numbered lasting = ([], refl, tt)
job_options-IsWindow (s ∷ more) job numbered lasting =
    let slots = s ∷ more in
    let distinct = NumberedFrom-Distinct 0 slots numbered in
    let required = required_slots job.estimated_hours s.duration_hours in
    let all = combinations required (eligible slots job) in
    let p : List ℕ → Bool = λ c. job.checkpointable || adjacent c in
    (
      keep p all,
      ground (arith, lasting.0),
      All-keep (IsWindow slots job) p all (
          All-map₂ (λ c. All (Ready slots job) c) (Distinct (λ i. i)) (IsWindow slots job) all
            (λ c k l. (k, l))
            (combinations-All (Ready slots job) required (eligible slots job) (
              eligible-Ready slots job slots (NumberedFrom-At 0 slots numbered)
                (Distinct-Known slots distinct)))
            (combinations-Distinct required (eligible slots job) (
              Distinct-indices (keep (is_eligible job) slots)
                (Distinct-keep (λ t. t.index) (is_eligible job) slots distinct)))),
    )
