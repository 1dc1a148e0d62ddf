-- ===== src/Scheduling/Strategies/Slots.antt =====
-- The slots of an input, and those that a job may take.
use compute_weaver.Base.{
  ℕ, suc, ◌+◌, ◌-◌, ◌≤◌, ◌<◌, ◌≡◌, refl, ◌≢◌, inl, inr, Bool, true, false, some, List, [], ◌∷◌,
  arith, ◌==◌, if◌then◌else◌, Bool-cases, get_elem?, any, keep, All,
}
use compute_weaver.Base.Sorting.{
  take, sort_by, Distinct, All-take, All-sort_by, Distinct-take, Distinct-keep, Distinct-sort_by,
}
use compute_weaver.Scheduling.{TimeSlot, Job, add_use}
use compute_weaver.Scheduling.Strategies.{capacity_of, is_candidate, earlier, cheaper, select}

-- The slot at position `i` has index `n + i`.
abbrev pub NumberedFrom : ℕ → List TimeSlot → Type 0
NumberedFrom n [] = Unit
NumberedFrom n (s ∷ slots) = (s.index ≡ n) × NumberedFrom (n + 1) slots

abbrev pub At : ℕ → List TimeSlot → TimeSlot → Type 0
At n slots s = (n ≤ s.index) × (get_elem? slots (s.index - n) ≡ some s)

At-cons : (n : ℕ) (s t : TimeSlot) (slots : List TimeSlot) → At (n + 1) slots t → At n (s ∷ slots) t
At-cons n s t slots (h, e) =
    let p : t.index - n ≡ suc (t.index - (n + 1)) = omega arith in (omega arith, rw p e)

All-At_cons :
    (n : ℕ) (s : TimeSlot) (slots xs : List TimeSlot)
    → All (At (n + 1) slots) xs
    → All (At n (s ∷ slots)) xs
All-At_cons n s slots [] h = tt
All-At_cons n s slots (t ∷ xs) h = (At-cons n s t slots h.0, All-At_cons n s slots xs h.1)

pub NumberedFrom-At :
    (n : ℕ) (slots : List TimeSlot) → NumberedFrom n slots → All (At n slots) slots
NumberedFrom-At n [] h = tt
NumberedFrom-At n (s ∷ slots) h =
    let p : s.index - n ≡ 0 = omega (arith, h.0) in
    (
      (omega (arith, h.0), rw p refl),
      All-At_cons n s slots slots (NumberedFrom-At (n + 1) slots h.1),
    )

beyond :
    (n k : ℕ) (slots xs : List TimeSlot) → k < n → All (At n slots) xs → All (λ s. s.index ≢ k) xs
beyond n k slots [] lt h = tt
beyond n k slots (s ∷ xs) lt h = (λ e. omega (arith, h.0.0, e), beyond n k slots xs lt h.1)

pub NumberedFrom-Distinct :
    (n : ℕ) (slots : List TimeSlot) → NumberedFrom n slots → Distinct (λ s. s.index) slots
NumberedFrom-Distinct n [] h = tt
NumberedFrom-Distinct n (s ∷ slots) h = (
  rw h.0 (beyond (n + 1) n slots slots (omega arith) (NumberedFrom-At (n + 1) slots h.1)),
  NumberedFrom-Distinct (n + 1) slots h.1,
)

-- what `validate_plan` finds at the slot's index, and what `available` holds there
abbrev pub Known : List TimeSlot → TimeSlot → Type 0
Known slots s =
    (any (λ t. t.index == s.index) slots ≡ true) × (capacity_of slots s.index ≡ s.gpu_capacity)

All-Known_cons :
    (s : TimeSlot) (slots xs : List TimeSlot) → All (Known slots) xs → All (Known (s ∷ slots)) xs
unfolding capacity_of
All-Known_cons s slots [] h = tt
All-Known_cons s slots (t ∷ xs) h = (ground (arith, h.0), All-Known_cons s slots xs h.1)

not-any :
    (i : ℕ) (slots : List TimeSlot)
    → All (λ s. s.index ≢ i) slots
    → any (λ t. t.index == i) slots ≡ false
not-any i [] h = refl
not-any i (s ∷ slots) h = ground (arith, h.0, not-any i slots h.1)

pub Distinct-Known :
    (slots : List TimeSlot) → Distinct (λ s. s.index) slots → All (Known slots) slots
unfolding capacity_of
Distinct-Known [] h = tt
Distinct-Known (s ∷ slots) h = (
  ground (arith, not-any s.index slots h.0),
  All-Known_cons s slots slots (Distinct-Known slots h.1),
)

-- A slot that a job may take: it is in the input under its index, before the deadline, with room.
abbrev pub Free : List TimeSlot → Job → (ℕ → ℕ) → TimeSlot → Type 0
Free slots job used s =
    (get_elem? slots s.index ≡ some s)
    × (any (λ t. t.index == s.index) slots ≡ true)
    × (s.starts_at < job.deadline)
    × (used s.index + job.gpu_count ≤ s.gpu_capacity)

pub at_self :
    (slots : List TimeSlot) (s : TimeSlot) (n : ℕ)
    → get_elem? slots (n - 0) ≡ some s
    → get_elem? slots n ≡ some s
at_self slots s n e = let p : n ≡ n - 0 = omega arith in rw p e

candidates-Free :
    (slots : List TimeSlot) (job : Job) (used : ℕ → ℕ) (xs : List TimeSlot)
    → All (At 0 slots) xs
    → All (Known slots) xs
    → All (Free slots job used) (keep (is_candidate slots used job) xs)
candidates-Free slots job used [] at known = tt
candidates-Free slots job used (s ∷ xs) at known =
    let rest = candidates-Free slots job used xs at.1 known.1 in
    elim (Bool-cases (is_candidate slots used job s)) [
      | inl c ↦ rw c (
        (at_self slots s s.index at.0.1, known.0.0, ground arith, ground (arith, known.0.1)),
        rest,
      )
      | inr c ↦ rw c rest
    ]

-- The slots of a selection do not share an index, so taking one leaves the others free.
pub Free-add_use :
    (slots : List TimeSlot) (job : Job) (used : ℕ → ℕ) (i : ℕ) (xs : List TimeSlot)
    → All (λ s. s.index ≢ i) xs
    → All (Free slots job used) xs
    → All (Free slots job (add_use i job.gpu_count used)) xs
Free-add_use slots job used i [] apart h = tt
Free-add_use slots job used i (s ∷ xs) apart h = (
  (h.0.0, h.0.1, h.0.2, ground (arith, h.0.3, apart.0)),
  Free-add_use slots job used i xs apart.1 h.1,
)

pub select-Free :
    (price : Bool) (slots : List TimeSlot) (used : ℕ → ℕ) (job : Job) (required : ℕ)
    → NumberedFrom 0 slots
    → All (Free slots job used) (select price slots used job required)
      × Distinct (λ s. s.index) (select price slots used job required)
select-Free price slots used job required numbered =
    let distinct = NumberedFrom-Distinct 0 slots numbered in
    let candidates = keep (is_candidate slots used job) slots in
    let order = if price then cheaper else earlier in
    let free =
      candidates-Free slots job used slots (NumberedFrom-At 0 slots numbered)
        (Distinct-Known slots distinct) in
    (
      All-sort_by (Free slots job used) earlier (take required (sort_by order candidates)) (
          All-take (Free slots job used) required (sort_by order candidates)
            (All-sort_by (Free slots job used) order candidates free)),
      Distinct-sort_by (λ s. s.index) earlier (take required (sort_by order candidates))
          (Distinct-take (λ s. s.index) required (sort_by order candidates)
            (Distinct-sort_by (λ s. s.index) order candidates
              (Distinct-keep (λ s. s.index) (is_candidate slots used job) slots distinct))),
    )
