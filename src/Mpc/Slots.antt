-- ===== src/Mpc/Slots.antt =====
-- The set of executed slots of packages/mpc/controller.py.
use mathlib.Core.Path.{subst}
use compute_weaver.Base.{
  ℕ, ◌<◌, ◌≡◌, inl, inr, Bool, true, false, not, ◌||◌, Option, none, some, List, [], ◌∷◌, map,
  arith, ltb, leb, ◌==◌, Bool-cases, Option-cases, ltb→lt, keep, All, elem, All-map, All-image,
  All-any,
}
use compute_weaver.Scheduling.{TimeSlot, Allocation}
use compute_weaver.Mpc.{least, current_index, in_slot, current, add_slot, execute}

-- rising, so no slot stands twice
unfoldable pub Rising : List ℕ → Type 0
Rising [] = Unit
Rising (i ∷ xs) = All (λ j. i < j) xs × Rising xs

All-add_slot : (P : ℕ → Type 0) (i : ℕ) (xs : List ℕ) → All P xs → P i → All P (add_slot i xs)
unfolding add_slot
All-add_slot P i [] h p = (p, tt)
All-add_slot P i (j ∷ xs) h p = ground (arith, All-add_slot P i xs h.1 p, h.0, p)

pub add_slot-Rising : (i : ℕ) (xs : List ℕ) → Rising xs → Rising (add_slot i xs)
unfolding add_slot Rising
add_slot-Rising i [] h = (tt, tt)
add_slot-Rising i (j ∷ xs) h = elim (Bool-cases (i == j)) [
  | inl t ↦ rw t h
  | inr f ↦ elim (Bool-cases (ltb i j)) [
    | inl l ↦
        rw (f, l)
          (
            (
              ltb→lt i j l,
              All-map (λ k. j < k) (λ k. i < k) xs (λ k m. omega (arith, m, ltb→lt i j l)) h.0,
            ),
            h,
          )
    | inr g ↦
        rw (f, g)
          (All-add_slot (λ k. j < k) i xs h.0 (ground (arith, f, g)), add_slot-Rising i xs h.1)
  ]
]

pub elem-add_slot : (k i : ℕ) (xs : List ℕ) → elem k (add_slot i xs) ≡ ((k == i) || elem k xs)
unfolding add_slot
elem-add_slot k i [] = ground arith
elem-add_slot k i (j ∷ xs) = ground (arith, elem-add_slot k i xs)

pub elem-execute :
    (k : ℕ) (index : Option ℕ) (xs : List ℕ) → elem k xs ≡ true → elem k (execute index xs) ≡ true
elem-execute k none xs h = h
elem-execute k (some i) xs h = ground (arith, elem-add_slot k i xs, h)

pub execute-Rising : (index : Option ℕ) (xs : List ℕ) → Rising xs → Rising (execute index xs)
execute-Rising none xs h = h
execute-Rising (some i) xs h = add_slot-Rising i xs h

All-least : (P : ℕ → Type 0) (xs : List ℕ) (i : ℕ) → All P xs → least xs ≡ some i → P i
All-least P [] i h e = cc
All-least P (j ∷ xs) i h e = elim (Option-cases (least xs)) [
  | inl n ↦ subst P (ground arith) h.0
  | inr (k, n) ↦ elim (Bool-cases (leb j k)) [
    | inl l ↦ subst P (ground arith) h.0
    | inr l ↦ All-least P xs i h.1 (ground arith)
  ]
]

All-kept : (p : ℕ → Bool) (xs : List ℕ) → All (λ i. p i ≡ true) (keep p xs)
All-kept p [] = tt
All-kept p (x ∷ xs) = elim (Bool-cases (p x)) [
  | inl t ↦ rw t (t, All-kept p xs)
  | inr f ↦ rw f (All-kept p xs)
]

pub current_index_fresh :
    (slots : List TimeSlot) (executed : List ℕ) (i : ℕ)
    → current_index slots executed ≡ some i
    → elem i executed ≡ false
current_index_fresh slots executed i e = ground (
  arith,
  All-least (λ i. not (elem i executed) ≡ true)
      (keep (λ i. not (elem i executed)) (map (λ s. s.index) slots)) i
      (All-kept (λ i. not (elem i executed)) (map (λ s. s.index) slots)) e,
)

pub current_in :
    (index : Option ℕ) (i : ℕ) (planned : List Allocation)
    → index ≡ some i
    → All (λ a. a.slot_indices ≡ i ∷ []) (current index planned)
current_in none i planned e = cc
current_in (some j) i planned e =
    All-image (λ a. a.slot_indices ≡ i ∷ []) (in_slot j) (keep (λ a. elem j a.slot_indices) planned)
      (All-any (λ a. j ∷ [] ≡ i ∷ []) (keep (λ a. elem j a.slot_indices) planned)
        (λ a. ground (arith, e)))
