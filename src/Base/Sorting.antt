-- ===== src/Base/Sorting.antt =====
-- Python's `sorted` and slices of its results, and what they keep.
use Prim.Native.Nat.{ℕ, zero, suc}
use mathlib.Core.Logic.{◌≢◌}
use mathlib.Core.Bool.{Bool, true}
use mathlib.Core.List.{List, [], ◌∷◌}
use mathlib.Core.Path.{◌≡◌, refl, sym}
use native.Mathlib.Omega.{arith}
use mathlib.Core.Logic.{inl, inr}
use compute_weaver.Base.Tests.{if◌then◌else◌, Bool-cases}
use compute_weaver.Base.Lists.{All, keep, length}

module _ {A : Type 0} where
  -- `xs[:n]`
  abbrev pub take : ℕ → List A → List A
  take zero xs = []
  take (suc n) [] = []
  take (suc n) (x ∷ xs) = x ∷ take n xs

  -- The stable insertion sort by an order of keys: `y` stays before `x` if it was before, unless
  -- `x` is smaller.
  unfoldable pub insert_by : (A → A → Bool) → A → List A → List A
  insert_by before x [] = x ∷ []
  insert_by before x (y ∷ ys) =
      let rest = insert_by before x ys in if before y x then y ∷ rest else x ∷ y ∷ ys

  unfoldable pub sort_by : (A → A → Bool) → List A → List A
  unfolding insert_by
  sort_by before [] = []
  sort_by before (x ∷ xs) = insert_by before x (sort_by before xs)

  length-insert_by :
      (before : A → A → Bool) (x : A) (xs : List A)
      → length (insert_by before x xs) ≡ suc (length xs)
  unfolding insert_by
  length-insert_by before x [] = refl
  length-insert_by before x (y ∷ ys) = ground (arith, length-insert_by before x ys)

  pub length-sort_by :
      (before : A → A → Bool) (xs : List A) → length (sort_by before xs) ≡ length xs
  unfolding sort_by
  length-sort_by before [] = refl
  length-sort_by before (x ∷ xs) =
      omega (arith, length-insert_by before x (sort_by before xs), length-sort_by before xs)

  -- No two elements have the same key.
  abbrev pub Distinct : (A → ℕ) → List A → Type 0
  Distinct key [] = Unit
  Distinct key (x ∷ xs) = All (λ y. key y ≢ key x) xs × Distinct key xs

  module _ (P : A → Type 0) where
    pub All-take : (n : ℕ) (xs : List A) → All P xs → All P (take n xs)
    All-take zero xs h = tt
    All-take (suc n) [] h = tt
    All-take (suc n) (x ∷ xs) h = (h.0, All-take n xs h.1)

    All-uninsert_by :
        (before : A → A → Bool) (x : A) (xs : List A)
        → All P (insert_by before x xs)
        → P x × All P xs
    unfolding insert_by
    All-uninsert_by before x [] h = (h.0, tt)
    All-uninsert_by before x (y ∷ ys) h = ground (arith, h, All-uninsert_by before x ys)

    -- what holds of the sorted list holds of the list
    pub All-unsort_by : (before : A → A → Bool) (xs : List A) → All P (sort_by before xs) → All P xs
    unfolding sort_by
    All-unsort_by before [] h = tt
    All-unsort_by before (x ∷ xs) h =
        let (p, rest) = All-uninsert_by before x (sort_by before xs) h in
        (p, All-unsort_by before xs rest)

    pub All-unkeep :
        (p : A → Bool) (xs : List A) → All P (keep p xs) → All (λ x. p x ≡ true → P x) xs
    All-unkeep p [] h = tt
    All-unkeep p (x ∷ xs) h = elim (Bool-cases (p x)) [
      | inl t ↦ let h' = simp t at h in (λ e. h'.0, All-unkeep p xs h'.1)
      | inr f ↦ (λ e. cc, All-unkeep p xs (simp f at h))
    ]

    pub All-kept : (p : A → Bool) (xs : List A) → All (λ x. p x ≡ true → P x) xs → All P (keep p xs)
    All-kept p [] h = tt
    All-kept p (x ∷ xs) h = elim (Bool-cases (p x)) [
      | inl t ↦ rw t (h.0 t, All-kept p xs h.1)
      | inr f ↦ rw f (All-kept p xs h.1)
    ]

    pub All-keep : (p : A → Bool) (xs : List A) → All P xs → All P (keep p xs)
    All-keep p [] h = tt
    All-keep p (x ∷ xs) h = ground (arith, All-keep p xs h.1)

    pub All-insert_by :
        (before : A → A → Bool) (x : A) (xs : List A)
        → P x
        → All P xs
        → All P (insert_by before x xs)
    unfolding insert_by
    All-insert_by before x [] p h = (p, tt)
    All-insert_by before x (y ∷ ys) p h = ground (arith, All-insert_by before x ys p h.1)

    pub All-sort_by : (before : A → A → Bool) (xs : List A) → All P xs → All P (sort_by before xs)
    unfolding sort_by
    All-sort_by before [] h = tt
    All-sort_by before (x ∷ xs) h =
        All-insert_by before x (sort_by before xs) h.0 (All-sort_by before xs h.1)

  module _ (key : A → ℕ) where
    pub Distinct-take : (n : ℕ) (xs : List A) → Distinct key xs → Distinct key (take n xs)
    Distinct-take zero xs h = tt
    Distinct-take (suc n) [] h = tt
    Distinct-take (suc n) (x ∷ xs) h =
        (All-take (λ y. key y ≢ key x) n xs h.0, Distinct-take n xs h.1)

    pub Distinct-keep : (p : A → Bool) (xs : List A) → Distinct key xs → Distinct key (keep p xs)
    Distinct-keep p [] h = tt
    Distinct-keep p (x ∷ xs) h =
        ground (arith, All-keep (λ y. key y ≢ key x) p xs h.0, Distinct-keep p xs h.1)

    Distinct-insert_by :
        (before : A → A → Bool) (x : A) (xs : List A)
        → All (λ y. key y ≢ key x) xs
        → Distinct key xs
        → Distinct key (insert_by before x xs)
    unfolding insert_by
    Distinct-insert_by before x [] a h = (tt, tt)
    Distinct-insert_by before x (y ∷ ys) a h = ground (
      arith,
      Distinct-insert_by before x ys a.1 h.1,
      All-insert_by (λ z. key z ≢ key y) before x ys (λ e. a.0 (sym e)) h.0,
    )

    pub Distinct-sort_by :
        (before : A → A → Bool) (xs : List A) → Distinct key xs → Distinct key (sort_by before xs)
    unfolding sort_by
    Distinct-sort_by before [] h = tt
    Distinct-sort_by before (x ∷ xs) h =
        Distinct-insert_by before x (sort_by before xs)
          (All-sort_by (λ y. key y ≢ key x) before xs h.0) (Distinct-sort_by before xs h.1)
