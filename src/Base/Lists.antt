-- ===== src/Base/Lists.antt =====
-- Lists over the native numbers.
use Prim.Native.Nat.{ℕ, zero, suc, ◌+◌}
use mathlib.Core.Path.{◌≡◌, refl, subst}
use mathlib.Core.Bool.{Bool, true, false, ◌&&◌, ◌||◌}
use mathlib.Core.Logic.{◌⊎◌, inl, inr}
use mathlib.Core.Option.{Option, none, some}
use mathlib.Core.List.{List, [], ◌∷◌, ◌++◌, map}
use native.Mathlib.Omega.{arith}
use compute_weaver.Base.Tests.{Bool-cases, ltb, ◌==◌, if◌then◌else◌}

module _ {ℓ} {A : Type ℓ} where
  abbrev pub length : List A → ℕ
  length [] = 0
  length (x ∷ xs) = suc (length xs)

  abbrev pub get_elem? : List A → ℕ → Option A
  get_elem? [] i = none
  get_elem? (x ∷ xs) zero = some x
  get_elem? (x ∷ xs) (suc i) = get_elem? xs i

  -- Python's `any` and `all` over a generator
  abbrev pub any : (A → Bool) → List A → Bool
  any p [] = false
  any p (x ∷ xs) = p x || any p xs

  abbrev pub all : (A → Bool) → List A → Bool
  all p [] = true
  all p (x ∷ xs) = p x && all p xs

  abbrev pub keep : (A → Bool) → List A → List A
  keep p [] = []
  keep p (x ∷ xs) = let rest = keep p xs in if p x then x ∷ rest else rest

  -- the first row that passes
  abbrev pub find : (A → Bool) → List A → Option A
  find p [] = none
  find p (x ∷ xs) = if p x then some x else find p xs

  -- Every element satisfies `P`.
  abbrev pub All {κ} : (A → Type κ) → List A → Type κ
  All P [] = Unit
  All P (x ∷ xs) = P x × All P xs

-- stable insertion sort, Python's `sorted(…, key=…)`
module _ {ℓ} {A : Type ℓ} where
  abbrev pub insert_on : (A → ℕ) → A → List A → List A
  insert_on key x [] = x ∷ []
  insert_on key x (y ∷ ys) =
      let rest = insert_on key x ys in if ltb (key y) (key x) then y ∷ rest else x ∷ y ∷ ys

  abbrev pub sort_on : (A → ℕ) → List A → List A
  sort_on key [] = []
  sort_on key (x ∷ xs) = insert_on key x (sort_on key xs)

-- Python's `x in xs`, on names
abbrev pub elem : ℕ → List ℕ → Bool
elem x [] = false
elem x (y ∷ ys) = (x == y) || elem x ys

pub length-append {ℓ} : {A : Type ℓ} (xs ys : List A) → length (xs ++ ys) ≡ length xs + length ys
length-append [] ys = omega arith
length-append (x ∷ xs) ys = omega (arith, length-append xs ys)

pub elem-append : (x : ℕ) (xs ys : List ℕ) → elem x (xs ++ ys) ≡ (elem x xs || elem x ys)
elem-append x [] ys = refl
elem-append x (y ∷ xs) ys = ground (arith, elem-append x xs ys)

module _ {ℓ κ} {A : Type ℓ} (P : A → Type κ) where
  pub All-append : (xs : List A) (x : A) → All P xs → P x → All P (xs ++ x ∷ [])
  All-append [] x h p = (p, tt)
  All-append (y ∷ xs) x h p = (h.0, All-append xs x h.1 p)

  -- what is found is one of the list
  pub All-find : (p : A → Bool) (xs : List A) (x : A) → All P xs → find p xs ≡ some x → P x
  All-find p [] x h e = cc
  All-find p (y ∷ xs) x h e = elim (Bool-cases (p y)) [
    | inl t ↦ subst P (ground arith) h.0
    | inr f ↦ All-find p xs x h.1 (ground arith)
  ]

module _ {ℓ κ} {A : Type ℓ} (P Q : A → Type κ) where
  pub All-map : (xs : List A) → ((x : A) → P x → Q x) → All P xs → All Q xs
  All-map [] f h = tt
  All-map (x ∷ xs) f h = (f x h.0, All-map xs f h.1)

  -- the same from what two predicates say together
  pub All-map₂ {μ} :
      (R : A → Type μ) (xs : List A) → ((x : A) → P x → Q x → R x) → All P xs → All Q xs → All R xs
  All-map₂ R [] f h k = tt
  All-map₂ R (x ∷ xs) f h k = (f x h.0 k.0, All-map₂ R xs f h.1 k.1)

pub List-cases {ℓ} :
    {A : Type ℓ} (xs : List A) → (xs ≡ []) ⊎ ((x : A) × (rest : List A) × (xs ≡ x ∷ rest))
List-cases [] = inl refl
List-cases (x ∷ xs) = inr (x, xs, refl)

module _ {ℓ κ} {A : Type ℓ} (P : A → Type κ) where
  pub All-concat : (xs ys : List A) → All P xs → All P ys → All P (xs ++ ys)
  All-concat [] ys h k = k
  All-concat (x ∷ xs) ys h k = (h.0, All-concat xs ys h.1 k)

  pub All-image {μ} :
      {B : Type μ} (f : B → A) (xs : List B) → All (λ x. P (f x)) xs → All P (map f xs)
  All-image f [] h = tt
  All-image f (x ∷ xs) h = (h.0, All-image f xs h.1)

  pub All-get : (xs : List A) (k : ℕ) (x : A) → All P xs → get_elem? xs k ≡ some x → P x
  All-get [] k x h e = cc
  All-get (y ∷ ys) zero x h e = subst P (ground arith) h.0
  All-get (y ∷ ys) (suc k) x h e = All-get ys k x h.1 e

  -- what holds of every value
  pub All-any : (xs : List A) → ((x : A) → P x) → All P xs
  All-any [] h = tt
  All-any (x ∷ xs) h = (h x, All-any xs h)

module _ {A : Type 0} where
  -- the value is one of the list
  abbrev pub IsAmong : A → List A → Type 0
  IsAmong x [] = ⊥
  IsAmong x (y ∷ ys) = (x ≡ y) ⊎ IsAmong x ys

  pub All-IsAmong : (xs : List A) → All (λ x. IsAmong x xs) xs
  All-IsAmong [] = tt
  All-IsAmong (y ∷ ys) = (
    inl refl,
    All-map (λ x. IsAmong x ys) (λ x. IsAmong x (y ∷ ys)) ys (λ x. inr) (All-IsAmong ys),
  )
