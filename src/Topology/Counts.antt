-- ===== src/Topology/Counts.antt =====
-- How often a name stands in a list, and what that says of lengths.
use compute_weaver.Base.{
  ℕ, suc, ◌+◌, ◌-◌, ◌≤◌, ◌≡◌, refl, Bool, List, [], ◌∷◌, ◌++◌, arith, ltb, ◌==◌, if◌then◌else◌,
  length, keep, elem,
}

unfoldable pub count : ℕ → List ℕ → ℕ
count x [] = 0
count x (y ∷ ys) = let rest = count x ys in if y == x then rest + 1 else rest

pub count-append : (x : ℕ) (xs ys : List ℕ) → count x (xs ++ ys) ≡ count x xs + count x ys
unfolding count
count-append x [] ys = ground arith
count-append x (z ∷ xs) ys = ground (arith, count-append x xs ys)

pub elem→count : (x : ℕ) (xs : List ℕ) → elem x xs ≡ ltb 0 (count x xs)
unfolding count
elem→count x [] = refl
elem→count x (y ∷ ys) = ground (arith, elem→count x ys)

pub count-keep :
    (p : ℕ → Bool) (x : ℕ) (xs : List ℕ) → count x (keep p xs) ≡ (if p x then count x xs else 0)
unfolding count
count-keep p x [] = ground arith
count-keep p x (y ∷ ys) = ground (arith, count-keep p x ys)

pub remove_one : ℕ → List ℕ → List ℕ
remove_one x [] = []
remove_one x (y ∷ ys) = let rest = remove_one x ys in if y == x then ys else y ∷ rest

length-remove_one :
    (x : ℕ) (xs : List ℕ) → 1 ≤ count x xs → suc (length (remove_one x xs)) ≡ length xs
unfolding count remove_one
length-remove_one x [] h = ground arith
length-remove_one x (y ∷ ys) h = ground (arith, length-remove_one x ys)

count-remove_one :
    (x z : ℕ) (xs : List ℕ)
    → count z (remove_one x xs) ≡ (if z == x then count z xs - 1 else count z xs)
unfolding count remove_one
count-remove_one x z [] = ground arith
count-remove_one x z (y ∷ ys) = ground (arith, count-remove_one x z ys)

-- `xs` has no name more often than `ys`.
abbrev pub Within : List ℕ → List ℕ → Type 0
Within xs ys = (x : ℕ) → count x xs ≤ count x ys

module _ (x : ℕ) (xs ys : List ℕ) where
  pub Within-rest : Within (x ∷ xs) ys → Within xs (remove_one x ys)
  unfolding count
  Within-rest h z = ground (arith, h z, count-remove_one x z ys)

  pub Within-head : Within (x ∷ xs) ys → 1 ≤ count x ys
  unfolding count
  Within-head h = ground (arith, h x)

pub Within-length : (xs ys : List ℕ) → Within xs ys → length xs ≤ length ys
Within-length [] ys h = omega arith
Within-length (x ∷ xs) ys h = ground (
  arith,
  Within-length xs (remove_one x ys) (Within-rest x xs ys h),
  length-remove_one x ys (Within-head x xs ys h),
)

-- Of two lists of one length neither has more.
pub Within-full : (xs ys : List ℕ) → Within xs ys → length xs ≡ length ys → Within ys xs
unfolding count
Within-full [] [] h e z = omega arith
Within-full [] (y ∷ ys) h e z = ground arith
Within-full (x ∷ xs) ys h e z =
    let removed = length-remove_one x ys (Within-head x xs ys h) in
    ground (
      arith,
      Within-full xs (remove_one x ys) (Within-rest x xs ys h) (omega (arith, removed, e)) z,
      count-remove_one x z ys,
      h z,
      Within-head x xs ys h,
    )

pub Within-antisym : (xs ys : List ℕ) → Within xs ys → Within ys xs → length xs ≡ length ys
Within-antisym xs ys h k = omega (arith, Within-length xs ys h, Within-length ys xs k)
