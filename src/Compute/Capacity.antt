-- ===== src/Compute/Capacity.antt =====
-- Reserved GPUs are not offered a second time.
use compute_weaver.Base.{
  ℕ, ◌+◌, ◌≤◌, ◌≡◌, refl, ap, inl, inr, true, false, List, [], ◌∷◌, ◌++◌, arith, ◌==◌,
  if◌then◌else◌, Name, Bool-cases, ==→eq, length, any, all, elem, length-append, elem-append, ok,
}
use compute_weaver.Compute.{
  ComputeNode, Reservation, ComputeSnapshot, count_free, count_ready, schedulable_gpu_count,
  has_duplicates, all_gpus, reserved_gpus, Observed, build,
}

-- how often `x` stands in a list
count_of : Name → List Name → ℕ
count_of x [] = 0
count_of x (y ∷ ys) = let rest = count_of x ys in if x == y then rest + 1 else rest

-- how many of a list are in `taken`
count_in : List Name → List Name → ℕ
count_in taken [] = 0
count_in taken (y ∷ ys) = let rest = count_in taken ys in if elem y taken then rest + 1 else rest

count_of-elem : (x : Name) (ys : List Name) → elem x ys ≡ true → 1 ≤ count_of x ys
unfolding count_of
count_of-elem x [] e = ground arith
count_of-elem x (y ∷ ys) e = ground (arith, count_of-elem x ys)

count_in-cons :
    (x : Name) (xs ys : List Name)
    → elem x xs ≡ false
    → count_in (x ∷ xs) ys ≡ count_in xs ys + count_of x ys
unfolding count_in count_of
count_in-cons x xs [] e = refl
count_in-cons x xs (y ∷ ys) e = elim (Bool-cases (x == y)) [
  | inl h ↦ ground (arith, count_in-cons x xs ys e, ap (λ z. elem z xs) (==→eq x y h))
  | inr h ↦ ground (arith, count_in-cons x xs ys e)
]

-- Of distinct elements of a list, that list has at least as many.
length-le-count_in :
    (xs ys : List Name)
    → has_duplicates xs ≡ false
    → all (λ x. elem x ys) xs ≡ true
    → length xs ≤ count_in xs ys
unfolding has_duplicates
length-le-count_in [] ys d e = ground arith
length-le-count_in (x ∷ xs) ys d e =
    ground (arith, length-le-count_in xs ys, count_in-cons x xs ys, count_of-elem x ys)

elem-reserved :
    (g : Name) (rs : List Reservation) → elem g (reserved_gpus rs) ≡ any (λ r. elem g r.gpu_ids) rs
unfolding reserved_gpus
elem-reserved g [] = refl
elem-reserved g (r ∷ rs) =
    ground (arith, elem-reserved g rs, elem-append g r.gpu_ids (reserved_gpus rs))

count_free-count_in :
    (rs : List Reservation) (gs : List Name)
    → count_free rs gs + count_in (reserved_gpus rs) gs ≡ length gs
unfolding count_free count_in
count_free-count_in rs [] = refl
count_free-count_in rs (g ∷ gs) = ground (arith, count_free-count_in rs gs, elem-reserved g rs)

count_in-append :
    (taken xs ys : List Name) → count_in taken (xs ++ ys) ≡ count_in taken xs + count_in taken ys
unfolding count_in
count_in-append taken [] ys = ground arith
count_in-append taken (x ∷ xs) ys = ground (arith, count_in-append taken xs ys)

count_ready-le :
    (rs : List Reservation) (nodes : List ComputeNode)
    → count_ready rs nodes + count_in (reserved_gpus rs) (all_gpus nodes) ≤ length (all_gpus nodes)
unfolding count_ready all_gpus count_in
count_ready-le rs [] = ground arith
count_ready-le rs (n ∷ nodes) = ground (
  arith,
  count_ready-le rs nodes,
  count_free-count_in rs n.gpus,
  count_in-append (reserved_gpus rs) n.gpus (all_gpus nodes),
  length-append n.gpus (all_gpus nodes),
)

-- In a snapshot that was built, the GPUs that can be scheduled and the reserved ones together are no
-- more than the nodes have.
pub build-schedulable :
    (second : ℕ) (tenant_id : Name) (nodes : List ComputeNode) (reservations : List Reservation)
    (observed_at now : ℕ) (scheduler telemetry : List Observed) (snapshot : ComputeSnapshot)
    → build second tenant_id nodes reservations observed_at now scheduler telemetry ≡ ok snapshot
    → schedulable_gpu_count snapshot + length (reserved_gpus snapshot.reservations)
      ≤ length (all_gpus snapshot.nodes)
unfolding build schedulable_gpu_count
build-schedulable second tenant_id nodes reservations observed_at now scheduler telemetry snapshot
      e =
    ground (
      arith,
      count_ready-le reservations nodes,
      length-le-count_in (reserved_gpus reservations) (all_gpus nodes),
    )
