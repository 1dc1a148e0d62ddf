-- ===== src/Optimization/Placements.antt =====
-- The placements of jobs that the search of packages/optimization/engine.py runs through, and what
-- a call of `search` does to the best of them.
use compute_weaver.Base.{
  ℕ, zero, suc, ◌≡◌, ◌⊎◌, inl, inr, true, false, Option, some, List, [], ◌∷◌, ◌++◌, arith,
  get_elem?, ok,
}
use compute_weaver.Base.Int.{ℤ, leb_ℤ, ◌+ℤ◌}
use compute_weaver.Scheduling.{TimeSlot, Job}
use compute_weaver.Optimization.{
  JobOptions, with_options, Best, Search, occupy_slots, has_room, choice_cost,
}

module _ (slots : List TimeSlot) where
  -- Each job, in order, gets one of its choices, in slots that still have room, and with the costs of
  -- all of them `running` becomes `cost`.
  unfoldable pub Completes : List JobOptions → (ℕ → ℕ) → ℤ → List (List ℕ) → ℤ → Type 0
  unfolding choice_cost
  Completes [] used running placed cost = (placed ≡ []) × (cost ≡ running)
  Completes (o ∷ os) used running placed cost =
      (k : ℕ) × (choice : List ℕ) × (rest : List (List ℕ)) × (z : ℤ) × (get_elem? o.choices k
        ≡ some choice)
      × (placed ≡ choice ∷ rest)
      × (has_room slots used o.job.gpu_count choice ≡ true)
      × (choice_cost slots o.job choice ≡ ok z)
      × Completes os (occupy_slots o.job.gpu_count choice used) (running +ℤ z) rest cost

  module _ (job : Job) (c : List ℕ) (cs : List (List ℕ)) (os : List JobOptions) where
    pub Completes-head :
        (used : ℕ → ℕ) (running : ℤ) (placed : List (List ℕ)) (cost : ℤ)
        → Completes (with_options job (c ∷ []) ∷ os) used running placed cost
        → Completes (with_options job (c ∷ cs) ∷ os) used running placed cost
    unfolding Completes
    Completes-head used running placed cost (zero, d, rest, z, at, p, room, paid, h) =
        (zero, d, rest, z, at, p, room, paid, h)
    Completes-head used running placed cost (suc k, d, rest, z, at, p, room, paid, h) = cc

    pub Completes-tail :
        (used : ℕ → ℕ) (running : ℤ) (placed : List (List ℕ)) (cost : ℤ)
        → Completes (with_options job cs ∷ os) used running placed cost
        → Completes (with_options job (c ∷ cs) ∷ os) used running placed cost
    unfolding Completes
    Completes-tail used running placed cost (k, d, rest, z, at, p, room, paid, h) =
        (suc k, d, rest, z, at, p, room, paid, h)

    pub Completes-cases :
        (used : ℕ → ℕ) (running : ℤ) (placed : List (List ℕ)) (cost : ℤ)
        → Completes (with_options job (c ∷ cs) ∷ os) used running placed cost
        → Completes (with_options job (c ∷ []) ∷ os) used running placed cost
          ⊎ Completes (with_options job cs ∷ os) used running placed cost
    unfolding Completes
    Completes-cases used running placed cost (zero, d, rest, z, at, p, room, paid, h) =
        inl (zero, d, rest, z, at, p, room, paid, h)
    Completes-cases used running placed cost (suc k, d, rest, z, at, p, room, paid, h) =
        inr (k, d, rest, z, at, p, room, paid, h)

  -- there is a best placement, which costs at most `x`
  abbrev pub Below : Option Best → ℤ → Type 0
  Below best x = (b : Best) × (best ≡ some b) × (leb_ℤ b.cost x ≡ true)

  pub Below-le : (best : Option Best) (x y : ℤ) → Below best x → leb_ℤ x y ≡ true → Below best y
  Below-le best x y (b, e, l) m = (b, e, ground (arith, l, m))

  -- what a search from `s` to `s'` has done
  pub record Explored (os : List JobOptions) (current : List (List ℕ)) (used : ℕ → ℕ) (running : ℤ)
      (s s' : Search) : Type 0 where
    pub in_time : s'.timed_out ≡ false → s.timed_out ≡ false
    pub lower : (b : Best) → s.best ≡ some b → Below s'.best b.cost
    pub sound :
        (s'.best ≡ s.best)
        ⊎ ((placed : List (List ℕ)) × (cost : ℤ) × Completes os used running placed cost
            × (s'.best ≡ some (record { cost = cost; choices = current ++ placed })))
    pub covered :
        s'.timed_out ≡ false
        → (placed : List (List ℕ)) (cost : ℤ) → Completes os used running placed cost
        → Below s'.best cost
