-- ===== src/Optimization/Steps.antt =====
-- What the steps of the search of packages/optimization/engine.py do, if no price is negative.
use compute_weaver.Base.{
  ℕ, zero, suc, ◌≡◌, refl, sym, ap, ◌∙◌, inl, inr, Bool, true, false, Option, none, some, List, [],
  ◌∷◌, ◌++◌, arith, Bool-cases, Option-cases, get_elem?, All, ok, Result-cases,
}
use mathlib.Core.Path.{subst, sym}
use mathlib.Core.List.{append_assoc, append-nil}
use compute_weaver.Base.Int.{
  ℤ, pos, leb_ℤ, ◌+ℤ◌, scale, leb-add, leb_add_zero, leb_trans, leb-scale,
}
use compute_weaver.Scheduling.{TimeSlot, Job}
use compute_weaver.Optimization.{
  JobOptions, with_options, Best, Search, no_search, read_clock, is_pruned, improve, occupy_slots,
  has_room, slot_energy, choice_cost, Step, attempt, attempt_each, enter, explore, found,
}
use compute_weaver.Optimization.Placements.{
  Completes, Completes-head, Completes-tail, Completes-cases, Below, Below-le, Explored,
}

abbrev pub IsPriced : TimeSlot → Type 0
IsPriced s = leb_ℤ (pos 0) s.price_per_kwh ≡ true

get_elem-All :
    (P : TimeSlot → Type 0) (slots : List TimeSlot) (i : ℕ) (s : TimeSlot)
    → All P slots
    → get_elem? slots i ≡ some s
    → P s
get_elem-All P [] i s h e = cc
get_elem-All P (t ∷ slots) zero s h e = subst P (ground arith) h.0
get_elem-All P (t ∷ slots) (suc i) s h e = get_elem-All P slots i s h.1 e

module _ (slots : List TimeSlot) (priced : All IsPriced slots) where
  choice_cost_le :
      (job : Job) (choice : List ℕ) (z : ℤ)
      → choice_cost slots job choice ≡ ok z
      → leb_ℤ (pos 0) z ≡ true
  unfolding choice_cost
  choice_cost_le job [] z e = ground arith
  choice_cost_le job (i ∷ choice) z e = elim (Option-cases (get_elem? slots i)) [
    | inl n ↦ ground arith
    | inr (s, n) ↦ elim (Result-cases (choice_cost slots job choice)) [
      | inr (x, m) ↦ ground arith
      | inl (w, m) ↦
          let price = scale (slot_energy slots job s) s.price_per_kwh in
          let total : price +ℤ w ≡ z = ground arith in
          simp total at (
            leb_add_zero price w
              (leb-scale (slot_energy slots job s) s.price_per_kwh
                (get_elem-All IsPriced slots i s priced n))
              (choice_cost_le job choice w m))
    ]
  ]

  Completes-le :
      (os : List JobOptions) (used : ℕ → ℕ) (running : ℤ) (placed : List (List ℕ)) (cost : ℤ)
      → Completes slots os used running placed cost
      → leb_ℤ running cost ≡ true
  unfolding Completes
  Completes-le [] used running placed cost (p, e) = ground (arith, e)
  Completes-le (o ∷ os) used running placed cost (k, c, rest, z, at, p, room, paid, h) =
      leb_trans running (running +ℤ z) cost (leb-add running z (choice_cost_le o.job c z paid))
        (Completes-le os (occupy_slots o.job.gpu_count c used) (running +ℤ z) rest cost h)

  -- one choice, then the others of the same job
  Explored-cons :
      (job : Job) (c : List ℕ) (cs : List (List ℕ)) (os : List JobOptions) (current : List (List ℕ))
      (used : ℕ → ℕ) (running : ℤ) (s s₁ s' : Search)
      → Explored slots (with_options job (c ∷ []) ∷ os) current used running s s₁
      → Explored slots (with_options job cs ∷ os) current used running s₁ s'
      → Explored slots (with_options job (c ∷ cs) ∷ os) current used running s s'
  unfolding Completes
  Explored-cons job c cs os current used running s s₁ s' h k = record {
    in_time = λ e. h.in_time (k.in_time e);
    lower = λ b e.
        let (b₁, e₁, l₁) = h.lower b e in Below-le slots s'.best b₁.cost b.cost (k.lower b₁ e₁) l₁;
    sound = elim k.sound [
      | inr (placed, cost, found, e) ↦
          inr (placed, cost, Completes-tail slots job c cs os used running placed cost found, e)
      | inl same ↦ elim h.sound [
        | inl same₁ ↦ inl (same ∙ same₁)
        | inr (placed, cost, found, e) ↦ inr (
          placed,
          cost,
          Completes-head slots job c cs os used running placed cost found,
          same ∙ e,
        )
      ]
    ];
    covered = λ e placed cost found.
        elim (Completes-cases slots job c cs os used running placed cost found) [
          | inr tail ↦ k.covered e placed cost tail
          | inl head ↦
              let (b, e₁, l) = h.covered (k.in_time e) placed cost head in
              Below-le slots s'.best b.cost cost (k.lower b e₁) l
        ];
  }

  -- what `search` is to do, for a step of it
  abbrev Explores : List JobOptions → Step slots → Type 0
  Explores os next =
      (current : List (List ℕ)) (used : ℕ → ℕ) (running : ℤ) (s s' : Search)
      → next current used running s ≡ ok s'
      → Explored slots os current used running s s'

  -- nothing is done, and nothing is left to do
  Explored-none :
      (os : List JobOptions) (current : List (List ℕ)) (used : ℕ → ℕ) (running : ℤ) (s s' : Search)
      → s ≡ s'
      → ((placed : List (List ℕ)) (cost : ℤ)
          → Completes slots os used running placed cost
          → Below slots s.best cost)
      → Explored slots os current used running s s'
  Explored-none os current used running s s' e h =
      subst (Explored slots os current used running s) e (record {
        in_time = λ t. t;
        lower = λ b f. (b, f, ground arith);
        sound = inl refl;
        covered = λ t. h;
      })

  no_room :
      (job : Job) (c : List ℕ) (os : List JobOptions) (used : ℕ → ℕ) (running : ℤ)
      (best : Option Best) (placed : List (List ℕ)) (cost : ℤ)
      → Completes slots (with_options job (c ∷ []) ∷ os) used running placed cost
      → has_room slots used job.gpu_count c ≡ false
      → Below slots best cost
  unfolding Completes
  no_room job c os used running best placed cost (zero, d, rest, z, at, p, room, paid, h) full =
      let same : c ≡ d = ground arith in cc (full, room, same)
  no_room job c os used running best placed cost (suc k, d, rest, z, at, p, room, paid, h) full = cc

  only_choice :
      (job : Job) (c : List ℕ) (os : List JobOptions) (used : ℕ → ℕ) (running z : ℤ)
      (placed : List (List ℕ)) (cost : ℤ)
      → choice_cost slots job c ≡ ok z
      → Completes slots (with_options job (c ∷ []) ∷ os) used running placed cost
      → (rest : List (List ℕ)) × Completes slots os
          (occupy_slots job.gpu_count c used)
          (running +ℤ z)
          rest
          cost
  unfolding Completes
  only_choice job c os used running z placed cost e (suc k, d, rest, y, at, p, room, paid, h) = cc
  only_choice job c os used running z placed cost e (zero, d, rest, y, at, p, room, paid, h) =
      let same : d ≡ c = ground arith in
      let there : choice_cost slots job c ≡ ok y =
        subst (λ q. choice_cost slots job q ≡ ok y) same paid in
      let price : y ≡ z = ground (arith, there, e) in
      (
        rest,
        subst (λ q. Completes slots os (occupy_slots job.gpu_count q used) (running +ℤ z) rest cost)
            same
            (subst
              (λ q. Completes slots os (occupy_slots job.gpu_count d used) (running +ℤ q) rest cost)
              price h),
      )

  Explored-one :
      (job : Job) (c : List ℕ) (os : List JobOptions) (current : List (List ℕ)) (used : ℕ → ℕ)
      (running z : ℤ) (s s' : Search)
      → has_room slots used job.gpu_count c ≡ true
      → choice_cost slots job c ≡ ok z
      → Explored slots os
          (current ++ c ∷ [])
          (occupy_slots job.gpu_count c used)
          (running +ℤ z)
          s
          s'
      → Explored slots (with_options job (c ∷ []) ∷ os) current used running s s'
  unfolding Completes
  Explored-one job c os current used running z s s' room paid h = record {
    in_time = h.in_time;
    lower = h.lower;
    sound = elim h.sound [
      | inl same ↦ inl same
      | inr (rest, cost, found, e) ↦ inr (
        c ∷ rest,
        cost,
        (0, c, rest, z, refl, refl, room, paid, found),
        e
            ∙ ap {B = Option Best} (λ x. some (record { cost = cost; choices = x }))
                (append_assoc current (c ∷ []) rest),
      )
    ];
    covered = λ e placed cost found.
        let (rest, found') = only_choice job c os used running z placed cost paid found in
        h.covered e rest cost found';
  }

  attempt-Explores :
      (next : Step slots) (job : Job) (c : List ℕ) (os : List JobOptions)
      → Explores os next
      → Explores (with_options job (c ∷ []) ∷ os) (attempt slots next job c)
  unfolding attempt
  attempt-Explores next job c os h current used running s s' e =
      elim (Bool-cases (has_room slots used job.gpu_count c)) [
        | inr full ↦
            Explored-none (with_options job (c ∷ []) ∷ os) current used running s s' (ground arith)
              (λ placed cost found. no_room job c os used running s.best placed cost found full)
        | inl room ↦ elim (Result-cases (choice_cost slots job c)) [
          | inr (x, m) ↦ ground arith
          | inl (z, m) ↦ Explored-one job c os current used running z s s' room m (
              h (current ++ c ∷ []) (occupy_slots job.gpu_count c used) (running +ℤ z) s s'
                (ground arith))
        ]
      ]

  no_choice :
      (job : Job) (os : List JobOptions) (used : ℕ → ℕ) (running : ℤ) (best : Option Best)
      (placed : List (List ℕ)) (cost : ℤ)
      → Completes slots (with_options job [] ∷ os) used running placed cost
      → Below slots best cost
  unfolding Completes
  no_choice job os used running best placed cost (k, d, rest, y, at, p, room, paid, h) = cc

  attempt_each-Explores :
      (next : Step slots) (job : Job) (cs : List (List ℕ)) (os : List JobOptions)
      → Explores os next
      → Explores (with_options job cs ∷ os) (attempt_each slots next job cs)
  unfolding attempt_each
  attempt_each-Explores next job [] os h current used running s s' e =
      Explored-none (with_options job [] ∷ os) current used running s s' (ground arith)
        (λ placed cost found. no_choice job os used running s.best placed cost found)
  attempt_each-Explores next job (c ∷ cs) os h current used running s s' e =
      elim (Result-cases (attempt slots next job c current used running s)) [
        | inr (x, m) ↦ ground arith
        | inl (s₁, m) ↦
            Explored-cons job c cs os current used running s s₁ s'
              (attempt-Explores next job c os h current used running s s₁ m)
              (attempt_each-Explores next job cs os h current used running s₁ s' (ground arith))
      ]

  -- the same of a step that runs only when the cost is below the best
  abbrev ExploresBelow : List JobOptions → Step slots → Type 0
  ExploresBelow os next =
      (current : List (List ℕ)) (used : ℕ → ℕ) (running : ℤ) (s s' : Search)
      → is_pruned s.best running ≡ false
      → next current used running s ≡ ok s'
      → Explored slots os current used running s s'

  improve-Explored :
      (current : List (List ℕ)) (used : ℕ → ℕ) (running : ℤ) (s : Search)
      → is_pruned s.best running ≡ false
      → Explored slots [] current used running s (improve running current s)
  unfolding Completes
  improve-Explored current used running s below = record {
    in_time = λ t. t;
    lower = λ b f. (record { cost = running; choices = current }, refl, ground arith);
    sound = inr (
      [],
      running,
      (refl, refl),
      ap {B = Option Best} (λ x. some (record { cost = running; choices = x }))
          (sym (append-nil current)),
    );
    covered = λ t placed cost found.
        (record { cost = running; choices = current }, refl, ground (arith, found.1));
  }

  improve-Explores : ExploresBelow [] (λ current used running s. ok (improve running current s))
  improve-Explores current used running s s' below e =
      let same : improve running current s ≡ s' = ground arith in
      subst (Explored slots [] current used running s) same
        (improve-Explored current used running s below)

  late-Explored :
      (os : List JobOptions) (current : List (List ℕ)) (used : ℕ → ℕ) (running : ℤ) (s : Search)
      → Explored slots os current used running s (read_clock true s)
  late-Explored os current used running s = record {
    in_time = λ t. cc;
    lower = λ b f. (b, f, ground arith);
    sound = inl refl;
    covered = λ t. cc;
  }

  read-Explored :
      (os : List JobOptions) (current : List (List ℕ)) (used : ℕ → ℕ) (running : ℤ) (s s' : Search)
      → Explored slots os current used running (read_clock false s) s'
      → Explored slots os current used running s s'
  read-Explored os current used running s s' h = record {
    in_time = h.in_time;
    lower = h.lower;
    sound = h.sound;
    covered = h.covered;
  }

  pruned-Below :
      (os : List JobOptions) (used : ℕ → ℕ) (running : ℤ) (best : Option Best)
      (placed : List (List ℕ)) (cost : ℤ)
      → is_pruned best running ≡ true
      → Completes slots os used running placed cost
      → Below slots best cost
  pruned-Below os used running none placed cost e found = cc
  pruned-Below os used running (some b) placed cost e found =
      (b, refl, leb_trans b.cost running cost e (Completes-le os used running placed cost found))

  module _ (is_late : ℕ → Bool) where
    enter-Explores :
        (os : List JobOptions) (body : Step slots)
        → ExploresBelow os body
        → Explores os (enter slots is_late body)
    unfolding enter
    enter-Explores os body h current used running s s' e = elim (Bool-cases (is_late s.readings)) [
      | inl late ↦
          subst (Explored slots os current used running s) (ground arith)
            (late-Explored os current used running s)
      | inr early ↦ elim (Bool-cases (is_pruned s.best running)) [
        | inl pruned ↦ subst (Explored slots os current used running s) (ground arith) (
            read-Explored os current used running s (read_clock false s) (
              Explored-none os current used running (read_clock false s) (read_clock false s) refl
                (λ placed cost. pruned-Below os used running s.best placed cost pruned)))
        | inr below ↦
            read-Explored os current used running s s'
              (h current used running (read_clock false s) s' below (ground arith))
      ]
    ]

    explore-Explores : (os : List JobOptions) → Explores os (explore slots is_late os)
    unfolding explore
    explore-Explores [] =
        enter-Explores [] (λ current used running s. ok (improve running current s))
          improve-Explores
    explore-Explores (o ∷ os) =
        enter-Explores (o ∷ os) (attempt_each slots (explore slots is_late os) o.job o.choices)
          (λ current used running s s' below e.
            attempt_each-Explores (explore slots is_late os) o.job o.choices os
              (explore-Explores os) current used running s s' e)

    pub search-Explored :
        (os : List JobOptions) (s : Search)
        → explore slots is_late os [] (λ i. 0) (pos 0) no_search ≡ ok s
        → Explored slots os [] (λ i. 0) (pos 0) no_search s
    search-Explored os s e = explore-Explores os [] (λ i. 0) (pos 0) no_search s e
