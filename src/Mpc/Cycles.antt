-- ===== src/Mpc/Cycles.antt =====
-- What the cycles of packages/mpc/controller.py keep: no slot is executed twice, and every plan that
-- is executed has passed the contract of the schedule for a request.
use mathlib.Core.Path.{subst}
use compute_weaver.Base.Int.{ℤ}
use compute_weaver.Optimization.Accepted.{optimize-accepted}
use compute_weaver.Base.{
  ℕ, ◌+◌, ◌*◌, ◌≡◌, refl, sym, ◌∙◌, ◌≢◌, inl, inr, true, false, Option, none, some, List, [], ◌∷◌,
  ◌++◌, arith, ltb, Bool-cases, Option-cases, length, any, All, elem, length-append, All-append,
  All-map, All-any, IsAmong, All-IsAmong, ok, Result-cases,
}
use compute_weaver.Scheduling.{Allocation, validate_plan}
use compute_weaver.Scheduling.Strategies.{SchedulePlan}
use compute_weaver.Optimization.{OptimizationResult, optimize}
use compute_weaver.Mpc.{
  StateDiff, reconcile, MpcCycle, MpcController, init, Request, is_held, Decision, or_plan,
  fall_back, hold, accept, first_reasons, decide, current_index, current, execute, checked_result,
  finish, cycle, run,
}
use compute_weaver.Mpc.Slots.{
  Rising, elem-add_slot, elem-execute, execute-Rising, current_index_fresh, current_in,
}

-- what a cycle executes lies in slots of `xs`
abbrev pub LiesIn : List ℕ → MpcCycle → Type 0
LiesIn xs d =
    All (λ a. (i : ℕ) × (a.slot_indices ≡ i ∷ []) × (elem i xs ≡ true)) d.current_allocations

-- no slot of one cycle is a slot of the other
abbrev pub Apart : MpcCycle → MpcCycle → Type 0
Apart d e =
    All (λ a. All (λ b. a.slot_indices ≢ b.slot_indices) e.current_allocations)
      d.current_allocations

abbrev pub AllApart : List MpcCycle → Type 0
AllApart [] = Unit
AllApart (d ∷ ds) = All (Apart d) ds × AllApart ds

-- `validate_plan` accepts the plan for the jobs and the slots of the request
abbrev pub Accepts : Request → SchedulePlan → Type 0
Accepts q p = validate_plan q.jobs q.slots p.allocations ≡ ok tt

-- some request accepts the plan
abbrev pub IsChecked : List Request → SchedulePlan → Type 0
IsChecked qs p = (q : Request) × IsAmong q qs × Accepts q p

-- the cycle answers a request, which accepts its plan if that is not held or fallen back to
abbrev pub IsAnswer : List Request → MpcCycle → Type 0
IsAnswer qs d =
    (q : Request) × IsAmong q qs
    × (d.started_at ≡ q.started_at)
    × (d.observed_state ≡ q.observed)
    × (d.fallback_status ≡ none → Accepts q d.new_plan)

-- the cycles are numbered from `n`
abbrev pub IdsFrom : ℕ → List MpcCycle → Type 0
IdsFrom n [] = Unit
IdsFrom n (d ∷ ds) = (d.id ≡ n) × IdsFrom (n + 1) ds

-- for a controller after cycles of these requests
pub record IsController (qs : List Request) (c : MpcController) : Type 0 where
  pub rising : Rising c.executed_slots
  pub counted : c.cycle_sequence ≡ length c.cycles
  pub numbered : IdsFrom 1 c.cycles
  pub safe : (p : SchedulePlan) → c.last_safe ≡ some p → IsChecked qs p
  pub checked : All (λ d. IsChecked qs d.new_plan) c.cycles
  pub answered : All (IsAnswer qs) c.cycles
  pub inside : All (LiesIn c.executed_slots) c.cycles
  pub apart : AllApart c.cycles

-- slots that a controller has executed and one that it has not
LiesIn-Apart :
    (xs : List ℕ) (i : ℕ) (d : MpcCycle) (planned : List Allocation) (index : Option ℕ)
    → LiesIn xs d
    → elem i xs ≡ false
    → All (λ a. a.slot_indices ≡ i ∷ []) (current index planned)
    → All
        (λ a. All (λ b. a.slot_indices ≢ b.slot_indices) (current index planned))
        d.current_allocations
LiesIn-Apart xs i d planned index inside fresh only =
    All-map (λ a. (j : ℕ) × (a.slot_indices ≡ j ∷ []) × (elem j xs ≡ true))
      (λ a. All (λ b. a.slot_indices ≢ b.slot_indices) (current index planned))
      d.current_allocations
      (λ a (j, at, in_xs).
        All-map (λ b. b.slot_indices ≡ i ∷ []) (λ b. a.slot_indices ≢ b.slot_indices)
          (current index planned)
          (λ b only_i same.
            let meet : j ∷ [] ≡ i ∷ [] = sym at ∙ (same ∙ only_i) in
            let eq : j ≡ i = ground arith in ground (arith, eq, in_xs, fresh))
          only)
      inside

AllApart-append :
    (ds : List MpcCycle) (e : MpcCycle)
    → AllApart ds
    → All (λ d. Apart d e) ds
    → AllApart (ds ++ e ∷ [])
AllApart-append [] e h k = (tt, tt)
AllApart-append (d ∷ ds) e h k = (All-append (Apart d) ds e h.0 k.0, AllApart-append ds e h.1 k.1)

IdsFrom-append :
    (n : ℕ) (ds : List MpcCycle) (e : MpcCycle)
    → IdsFrom n ds
    → e.id ≡ n + length ds
    → IdsFrom n (ds ++ e ∷ [])
IdsFrom-append n [] e h k = (ground arith, tt)
IdsFrom-append n (d ∷ ds) e h k = (h.0, IdsFrom-append (n + 1) ds e h.1 (ground arith))

-- what a decision is to be: its plans have passed the contract
abbrev IsSafe : List Request → Request → Decision → Type 0
IsSafe qs q d =
    IsChecked qs d.plan
    × ((p : SchedulePlan) → d.last_safe ≡ some p → IsChecked qs p)
    × (d.fallback ≡ none → Accepts q d.plan)

some-injective : (p x : SchedulePlan) → some p ≡ some x → p ≡ x
some-injective p x e = cc

module _ (qs : List Request) where
  or_plan-IsChecked :
      (previous : Option SchedulePlan) (plan : SchedulePlan)
      → ((p : SchedulePlan) → previous ≡ some p → IsChecked qs p)
      → IsChecked qs plan
      → IsChecked qs (or_plan previous plan)
  or_plan-IsChecked none plan old new = new
  or_plan-IsChecked (some p) plan old new = old p refl

  decide-IsSafe :
      (q : Request) (previous : Option SchedulePlan) (diff : StateDiff)
      (result : OptimizationResult) (d : Decision)
      → IsAmong q qs
      → ((p : SchedulePlan) → previous ≡ some p → IsChecked qs p)
      → ((p : SchedulePlan) → result.plan ≡ some p → Accepts q p)
      → decide previous diff result ≡ ok d
      → IsSafe qs q d
  decide-IsSafe q previous diff result d asked old new e = elim (Option-cases result.plan) [
    | inl n ↦ elim (Option-cases previous) [
      | inl m ↦ ground arith
      | inr (p, m) ↦
          let same : fall_back p (first_reasons diff) result.diagnostics ≡ d = ground arith in
          subst (IsSafe qs q) same (old p m, λ x f. old x (m ∙ f), λ z. absurd cc)
    ]
    | inr (plan, n) ↦
        let checked : IsChecked qs plan = (q, asked, new plan n) in
        elim (Bool-cases (is_held previous plan diff.material)) [
          | inr f ↦
              let same : accept plan (first_reasons diff) ≡ d = ground arith in
              subst (IsSafe qs q) same (
                checked,
                λ x g. subst (IsChecked qs) (some-injective plan x g) checked,
                λ z. new plan n,
              )
          | inl t ↦
              let same : hold previous plan (first_reasons diff) ≡ d = ground arith in
              subst (IsSafe qs q) same
                (or_plan-IsChecked previous plan old checked, old, λ z. absurd cc)
        ]
  ]

LiesIn-execute :
    (index : Option ℕ) (xs : List ℕ) (d : MpcCycle) → LiesIn xs d → LiesIn (execute index xs) d
LiesIn-execute index xs d h =
    All-map (λ a. (i : ℕ) × (a.slot_indices ≡ i ∷ []) × (elem i xs ≡ true))
      (λ a. (i : ℕ) × (a.slot_indices ≡ i ∷ []) × (elem i (execute index xs) ≡ true))
      d.current_allocations (λ a (i, at, k). (i, at, elem-execute i index xs k)) h

current-LiesIn :
    (index : Option ℕ) (xs : List ℕ) (planned : List Allocation)
    → All
        (λ a. (i : ℕ) × (a.slot_indices ≡ i ∷ []) × (elem i (execute index xs) ≡ true))
        (current index planned)
current-LiesIn none xs planned = tt
current-LiesIn (some i) xs planned =
    All-map (λ a. a.slot_indices ≡ i ∷ [])
      (λ a. (j : ℕ) × (a.slot_indices ≡ j ∷ []) × (elem j (execute (some i) xs) ≡ true))
      (current (some i) planned) (λ a at. (i, at, ground (arith, elem-add_slot i i xs)))
      (current_in (some i) i planned refl)

current-Apart :
    (index : Option ℕ) (xs : List ℕ) (d : MpcCycle) (planned : List Allocation)
    → ((i : ℕ) → index ≡ some i → elem i xs ≡ false)
    → LiesIn xs d
    → All
        (λ a. All (λ b. a.slot_indices ≢ b.slot_indices) (current index planned))
        d.current_allocations
current-Apart none xs d planned fresh h =
    All-any (λ (a : Allocation). All (λ (b : Allocation). a.slot_indices ≢ b.slot_indices) [])
      d.current_allocations (λ a. tt)
current-Apart (some i) xs d planned fresh h =
    LiesIn-Apart xs i d planned (some i) h (fresh i refl) (current_in (some i) i planned refl)

module _ (hundredth : ℕ) (qs : List Request) where
  finish-IsController :
      (q : Request) (diff : StateDiff) (d : Decision) (c : MpcController)
      → IsAmong q qs
      → IsController qs c
      → IsSafe qs q d
      → IsController qs (finish hundredth q diff d c).1
  unfolding finish
  finish-IsController q diff d c asked h safe =
      let index = current_index q.slots c.executed_slots in
      let done = (finish hundredth q diff d c).0 in
      record {
        rising = execute-Rising index c.executed_slots h.rising;
        counted = omega (arith, h.counted, length-append c.cycles (done ∷ []));
        numbered = IdsFrom-append 1 c.cycles done h.numbered (omega (arith, h.counted));
        safe = safe.1;
        checked = All-append (λ x. IsChecked qs x.new_plan) c.cycles done h.checked safe.0;
        answered = All-append (IsAnswer qs) c.cycles done h.answered (q, asked, refl, refl, safe.2);
        inside =
            All-append (LiesIn (execute index c.executed_slots)) c.cycles done
              (All-map (LiesIn c.executed_slots) (LiesIn (execute index c.executed_slots)) c.cycles
                (LiesIn-execute index c.executed_slots) h.inside)
              (current-LiesIn index c.executed_slots d.plan.allocations);
        apart = AllApart-append c.cycles done h.apart (
            All-map (LiesIn c.executed_slots) (λ x. Apart x done) c.cycles
              (λ x k.
                current-Apart index c.executed_slots x d.plan.allocations
                  (current_index_fresh q.slots c.executed_slots) k)
              h.inside);
      }

  checked_result-Accepts :
      (q : Request) (result : OptimizationResult) (p : SchedulePlan)
      → optimize q.input_hash q.jobs q.slots q.is_late ≡ ok result
      → (checked_result hundredth q.observed result).plan ≡ some p
      → Accepts q p
  checked_result-Accepts q result p e f =
      elim (Bool-cases (ltb q.observed.data_quality (60 * hundredth))) [
        | inl t ↦ ground arith
        | inr g ↦ optimize-accepted q.input_hash q.jobs q.slots q.is_late result p e (ground arith)
      ]

  cycle-IsController :
      (q : Request) (c : MpcController)
      → IsAmong q qs
      → IsController qs c
      → IsController qs (cycle hundredth q c).1
  unfolding cycle
  cycle-IsController q c asked h =
      elim (Bool-cases (any (λ s. elem s.index c.executed_slots) q.slots)) [
        | inl t ↦ rw (t, cycle) h
        | inr f ↦ elim (Result-cases (optimize q.input_hash q.jobs q.slots q.is_late)) [
          | inr (x, e) ↦ rw (f, e, cycle) h
          | inl (result, e) ↦
              let diff = reconcile hundredth q.planned_progress q.observed in
              elim (Result-cases
                (decide c.last_safe diff (checked_result hundredth q.observed result))) [
                  | inr (x, g) ↦ rw (f, e, g, cycle) h
                  | inl (d, g) ↦
                      rw (f, e, g, cycle)
                        (finish-IsController q diff d c asked h (
                          decide-IsSafe qs q c.last_safe diff
                            (checked_result hundredth q.observed result) d asked h.safe
                            (λ p. checked_result-Accepts q result p e) g))
                ]
        ]
      ]

  init-IsController : (penalty : ℤ) → IsController qs (init penalty)
  unfolding Rising
  init-IsController penalty = record {
    rising = tt;
    counted = refl;
    numbered = tt;
    safe = λ p e. cc;
    checked = tt;
    answered = tt;
    inside = tt;
    apart = tt;
  }

  run-keeps :
      (rs : List Request) (c : MpcController)
      → All (λ q. IsAmong q qs) rs
      → IsController qs c
      → IsController qs (run hundredth rs c)
  unfolding run
  run-keeps [] c asked h = h
  run-keeps (q ∷ rs) c asked h =
      run-keeps rs (cycle hundredth q c).1 asked.1 (cycle-IsController q c asked.0 h)

-- From a new controller, after cycles of any requests, raising or not: the executed slots rise, so
-- none stands twice; the cycles are numbered 1, 2, ...; what a cycle executes lies in one executed
-- slot, and no two cycles execute in the same slot; `validate_plan` accepts the plan of every cycle,
-- and the last safe plan, for the jobs and slots of one of the requests; and each cycle has the start
-- and the observed state of one of them, which itself accepts the plan unless that was held or
-- fallen back to.
pub run-IsController :
    (hundredth : ℕ) (qs : List Request) (penalty : ℤ)
    → IsController qs (run hundredth qs (init penalty))
run-IsController hundredth qs penalty =
    run-keeps hundredth qs qs (init penalty) (All-IsAmong qs)
      (init-IsController hundredth qs penalty)
