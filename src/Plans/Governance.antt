-- ===== src/Plans/Governance.antt =====
-- What holds of every plan that began as a draft.
use compute_weaver.Base.{
  ℕ, ◌+◌, ◌≤◌, ◌<◌, ◌≡◌, inl, inr, false, not, ◌&&◌, none, some, List, [], ◌∷◌, arith, ltb, Name,
  Option-cases,
}
use compute_weaver.Base.Dict.{Dict, empty}
use compute_weaver.Plans.{
  PlanState, draft, validated, pending_approval, approved, active, superseded, rejected,
  GovernedPlan, is_rejected, has_violations, Transition, advance, create, refusal, transition,
}

-- how far a plan has come: every transition goes up
abbrev pub rank : PlanState → ℕ
rank draft = 0
rank validated = 1
rank pending_approval = 2
rank approved = 3
rank active = 4
rank superseded = 5
rank rejected = 5

-- A plan that is neither a draft nor rejected has no hard violations; its version, counted from the
-- one that it was created with, is at most its rank; and it has an activation time only if it has
-- been active.
pub record IsGoverned (first : ℕ) (plan : GovernedPlan) : Type 0 where
  pub clean :
      (has_violations plan && ltb 0 (rank plan.state) && not (is_rejected plan.state)) ≡ false
  pub bounded : plan.version ≤ first + rank plan.state
  pub inactive : rank plan.state < 4 → plan.activated_at ≡ none

advance-IsGoverned :
    (first : ℕ) (t : Transition) (plan : GovernedPlan)
    → IsGoverned first plan
    → refusal t plan ≡ none
    → IsGoverned first (advance t plan)
unfolding refusal
advance-IsGoverned first t plan h e = ground arith

pub data Call : Type 0 where
  creating : GovernedPlan → Call
  moving : Transition → Call

-- a new plan, as the API creates it: a draft that has not been active
abbrev pub new_draft : GovernedPlan → GovernedPlan
new_draft plan = record plan { version = 1; state = draft; activated_at = none }

pub after : Call → Dict GovernedPlan → Dict GovernedPlan
after (creating plan) plans = (create (new_draft plan) plans).1
after (moving t) plans = (transition t plans).1

unfoldable pub after_all : List Call → Dict GovernedPlan → Dict GovernedPlan
unfolding after
after_all [] plans = plans
after_all (c ∷ cs) plans = after_all cs (after c plans)

abbrev AllGoverned : Dict GovernedPlan → Type 0
AllGoverned plans = (id : Name) (plan : GovernedPlan) → plans id ≡ some plan → IsGoverned 1 plan

after-AllGoverned :
    (c : Call) (plans : Dict GovernedPlan) → AllGoverned plans → AllGoverned (after c plans)
unfolding after create transition
after-AllGoverned (creating plan) plans h id p e = ground (arith, h id p)
after-AllGoverned (moving t) plans h id p e = elim (Option-cases (plans t.plan_id)) [
  | inl e' ↦ ground (arith, h id p)
  | inr (q, e') ↦ ground (arith, h id p, advance-IsGoverned 1 t q (h t.plan_id q e'))
]

after_all-AllGoverned :
    (cs : List Call) (plans : Dict GovernedPlan)
    → AllGoverned plans
    → AllGoverned (after_all cs plans)
unfolding after_all
after_all-AllGoverned [] plans h = h
after_all-AllGoverned (c ∷ cs) plans h =
    after_all-AllGoverned cs (after c plans) (after-AllGoverned c plans h)

-- Whatever drafts are created (at version 1) and whatever transitions are tried, raising or not: a
-- plan that is validated, pending, approved, active or superseded has no hard violations; a plan
-- takes at most as many transitions as the rank of its state, so five in all; and it has no
-- activation time before it is active.
pub plans-IsGoverned :
    (cs : List Call) (id : Name) (plan : GovernedPlan)
    → after_all cs empty id ≡ some plan
    → IsGoverned 1 plan
plans-IsGoverned cs = after_all-AllGoverned cs empty (λ id plan e. cc)
