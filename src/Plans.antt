-- ===== src/Plans.antt =====
-- packages/plans/lifecycle.py: the plans of `PlanLifecycle`, which are read and written by id.
pub mod Governance
pub mod Locks
mod Tests
use compute_weaver.Base.{
  ℕ, ◌+◌, Bool, true, false, not, ◌&&◌, Option, none, some, List, ltb, ◌==◌, if◌then◌else◌, Name,
  is_some, length, ok, err, Method,
}
use compute_weaver.Base.Dict.{Dict, insert}
use compute_weaver.Risk.{RiskLevel}

pub data PlanState : Type 0 where
  draft validated pending_approval approved active superseded rejected : PlanState

pub record GovernedPlan : Type 0 where
  pub id : Name
  pub tenant_id : Name
  pub site_id : Name
  pub version : ℕ
  pub state : PlanState
  pub state_version : Name
  pub policy_versions : List Name
  pub risk : RiskLevel
  pub hard_violations : List Name
  pub required_approvers : ℕ
  pub activated_at : Option ℕ

pub data Error : Type 0 where
  already_exists unknown_plan lock_conflict invalid_transition hard_violation stale_state : Error
  not_approved cross_tenant : Error

-- `target in TRANSITIONS[state]`
abbrev pub allows : PlanState → PlanState → Bool
allows draft validated = true
allows draft rejected = true
allows validated pending_approval = true
allows validated approved = true
allows pending_approval approved = true
allows pending_approval rejected = true
allows approved active = true
allows approved rejected = true
allows active superseded = true
allows _ _ = false

abbrev pub is_rejected : PlanState → Bool
is_rejected rejected = true
is_rejected _ = false

abbrev pub is_active : PlanState → Bool
is_active active = true
is_active _ = false

abbrev pub is_approved : PlanState → Bool
is_approved approved = true
is_approved _ = false

abbrev pub has_violations : GovernedPlan → Bool
has_violations plan = ltb 0 (length plan.hard_violations)

-- `current_state_version != plan.state_version`
abbrev pub differs : Option Name → Name → Bool
differs none v = true
differs (some w) v = not (w == v)

pub record Transition : Type 0 where
  pub plan_id : Name
  pub target : PlanState
  pub expected_version : ℕ
  pub current_state_version : Option Name
  pub at : Option ℕ

abbrev pub advance : Transition → GovernedPlan → GovernedPlan
advance t plan = record plan {
  version = plan.version + 1;
  state = t.target;
  activated_at = if is_active t.target then t.at else plan.activated_at;
}

pub create : GovernedPlan → Method (Dict GovernedPlan) Error (Unit {0})
create plan plans =
    if is_some (plans plan.id)
    then (err already_exists, plans)
    else (ok tt, insert plan.id plan plans)

-- the guards of `transition`, in order
pub refusal : Transition → GovernedPlan → Option Error
refusal t plan =
    if not (plan.version == t.expected_version)
    then some lock_conflict
    else if not (allows plan.state t.target)
    then some invalid_transition
    else if has_violations plan && not (is_rejected t.target)
    then some hard_violation
    else if is_active t.target && differs t.current_state_version plan.state_version
    then some stale_state
    else if is_active t.target && not (is_approved plan.state)
    then some not_approved
    else none

pub transition : Transition → Method (Dict GovernedPlan) Error GovernedPlan
unfolding refusal
transition t plans = elim (plans t.plan_id) [
  | none ↦ (err unknown_plan, plans)
  | some plan ↦ elim (refusal t plan) [
    | some e ↦ (err e, plans)
    | none ↦ (ok (advance t plan), insert t.plan_id (advance t plan) plans)
  ]
]

pub get : Name → Name → Method (Dict GovernedPlan) Error GovernedPlan
get plan_id tenant_id plans = elim (plans plan_id) [
  | none ↦ (err unknown_plan, plans)
  | some plan ↦ (if plan.tenant_id == tenant_id then ok plan else err cross_tenant, plans)
]
