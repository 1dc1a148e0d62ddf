-- ===== src/ActionGuard.antt =====
-- packages/execution/action_guard.py: the last check of an action before it is run.
pub mod Safety
mod Tests
use compute_weaver.Base.{
  ℕ, ◌+◌, Bool, true, false, not, ◌&&◌, ◌||◌, Option, none, some, List, [], ◌∷◌, ◌++◌, ltb, leb,
  ◌==◌, if◌then◌else◌, Name, elem, Result, ok, err,
}
use compute_weaver.Base.Int.{ℤ, leb_ℤ}
use compute_weaver.Base.Dict.{Dict}
use compute_weaver.Risk.{RiskLevel, level}
use compute_weaver.Approval.{ApprovalStatus, approved, Moment, ApprovalRequest, mixed}

-- A value of `parameters`: a finite number, or a text that `Decimal` refuses. NaN and infinity, which
-- `Decimal` takes, are left out.
pub data Parameter : Type 0 where
  number : ℤ → Parameter
  malformed : Parameter

-- an item of `bounds`
pub record Bound : Type 0 where
  pub name : Name
  pub minimum : ℤ
  pub maximum : ℤ

-- The fields of `Action` that the guard reads.
pub record Action : Type 0 where
  pub plan_id : Name
  pub tenant_id : Name
  pub kind : Name
  pub expected_state_version : Name
  pub parameters : Dict Parameter
  pub bounds : List Bound
  pub risk : RiskLevel
  pub created_at : Moment

pub data Reason : Type 0 where
  action_not_whitelisted prohibited_low_level_energy_command stale_target_state stale_action :
      Reason
  bound_value_missing bound_violation : Name → Reason
  valid_approval_required approval_scope_mismatch approval_expired : Reason

-- the exceptions of `Decimal` and of the comparison of moments
pub data Error : Type 0 where
  invalid_operation naive_moment : Error

pub record GuardDecision : Type 0 where
  pub allowed : Bool
  pub reasons : List Reason

-- `whitelist` and `max_age`
pub record ActionGuard : Type 0 where
  pub whitelist : List Name
  pub max_age : ℕ

-- the texts "breaker", "relay", "pcs_switch" and "firmware"
abbrev pub prohibited_energy_commands : List Name
prohibited_energy_commands = 101 ∷ 102 ∷ 103 ∷ 104 ∷ []

abbrev pub append_if : Bool → Reason → List Reason → List Reason
append_if c r rest = if c then r ∷ rest else rest

-- the tests before the bounds
pub basic_reasons : ActionGuard → Action → Name → Moment → List Reason
basic_reasons g a version now = append_if (not (elem a.kind g.whitelist)) action_not_whitelisted (
    append_if (elem a.kind prohibited_energy_commands) prohibited_low_level_energy_command (
      append_if (not (version == a.expected_state_version)) stale_target_state
        (append_if (ltb (a.created_at.at + g.max_age) now.at) stale_action [])))

abbrev pub is_within : Bound → ℤ → Bool
is_within b v = leb_ℤ b.minimum v && leb_ℤ v b.maximum

pub bound_reasons : Dict Parameter → List Bound → Result Error (List Reason)
bound_reasons parameters [] = ok []
bound_reasons parameters (b ∷ bounds) =
    let rest = bound_reasons parameters bounds in
    elim (parameters b.name) [
      | some malformed ↦ err invalid_operation
      | none ↦ elim rest [ err e ↦ err e | ok rs ↦ ok (bound_value_missing b.name ∷ rs) ]
      | some (number v) ↦ elim rest [
        | err e ↦ err e
        | ok rs ↦ ok (append_if (not (is_within b v)) (bound_violation b.name) rs)
      ]
    ]

abbrev pub is_approved : ApprovalStatus → Bool
is_approved approved = true
is_approved _ = false

pub approval_reasons : Action → Moment → Option ApprovalRequest → Result Error (List Reason)
approval_reasons a now none = ok (if leb 2 (level a.risk) then valid_approval_required ∷ [] else [])
approval_reasons a now (some r) =
    if not (leb 2 (level a.risk))
    then ok []
    else if not (is_approved r.status)
    then ok (valid_approval_required ∷ [])
    else if not (r.plan_id == a.plan_id) || not (r.tenant_id == a.tenant_id)
    then ok (approval_scope_mismatch ∷ [])
    else if mixed now r.expires_at
    then err naive_moment
    else ok (if leb r.expires_at.at now.at then approval_expired ∷ [] else [])

abbrev pub is_empty : List Reason → Bool
is_empty [] = true
is_empty (_ ∷ _) = false

abbrev pub decide : List Reason → GuardDecision
decide reasons = record { allowed = is_empty reasons; reasons = reasons }

pub evaluate :
    ActionGuard → Action → Name → Moment → Option ApprovalRequest → Result Error GuardDecision
unfolding basic_reasons bound_reasons approval_reasons
evaluate g a version now approval =
    if mixed now a.created_at
    then err naive_moment
    else elim (bound_reasons a.parameters a.bounds) [
      | err e ↦ err e
      | ok bounds ↦ elim (approval_reasons a now approval) [
        | err e ↦ err e
        | ok approvals ↦ ok (decide (basic_reasons g a version now ++ (bounds ++ approvals)))
      ]
    ]
