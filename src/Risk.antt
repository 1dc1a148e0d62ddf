-- ===== src/Risk.antt =====
-- packages/risk/classifier.py: the risk of an action.
use compute_weaver.Base.{ℕ, Bool, not, ◌&&◌, ◌||◌, leb, if◌then◌else◌}

-- an `IntEnum`, ordered by its number
pub data RiskLevel : Type 0 where
  l0 l1 l2 l3 l4 : RiskLevel

abbrev pub level : RiskLevel → ℕ
level l0 = 0
level l1 = 1
level l2 = 2
level l3 = 3
level l4 = 4

pub record Traits : Type 0 where
  pub external_write : Bool
  pub energy_action : Bool
  pub reversible : Bool
  pub critical_service_impact : Bool
  pub safety_boundary_change : Bool

unfoldable pub classify : Traits → RiskLevel
classify a =
    if a.safety_boundary_change
    then l4
    else if a.critical_service_impact || (a.energy_action && not a.reversible)
    then l3
    else if a.external_write || a.energy_action
    then l2
    else if not a.reversible
    then l1
    else l0

-- `2 if risk >= L3 else (1 if risk >= L2 else 0)`, in packages/approval/workflow.py
abbrev pub minimum_approvals : RiskLevel → ℕ
minimum_approvals risk = if leb 3 (level risk) then 2 else if leb 2 (level risk) then 1 else 0
