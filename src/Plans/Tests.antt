-- ===== src/Plans/Tests.antt =====
-- The life of plan 1, made for the state version 9.
use compute_weaver.Base.{ℕ, ◌≡◌, refl, none, some, List, [], ◌∷◌}
use compute_weaver.Base.Dict.{Dict, empty, insert}
use compute_weaver.Risk.{l2}
use compute_weaver.Plans.{
  PlanState, draft, validated, approved, active, GovernedPlan, Transition, create, transition,
}
use compute_weaver.Plans.Governance.{
  IsGoverned, Call, creating, moving, after_all, plans-IsGoverned,
}

abbrev plan : GovernedPlan
plan = record {
  id = 1;
  tenant_id = 2;
  site_id = 3;
  version = 1;
  state = draft;
  state_version = 9;
  policy_versions = [];
  risk = l2;
  hard_violations = [];
  required_approvers = 1;
  activated_at = none;
}

abbrev move : PlanState → ℕ → Transition
move target version = record {
  plan_id = 1;
  target = target;
  expected_version = version;
  current_state_version = some 9;
  at = some 100;
}

abbrev script : List Call
script =
    creating plan
    ∷ moving (move validated 1)
    ∷ moving (move approved 2)
    ∷ moving (move active 2)
    ∷ moving (move active 3)
    ∷ []

abbrev activated : GovernedPlan
activated = record plan { version = 4; state = active; activated_at = some 100 }

after_script : after_all script empty 1 ≡ some activated
unfolding after_all create transition
after_script = refl

plans-IsGoverned_example : IsGoverned 1 activated
plans-IsGoverned_example = plans-IsGoverned script 1 activated after_script

abbrev waiting : GovernedPlan
waiting = record plan { version = 3; state = approved }

abbrev plans : Dict GovernedPlan
plans = insert 1 waiting empty
