-- ===== src/ActionGuard/Tests.antt =====
-- Runs of packages/execution/action_guard.py on small inputs.
use compute_weaver.Base.{ℕ, ◌≡◌, refl, true, none, some, [], ◌∷◌, err}
use compute_weaver.Base.Int.{pos, negsuc}
use compute_weaver.Base.Dict.{empty, insert}
use compute_weaver.Risk.{l3}
use compute_weaver.Approval.{ApprovalRequest, approved, Moment}
use compute_weaver.ActionGuard.{
  number, malformed, Action, invalid_operation, ActionGuard, basic_reasons, bound_reasons,
  approval_reasons, decide, evaluate,
}
use compute_weaver.ActionGuard.Safety.{IsSafe, evaluate-IsSafe}

abbrev guard : ActionGuard
guard = record { whitelist = 7 ∷ 8 ∷ []; max_age = 300 }

abbrev clock : ℕ → Moment
clock n = record { at = n; aware = true }

abbrev dispatch : Action
dispatch = record {
  plan_id = 31;
  tenant_id = 2;
  kind = 8;
  expected_state_version = 61;
  parameters = insert 71 (number (pos 40)) empty;
  bounds = record { name = 71; minimum = negsuc 99; maximum = pos 100 } ∷ [];
  risk = l3;
  created_at = clock 1000;
}

abbrev granted : ApprovalRequest
granted = record {
  id = 11;
  plan_id = 31;
  tenant_id = 2;
  risk = l3;
  requested_by = 5;
  expires_at = clock 2000;
  required_roles = 9 ∷ [];
  required_count = pos 0;
  approvals = [];
  status = approved;
}

evaluate-IsSafe_example : IsSafe guard dispatch 61 (clock 1200) (some granted)
unfolding evaluate basic_reasons bound_reasons approval_reasons
evaluate-IsSafe_example =
    evaluate-IsSafe guard dispatch 61 (clock 1200) (some granted) (decide []) refl refl

-- A value that is no number is an exception of the guard, not a reason of its decision.
malformed_raises :
    evaluate guard (record dispatch { parameters = insert 71 malformed empty }) 61 (clock 1200) none
    ≡ err invalid_operation
unfolding evaluate bound_reasons
malformed_raises = refl
