-- ===== src/Iam/Tests.antt =====
-- Runs of packages/iam/service.py on small inputs.
use compute_weaver.Base.{◌≡◌, refl, ◌↔◌, true, false, [], ◌∷◌, ok}
use compute_weaver.Base.Dict.{empty, insert}
use compute_weaver.Iam.{Identity, Policy, first_unmet, authorize}
use compute_weaver.Iam.Grants.{IsGranted, authorize_iff}

abbrev operator : Identity
operator = record {
  subject = 5;
  tenant_id = 2;
  roles = 9 ∷ [];
  attributes = insert 71 72 empty;
  token_expires_at = 100;
  service_account = false;
}

abbrev run_plans : Policy
run_plans = record {
  action = 6;
  allowed_roles = 8 ∷ 9 ∷ [];
  required_attributes = record { name = 71; expected = 72 } ∷ [];
  allow_service_accounts = false;
}

authorize_iff_example :
    (authorize operator run_plans 2 50 ≡ ok true) ↔ IsGranted operator run_plans 2 50
authorize_iff_example = authorize_iff operator run_plans 2 50

granted_run : authorize operator run_plans 2 50 ≡ ok true
unfolding authorize first_unmet
granted_run = refl
