-- ===== src/Iam/Grants.antt =====
-- When `authorize` grants an action.
use compute_weaver.Base.{
  ℕ, ◌<◌, ◌≡◌, refl, ◌↔◌, true, none, some, List, [], ◌∷◌, arith, Name, All, ok,
}
use compute_weaver.Base.Dict.{Dict}
use compute_weaver.Iam.{Identity, Requirement, Policy, first_unmet, shares, authorize}

abbrev pub Meets : Dict Name → Requirement → Type 0
Meets attributes q = attributes q.name ≡ some q.expected

abbrev pub IsGranted : Identity → Policy → Name → ℕ → Type 0
IsGranted identity policy resource_tenant now =
    (now < identity.token_expires_at)
    × (identity.tenant_id ≡ resource_tenant)
    × (identity.service_account ≡ true → policy.allow_service_accounts ≡ true)
    × (shares identity.roles policy.allowed_roles ≡ true)
    × All (Meets identity.attributes) policy.required_attributes

unmet-All :
    (attributes : Dict Name) (qs : List Requirement)
    → first_unmet attributes qs ≡ none
    → All (Meets attributes) qs
unfolding first_unmet
unmet-All attributes [] e = tt
unmet-All attributes (q ∷ qs) e = (ground arith, unmet-All attributes qs (ground arith))

All-unmet :
    (attributes : Dict Name) (qs : List Requirement)
    → All (Meets attributes) qs
    → first_unmet attributes qs ≡ none
unfolding first_unmet
All-unmet attributes [] h = refl
All-unmet attributes (q ∷ qs) h = ground (arith, All-unmet attributes qs h.1, h.0)

granted :
    (identity : Identity) (policy : Policy) (resource_tenant : Name) (now : ℕ)
    → authorize identity policy resource_tenant now ≡ ok true
    → IsGranted identity policy resource_tenant now
unfolding authorize
granted identity policy resource_tenant now e = (
  ground arith,
  ground arith,
  λ h. ground arith,
  ground arith,
  unmet-All identity.attributes policy.required_attributes (ground arith),
)

grants :
    (identity : Identity) (policy : Policy) (resource_tenant : Name) (now : ℕ)
    → IsGranted identity policy resource_tenant now
    → authorize identity policy resource_tenant now ≡ ok true
unfolding authorize
grants identity policy resource_tenant now (fresh, same, account, role, met) =
    ground (arith, All-unmet identity.attributes policy.required_attributes met)

-- An action is granted exactly if the token has not expired, the resource is of the identity's
-- tenant, a service account is allowed where the identity is one, some role of the identity is
-- allowed, and every required attribute has its value.
pub authorize_iff :
    (identity : Identity) (policy : Policy) (resource_tenant : Name) (now : ℕ)
    → (authorize identity policy resource_tenant now ≡ ok true)
      ↔ IsGranted identity policy resource_tenant now
authorize_iff identity policy resource_tenant now =
    (granted identity policy resource_tenant now, grants identity policy resource_tenant now)
