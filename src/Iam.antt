-- ===== src/Iam.antt =====
-- packages/iam/service.py: whether an identity may act on a tenant's resource.
pub mod Grants
mod Tests
use compute_weaver.Base.{
  ℕ, Bool, true, false, not, ◌&&◌, Option, none, some, List, [], ◌∷◌, leb, ◌==◌, if◌then◌else◌,
  Name, any, elem, Result, ok, err,
}
use compute_weaver.Base.Dict.{Dict}

pub record Identity : Type 0 where
  pub subject : Name
  pub tenant_id : Name
  pub roles : List Name
  pub attributes : Dict Name
  pub token_expires_at : ℕ
  pub service_account : Bool

-- an item of `required_attributes`
pub record Requirement : Type 0 where
  pub name : Name
  pub expected : Name

pub record Policy : Type 0 where
  pub action : Name
  pub allowed_roles : List Name
  pub required_attributes : List Requirement
  pub allow_service_accounts : Bool

pub data Error : Type 0 where
  token_expired cross_tenant service_account_refused role_refused : Error
  attribute_refused : Name → Error

-- `identity.attributes.get(name) == expected`
abbrev pub holds : Option Name → Name → Bool
holds none v = false
holds (some w) v = w == v

pub first_unmet : Dict Name → List Requirement → Option Name
first_unmet attributes [] = none
first_unmet attributes (q ∷ qs) =
    let rest = first_unmet attributes qs in
    if holds (attributes q.name) q.expected then rest else some q.name

abbrev pub shares : List Name → List Name → Bool
shares roles allowed = any (λ r. elem r allowed) roles

pub authorize : Identity → Policy → Name → ℕ → Result Error Bool
unfolding first_unmet
authorize identity policy resource_tenant now =
    if leb identity.token_expires_at now
    then err token_expired
    else if not (identity.tenant_id == resource_tenant)
    then err cross_tenant
    else if identity.service_account && not policy.allow_service_accounts
    then err service_account_refused
    else if not (shares identity.roles policy.allowed_roles)
    then err role_refused
    else elim (first_unmet identity.attributes policy.required_attributes) [
      | some name ↦ err (attribute_refused name)
      | none ↦ ok true
    ]
