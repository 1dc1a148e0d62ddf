-- ===== src/Adapters.antt =====
-- packages/execution/energy.py and packages/execution/compute.py: the adapters that check an action
-- before they hand it to a gateway, which acts on the outside world.
pub mod Gateways
mod Tests
use compute_weaver.Base.{
  ℕ, ◌+◌, Bool, not, Option, none, some, List, [], ◌∷◌, ltb, ◌==◌, if◌then◌else◌, Name, length, any,
  find, elem, err, Method, raise,
}
use compute_weaver.Base.Int.{ℤ, pos, pos_part, neg_part}
use compute_weaver.ActionGuard.{Parameter, number, malformed}

-- an item of the dict `parameters`
pub record Setting : Type 0 where
  pub name : Name
  pub value : Parameter

pub data Error : Type 0 where
  prohibited_field invalid_operation beyond_bound expiry_required key_too_short : Error
  not_allowlisted parameters_required : Error
  gateway_failed : Name → Error

-- `EnergyGateway` and `ComputeGateway`: code that is given
pub record Gateway (World : Type 0) : Type 0 where
  pub preview : Name → Name → List Setting → Method World Error Name
  pub perform : Name → Name → List Setting → Name → Method World Error Name

-- the texts "breaker", "relay", "firmware", "contactor" and "register_address"
abbrev pub prohibited_fields : List Name
prohibited_fields = 101 ∷ 102 ∷ 104 ∷ 105 ∷ 106 ∷ []

-- the texts "dispatch_kw", "valid_until" and "set_dispatch_plan"
abbrev pub dispatch_kw : Name
dispatch_kw = 111

abbrev pub valid_until : Name
valid_until = 112

abbrev pub set_dispatch_plan : Name
set_dispatch_plan = 113

abbrev pub named : Name → Setting → Bool
named n p = p.name == n

abbrev pub value_of : Option Setting → Parameter
value_of none = number (pos 0)
value_of (some p) = p.value

-- `abs(dispatch) > maximum`, for a maximum that is not negative
abbrev pub is_beyond : ℕ → ℤ → Bool
is_beyond maximum v = ltb maximum (pos_part v + neg_part v)

abbrev pub check_dispatch : ℕ → Parameter → Option Error
check_dispatch maximum malformed = some invalid_operation
check_dispatch maximum (number v) = if is_beyond maximum v then some beyond_bound else none

-- the exception of `EnergyPlanAdapter.validate`
pub validate : ℕ → List Setting → Option Error
validate maximum parameters =
    if any (λ f. any (named f) parameters) prohibited_fields
    then some prohibited_field
    else elim (check_dispatch maximum (value_of (find (named dispatch_kw) parameters))) [
      | some e ↦ some e
      | none ↦ if any (named valid_until) parameters then none else some expiry_required
    ]

-- the texts "schedule_job", "cancel_job", "pause_checkpointable_job" and "resume_job"
abbrev pub allowed_kinds : List Name
allowed_kinds = 121 ∷ 122 ∷ 123 ∷ 124 ∷ []

-- the exception of `ComputeActionAdapter._validate`
pub validate_compute : Name → List Setting → Option Error
validate_compute kind parameters =
    if not (elem kind allowed_kinds)
    then some not_allowlisted
    else if length parameters == 0
    then some parameters_required
    else none

abbrev pub checked : {World A : Type 0} → Option Error → Method World Error A → Method World Error A
checked none m w = m w
checked (some e) m w = (err e, w)

-- `len_key` is `len` on keys.
module _ {World : Type 0} (gateway : Gateway World) (len_key : Name → ℕ) where
  pub energy_dry_run : ℕ → Name → List Setting → Method World Error Name
  unfolding validate
  energy_dry_run maximum target parameters =
      checked (validate maximum parameters) (gateway.preview target set_dispatch_plan parameters)

  pub energy_execute : ℕ → Name → List Setting → Name → Method World Error Name
  unfolding validate
  energy_execute maximum target parameters key = checked (validate maximum parameters) (
      if ltb (len_key key) 8
      then raise key_too_short
      else gateway.perform target set_dispatch_plan parameters key)

  pub compute_dry_run : Name → Name → List Setting → Method World Error Name
  unfolding validate_compute
  compute_dry_run target kind parameters =
      checked (validate_compute kind parameters) (gateway.preview target kind parameters)

  pub compute_execute : Name → Name → List Setting → Name → Method World Error Name
  unfolding validate_compute
  compute_execute target kind parameters key = checked (validate_compute kind parameters) (
      if ltb (len_key key) 8
      then raise key_too_short
      else gateway.perform target kind parameters key)
