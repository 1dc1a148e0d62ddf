-- ===== src/Adapters/Gateways.antt =====
-- The gateways are reached by checked actions only.
use compute_weaver.Base.{
  ℕ, ◌+◌, ◌≤◌, ◌≡◌, refl, ◌⊎◌, inl, inr, true, false, none, List, arith, ltb, ◌==◌, Name,
  Bool-cases, Option-cases, length, any, find, elem, Result, is_ok,
}
use compute_weaver.Base.Int.{pos_part, neg_part}
use compute_weaver.ActionGuard.{Parameter, number, malformed}
use compute_weaver.Adapters.{
  Setting, Error, Gateway, prohibited_fields, dispatch_kw, valid_until, set_dispatch_plan, named,
  value_of, check_dispatch, validate, allowed_kinds, validate_compute, energy_execute,
  compute_execute,
}

-- a dispatch within the bound
abbrev pub Bounded : ℕ → Parameter → Type 0
Bounded maximum malformed = true ≡ false
Bounded maximum (number v) = pos_part v + neg_part v ≤ maximum

pub record IsCertified (maximum : ℕ) (parameters : List Setting) : Type 0 where
  pub no_switches : any (λ f. any (named f) parameters) prohibited_fields ≡ false
  pub bounded : Bounded maximum (value_of (find (named dispatch_kw) parameters))
  pub expires : any (named valid_until) parameters ≡ true

-- The call was refused before it reached the gateway.
abbrev pub Refused : {World : Type 0} → World → Result Error Name × World → Type 0
Refused w out = (is_ok out.0 ≡ false) × (out.1 ≡ w)

check_dispatch-Bounded :
    (maximum : ℕ) (p : Parameter) → check_dispatch maximum p ≡ none → Bounded maximum p
check_dispatch-Bounded maximum (number v) e = ground arith
check_dispatch-Bounded maximum malformed e = ground arith

validate-IsCertified :
    (maximum : ℕ) (parameters : List Setting)
    → validate maximum parameters ≡ none
    → IsCertified maximum parameters
unfolding validate
validate-IsCertified maximum parameters e = record {
  no_switches = ground arith;
  bounded =
      check_dispatch-Bounded maximum (value_of (find (named dispatch_kw) parameters))
        (ground arith);
  expires = ground arith;
}

module _ {World : Type 0} (gateway : Gateway World) (len_key : Name → ℕ) where
  -- An energy action reaches the gateway only with no low-level field, a dispatch within the
  -- adapter's bound, an expiry and a key of at least eight letters; then the gateway's answer is
  -- passed on. Any other call raises, and changes nothing.
  pub energy_execute-IsCertified :
      (maximum : ℕ) (target : Name) (parameters : List Setting) (key : Name) (w : World)
      → (IsCertified maximum parameters
          × (8 ≤ len_key key)
          × (energy_execute gateway len_key maximum target parameters key w
              ≡ gateway.perform target set_dispatch_plan parameters key w))
        ⊎ Refused w (energy_execute gateway len_key maximum target parameters key w)
  unfolding energy_execute
  energy_execute-IsCertified maximum target parameters key w =
      elim (Option-cases (validate maximum parameters)) [
        | inr (x, n) ↦ inr (rw n (refl, refl))
        | inl n ↦ elim (Bool-cases (ltb (len_key key) 8)) [
          | inl b ↦ inr (rw (n, b) (refl, refl))
          | inr b ↦ inl (validate-IsCertified maximum parameters n, ground arith, rw (n, b))
        ]
      ]

  -- A compute action reaches the gateway only with a kind of the allowlist, with parameters and a key
  -- of at least eight letters; then the gateway's answer is passed on. Any other call raises, and
  -- changes nothing.
  pub compute_execute-allowed :
      (target kind : Name) (parameters : List Setting) (key : Name) (w : World)
      → ((elem kind allowed_kinds ≡ true)
          × (1 ≤ length parameters)
          × (8 ≤ len_key key)
          × (compute_execute gateway len_key target kind parameters key w
              ≡ gateway.perform target kind parameters key w))
        ⊎ Refused w (compute_execute gateway len_key target kind parameters key w)
  unfolding compute_execute validate_compute
  compute_execute-allowed target kind parameters key w =
      elim (Bool-cases (elem kind allowed_kinds)) [
        | inr a ↦ inr (rw a (refl, refl))
        | inl a ↦ elim (Bool-cases (length parameters == 0)) [
          | inl z ↦ inr (rw (a, z) (refl, refl))
          | inr z ↦ elim (Bool-cases (ltb (len_key key) 8)) [
            | inl b ↦ inr (rw (a, z, b) (refl, refl))
            | inr b ↦ inl (a, ground arith, ground arith, rw (a, z, b))
          ]
        ]
      ]
