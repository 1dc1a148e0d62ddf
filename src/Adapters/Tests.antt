-- ===== src/Adapters/Tests.antt =====
-- Runs of packages/execution/energy.py and packages/execution/compute.py on small inputs.
use compute_weaver.Base.{ℕ, ◌+◌, ◌≤◌, ◌≡◌, refl, ◌⊎◌, List, [], ◌∷◌, ok, err}
use compute_weaver.Base.Int.{negsuc}
use compute_weaver.ActionGuard.{number, malformed}
use compute_weaver.Adapters.{
  Setting, beyond_bound, Gateway, dispatch_kw, valid_until, validate, energy_execute,
}
use compute_weaver.Adapters.Gateways.{IsCertified, Refused, energy_execute-IsCertified}

-- a gateway that counts what it performs
abbrev counter : Gateway ℕ
counter = record {
  preview = λ target kind parameters w. (ok 1, w);
  perform = λ target kind parameters key w. (ok 2, w + 1);
}

abbrev discharge_plan : List Setting
discharge_plan =
    record { name = dispatch_kw; value = number (negsuc 39) }
    ∷ record { name = valid_until; value = malformed }
    ∷ []

energy_execute-IsCertified_example :
    (IsCertified 50 discharge_plan
      × (8 ≤ 12)
      × (energy_execute counter (λ k. 12) 50 7 discharge_plan 9 0 ≡ (ok 2, 1)))
    ⊎ Refused 0 (energy_execute counter (λ k. 12) 50 7 discharge_plan 9 0)
energy_execute-IsCertified_example =
    energy_execute-IsCertified counter (λ k. 12) 50 7 discharge_plan 9 0

-- That call is performed, and one past the bound is not.
performed_run :
    (energy_execute counter (λ k. 12) 50 7 discharge_plan 9 0 ≡ (ok 2, 1))
    × (energy_execute counter (λ k. 12) 30 7 discharge_plan 9 0 ≡ (err beyond_bound, 0))
unfolding energy_execute validate
performed_run = (refl, refl)
