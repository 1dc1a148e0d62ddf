-- ===== src/Quota.antt =====
-- packages/workloads/quota.py: `QuotaLedger` without a database runtime.
-- Stored amounts are naturals: `reserve` refuses negative demands and `release` stops at 0.
-- GPU hours, a `Decimal`, are counted in the unit of their last decimal place.
pub mod Database
pub mod Service
pub mod Bounds
pub mod Keys
mod Tests
use compute_weaver.Base.{
  ℕ, ◌+◌, ◌-◌, Bool, true, false, not, ◌&&◌, ◌||◌, Option, none, some, ◌==◌, if◌then◌else◌, Name,
  truthy, ok, err, Method, gets, or_raise, raise_if, modify, ◌>>=◌, ◌>>◌,
}
use compute_weaver.Base.Int.{ℤ, pos, pos_part, ltb_ℤ, is_negative, sub_floor}
use compute_weaver.Base.Dict.{Dict, empty, insert, get_or, Dict₂, empty₂, insert₂}

pub record Quota : Type 0 where
  pub max_gpus : ℤ
  pub max_gpu_hours : ℤ
  pub max_concurrent_jobs : ℤ

pub record Usage : Type 0 where
  pub gpus : ℕ
  pub hours : ℕ
  pub jobs : ℕ

pub record Demand : Type 0 where
  pub gpus : ℕ
  pub hours : ℕ

pub data Error : Type 0 where
  negative_limits below_usage negative_demand key_reused key_required no_usage invalid_tenant :
      Error

pub record QuotaLedger : Type 0 where
  pub quotas : Dict Quota
  pub usage : Dict Usage
  pub reservations : Dict₂ Demand

abbrev pub init : QuotaLedger
init = record { quotas = empty; usage = empty; reservations = empty₂ }

abbrev pub unused : Usage
unused = record { gpus = 0; hours = 0; jobs = 0 }

-- `self._usage.get(tenant_id, (0, Decimal(0), 0))`
abbrev pub usage_of : Name → QuotaLedger → Usage
usage_of tenant s = get_or (s.usage tenant) unused

abbrev pub has_negative_limit : Quota → Bool
has_negative_limit quota =
    is_negative quota.max_gpus
    || is_negative quota.max_concurrent_jobs
    || is_negative quota.max_gpu_hours

-- some limit lies below what is given
unfoldable pub exceeds : Usage → Quota → Bool
exceeds used quota =
    ltb_ℤ quota.max_gpus (pos used.gpus)
    || ltb_ℤ quota.max_gpu_hours (pos used.hours)
    || ltb_ℤ quota.max_concurrent_jobs (pos used.jobs)

unfoldable pub configure : Name → Quota → Method QuotaLedger Error (Unit {0})
configure tenant quota = do
  raise_if (has_negative_limit quota) negative_limits
  used ← gets (usage_of tenant)
  raise_if (exceeds used quota) below_usage
  modify (λ s. record s { quotas = insert tenant quota s.quotas })

abbrev pub same_demand : Demand → Demand → Bool
same_demand a b = (a.gpus == b.gpus) && (a.hours == b.hours)

abbrev pub add_job : Usage → Demand → Usage
add_job used d = record {
  gpus = used.gpus + d.gpus;
  hours = used.hours + d.hours;
  jobs = used.jobs + 1;
}

abbrev pub remember : Name → Option Name → Demand → QuotaLedger → QuotaLedger
remember tenant none d s = s
remember tenant (some key) d s = record s { reservations = insert₂ tenant key d s.reservations }

abbrev pub reservation : Name → Option Name → QuotaLedger → Option Demand
reservation tenant none s = none
reservation tenant (some key) s = s.reservations tenant key

-- `reserve` from the lookup of the quota on
unfoldable pub reserve_new : Name → Demand → Option Name → Method QuotaLedger Error Bool
reserve_new tenant d key s = elim (s.quotas tenant) [
  | none ↦ (ok false, s)
  | some quota ↦
      let used = add_job (usage_of tenant s) d in
      if exceeds used quota
      then (ok false, s)
      else (ok true, remember tenant key d (record s { usage = insert tenant used s.usage }))
]

-- past the guard on negative amounts
unfoldable pub reserve_demand : Name → Demand → Option Name → Method QuotaLedger Error Bool
unfolding reserve_new
reserve_demand tenant d key s = elim (reservation tenant key s) [
  | none ↦ reserve_new tenant d key s
  | some existing ↦ (if same_demand existing d then ok true else err key_reused, s)
]

-- Past the guard the positive parts are the amounts themselves.
unfoldable pub reserve : Name → ℤ → ℤ → Option Name → Method QuotaLedger Error Bool
unfolding reserve_demand
reserve tenant gpus gpu_hours key = do
  raise_if (is_negative gpus || is_negative gpu_hours) negative_demand
  reserve_demand tenant (record { gpus = pos_part gpus; hours = pos_part gpu_hours }) (truthy key)

abbrev pub drop_job : Usage → ℤ → ℤ → Usage
drop_job used gpus gpu_hours = record {
  gpus = sub_floor used.gpus gpus;
  hours = sub_floor used.hours gpu_hours;
  jobs = used.jobs - 1;
}

-- The reservation key is not read.
pub release : Name → ℤ → ℤ → Option Name → Method QuotaLedger Error (Unit {0})
release tenant gpus gpu_hours key = do
  used ← or_raise (← gets (λ s. s.usage tenant)) no_usage
  modify (λ s. record s { usage = insert tenant (drop_job used gpus gpu_hours) s.usage })

pub usage : Name → Method QuotaLedger Error Usage
usage tenant = gets (usage_of tenant)
