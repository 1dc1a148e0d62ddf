-- ===== src/Quota/Keys.antt =====
-- What a demand and a reservation key do in memory.
use compute_weaver.Base.{
  ℕ, ◌+◌, ◌<◌, ◌≡◌, ◌≢◌, Bool, true, false, not, ◌&&◌, Option, none, some, arith, ◌==◌,
  if◌then◌else◌, Name, truthy, is_some, Result, ok, err,
}
use compute_weaver.Base.Int.{pos, leb_ℤ}
use compute_weaver.Quota.{
  Quota, Usage, Demand, QuotaLedger, Error, key_reused, usage_of, exceeds, reservation, reserve,
  release,
}

-- what is used, with the demand and one job added
abbrev pub grown : Usage → Demand → Usage
grown used d = record {
  gpus = used.gpus + d.gpus;
  hours = used.hours + d.hours;
  jobs = used.jobs + 1;
}

-- a tenant with that quota, if it has one, and that usage has room for the demand and one job
abbrev pub has_room : Option Quota → Usage → Demand → Bool
has_room none used d = false
has_room (some quota) used d =
    leb_ℤ (pos (used.gpus + d.gpus)) quota.max_gpus
    && leb_ℤ (pos (used.hours + d.hours)) quota.max_gpu_hours
    && leb_ℤ (pos (used.jobs + 1)) quota.max_concurrent_jobs

-- What a reserve answers, given the demand that its key holds already, if it holds one.
abbrev pub answer : Option Demand → Option Quota → Usage → Demand → Result Error Bool
answer (some existing) quota used d =
    if (existing.gpus == d.gpus) && (existing.hours == d.hours) then ok true else err key_reused
answer none quota used d = ok (has_room quota used d)

-- what the ledger gives a tenant under a key: its usage and the demand of the key
abbrev pub view : Name → Option Name → QuotaLedger → Usage × Option Demand
view tenant key s = (usage_of tenant s, reservation tenant (truthy key) s)

-- the view of the tenant and the key after a new demand that found room
abbrev pub charged : Option Name → Usage → Demand → Usage × Option Demand
charged key used d = (grown used d, elim key [ none ↦ none | some k ↦ some d ])

-- A reserve of amounts that are not negative, on any ledger and under any key or none. If the key
-- holds a demand, the answer is yes for the same demand and a raise for another, and the ledger stays.
-- Otherwise the answer is yes exactly when the tenant has a quota with room for its GPUs, its GPU hours
-- and its jobs in use together with the demand and one job. After a no the ledger is as it was; after
-- a yes the tenant's usage has grown by the demand and one job and the key, if any, holds the demand.
-- No quota and no other tenant's usage changes.
pub reserve-Charged :
    (tenant : Name) (gpus hours : ℕ) (key : Option Name) (s : QuotaLedger)
    → let d : Demand = record { gpus = gpus; hours = hours } in
      let used = usage_of tenant s in
      let held = reservation tenant (truthy key) s in
      let fits = not (is_some held) && has_room (s.quotas tenant) used d in
      let t = (reserve tenant (pos gpus) (pos hours) key s).1 in
      ((reserve tenant (pos gpus) (pos hours) key s).0 ≡ answer held (s.quotas tenant) used d)
      × (view tenant key t ≡ (if fits then charged (truthy key) used d else view tenant key s))
      × (fits ≡ false → t ≡ s)
      × ((other : Name)
          → (t.quotas other ≡ s.quotas other)
            × (other ≢ tenant → usage_of other t ≡ usage_of other s))
unfolding reserve exceeds
reserve-Charged tenant gpus hours key s =
    (ground arith, ground arith, ground arith, λ other. (ground arith, ground arith))

-- Once a reserve under a key (not the empty text) has succeeded, the same call again answers yes
-- and changes nothing, and a call under that key with another demand raises.
pub reserve_retry :
    (tenant : Name) (gpus hours gpus' hours' : ℕ) (key : Name) (s : QuotaLedger)
    → 0 < key
    → (reserve tenant (pos gpus) (pos hours) (some key) s).0 ≡ ok true
    → let t = (reserve tenant (pos gpus) (pos hours) (some key) s).1 in
      reserve tenant (pos gpus') (pos hours') (some key) t
      ≡ (if (gpus == gpus') && (hours == hours') then ok true else err key_reused, t)
unfolding reserve
reserve_retry tenant gpus hours gpus' hours' key s named h = ground arith

-- In memory a release forgets the usage and keeps the reservation: after a reserve under a key that
-- succeeded and its release, the same reserve answers yes and charges nothing.
pub reserve-release :
    (tenant : Name) (gpus hours : ℕ) (key : Name) (s : QuotaLedger)
    → 0 < key
    → (reserve tenant (pos gpus) (pos hours) (some key) s).0 ≡ ok true
    → let t =
        (release tenant
          (pos gpus)
          (pos hours)
          (some key)
          (reserve tenant (pos gpus) (pos hours) (some key) s).1).1 in
      reserve tenant (pos gpus) (pos hours) (some key) t ≡ (ok true, t)
unfolding reserve release
reserve-release tenant gpus hours key s named h = ground arith
