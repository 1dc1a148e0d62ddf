-- ===== src/Quota/Bounds.antt =====
-- The ledger in memory never lets a tenant use more than its quota.
use compute_weaver.Base.{ℕ, ◌≡◌, refl, false, Option, none, some, List, [], ◌∷◌, arith, Name}
use compute_weaver.Base.Int.{ℤ, pos}
use compute_weaver.Quota.{
  Quota, Usage, QuotaLedger, init, usage_of, exceeds, configure, reserve, release,
}

-- A tenant that uses anything has a quota, and no limit of it lies below the usage.
abbrev pub Fits : Option Quota → Usage → Type 0
Fits none used = (used.gpus ≡ 0) × (used.hours ≡ 0) × (used.jobs ≡ 0)
Fits (some quota) used = exceeds used quota ≡ false

pub record IsWithin (s : QuotaLedger) : Type 0 where
  pub at : (tenant : Name) → Fits (s.quotas tenant) (usage_of tenant s)

configure-IsWithin :
    (tenant : Name) (quota : Quota) (s : QuotaLedger)
    → IsWithin s
    → IsWithin (configure tenant quota s).1
unfolding configure
configure-IsWithin tenant quota s h = record { at = λ t. ground (arith, h.at t) }

reserve-IsWithin :
    (tenant : Name) (gpus hours : ℤ) (key : Option Name) (s : QuotaLedger)
    → IsWithin s
    → IsWithin (reserve tenant gpus hours key s).1
unfolding reserve
reserve-IsWithin tenant gpus hours key s h = record { at = λ t. ground (arith, h.at t) }

-- A release of what is not negative; a negative one would add to the usage.
release-IsWithin :
    (tenant : Name) (gpus hours : ℕ) (key : Option Name) (s : QuotaLedger)
    → IsWithin s
    → IsWithin (release tenant (pos gpus) (pos hours) key s).1
unfolding release exceeds
release-IsWithin tenant gpus hours key s h = record { at = λ t. ground (arith, h.at t) }

-- The calls that change the ledger. What the callers release is what they reserved, so it is not
-- negative.
pub data Call : Type 0 where
  configuring : Name → Quota → Call
  reserving : Name → ℤ → ℤ → Option Name → Call
  releasing : Name → ℕ → ℕ → Option Name → Call

pub after : Call → QuotaLedger → QuotaLedger
after (configuring tenant quota) s = (configure tenant quota s).1
after (reserving tenant gpus hours key) s = (reserve tenant gpus hours key s).1
after (releasing tenant gpus hours key) s = (release tenant (pos gpus) (pos hours) key s).1

unfoldable pub after_all : List Call → QuotaLedger → QuotaLedger
unfolding after
after_all [] s = s
after_all (c ∷ cs) s = after_all cs (after c s)

after-IsWithin : (c : Call) (s : QuotaLedger) → IsWithin s → IsWithin (after c s)
unfolding after
after-IsWithin (configuring tenant quota) s h = configure-IsWithin tenant quota s h
after-IsWithin (reserving tenant gpus hours key) s h = reserve-IsWithin tenant gpus hours key s h
after-IsWithin (releasing tenant gpus hours key) s h = release-IsWithin tenant gpus hours key s h

after_all-IsWithin : (cs : List Call) (s : QuotaLedger) → IsWithin s → IsWithin (after_all cs s)
unfolding after_all
after_all-IsWithin [] s h = h
after_all-IsWithin (c ∷ cs) s h = after_all-IsWithin cs (after c s) (after-IsWithin c s h)

-- From the empty ledger, whatever is configured, reserved and released, and whether the calls
-- raise or not, no tenant's GPUs, GPU hours or jobs in use pass its quota; a tenant without a quota
-- uses nothing. A release is of amounts that are not negative.
pub usage-le-quota :
    (cs : List Call) (tenant : Name)
    → Fits ((after_all cs init).quotas tenant) (usage_of tenant (after_all cs init))
usage-le-quota cs = (after_all-IsWithin cs init (record { at = λ t. (refl, refl, refl) })).at
