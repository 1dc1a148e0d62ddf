-- ===== src/Quota/Tests.antt =====
-- The quota ledger on a small run: tenant 1 may use 4 GPUs, 100 units of GPU hours and 2 jobs.
use compute_weaver.Base.{◌≡◌, refl, ◌≢◌, true, false, none, some, List, [], ◌∷◌, Name, ok, rollback}
use compute_weaver.Base.Int.{pos, negsuc}
use compute_weaver.Base.Dict.{empty, insert}
use compute_weaver.Quota.{
  Quota, Demand, unused, QuotaLedger, init, usage_of, exceeds, configure, reserve, release,
}
use compute_weaver.Quota.Bounds.{
  Fits, Call, configuring, reserving, releasing, after_all, usage-le-quota,
}
use compute_weaver.Quota.Keys.{answer, view, charged, has_room, reserve-Charged}
use compute_weaver.Quota.Database.{Tables, insert_reservation}
use compute_weaver.Quota.Database.Accounts.{IsBalanced, no_rows}
use compute_weaver.Quota.Database.Histories
use compute_weaver.Quota.Database.Histories.{calls-IsBalanced}

abbrev limits : Quota
limits = record { max_gpus = pos 4; max_gpu_hours = pos 100; max_concurrent_jobs = pos 2 }

abbrev script : List Call
script =
    configuring 1 limits
    ∷ reserving 1 (pos 3) (pos 60) (some 7)
    ∷ reserving 1 (pos 2) (pos 10) (some 8)
    ∷ reserving 1 (negsuc 0) (pos 10) none
    ∷ releasing 1 3 60 (some 7)
    ∷ reserving 1 (pos 4) (pos 100) none
    ∷ []

after_script : usage_of 1 (after_all script init) ≡ record { gpus = 4; hours = 100; jobs = 1 }
unfolding after_all configure reserve release exceeds
after_script = refl

usage-le-quota_example :
    Fits ((after_all script init).quotas 1) (usage_of 1 (after_all script init))
usage-le-quota_example = usage-le-quota script 1

abbrev ledger : QuotaLedger
ledger = record init { quotas = insert 1 limits empty }

reserve-Charged_example :
    let d : Demand = record { gpus = 3; hours = 60 } in
    let t = (reserve 1 (pos 3) (pos 60) (some 7) ledger).1 in
    ((reserve 1 (pos 3) (pos 60) (some 7) ledger).0 ≡ answer none (some limits) unused d)
    × (view 1 (some 7) t ≡ charged (some 7) unused d)
    × (has_room (some limits) unused d ≡ false → t ≡ ledger)
    × ((other : Name)
        → (t.quotas other ≡ ledger.quotas other)
          × (other ≢ 1 → usage_of other t ≡ usage_of other ledger))
reserve-Charged_example = reserve-Charged 1 3 60 (some 7) ledger

reserved : (reserve 1 (pos 3) (pos 60) (some 7) ledger).0 ≡ ok true
unfolding reserve exceeds
reserved = refl

-- A release that is given a negative amount adds to the usage, past any limit.
negative_release :
    usage_of 1 (release 1 (negsuc 9) (pos 0) none (reserve 1 (pos 3) (pos 60) (some 7) ledger).1).1
    ≡ record { gpus = 13; hours = 60; jobs = 0 }
unfolding reserve release exceeds
negative_release = refl

abbrev calls : List Histories.Call
calls =
    Histories.configuring 1 limits
    ∷ Histories.reserving 1 (pos 3) (pos 60) (some 7)
    ∷ Histories.releasing 1 (pos 3) (pos 60) (some 7) 50
    ∷ Histories.reserving 1 (pos 3) (pos 60) (some 7)
    ∷ []

calls-IsBalanced_example : IsBalanced (Histories.after_all rollback calls no_rows)
calls-IsBalanced_example = calls-IsBalanced rollback calls

abbrev one_row : Tables
one_row = record {
  ledgers =
      insert 1
        (record { max = limits; used = record { gpus = 3; hours = 60; jobs = 1 }; version = 2 })
        empty;
  reservations = insert_reservation 1 7 (record { gpus = 3; hours = 60 }) [];
}
