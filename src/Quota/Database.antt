-- ===== src/Quota/Database.antt =====
-- packages/workloads/quota.py: `QuotaLedger` over a database runtime, on the tables
-- `quota_ledgers` (one row for a tenant) and `quota_reservations`. Each method is one transaction.
pub mod Accounts
pub mod Histories
pub mod Once
use compute_weaver.Base.{
  ℕ, ◌+◌, max, Bool, true, false, not, ◌&&◌, ◌||◌, Option, none, some, List, [], ◌∷◌, ◌==◌,
  if◌then◌else◌, Name, truthy, is_some, any, find, ok, err, Method, or_raise, raise_if, ◌>>=◌, ◌>>◌,
  Pool, transaction, tenant_transaction,
}
use compute_weaver.Base.Int.{ℤ, pos, pos_part, is_negative}
use compute_weaver.Base.Dict.{Dict, insert}
use compute_weaver.Quota.{
  Quota, Usage, Demand, Error, negative_limits, below_usage, negative_demand, key_reused,
  key_required, unused, has_negative_limit, exceeds, add_job, drop_job, usage, invalid_tenant,
}

-- a row of `quota_ledgers`
pub record Ledger : Type 0 where
  pub max : Quota
  pub used : Usage
  pub version : ℕ

-- a row of `quota_reservations`
pub record Reservation : Type 0 where
  pub tenant : Name
  pub key : Name
  pub gpus : ℕ
  pub hours : ℕ
  pub released_at : Option ℕ

pub record Tables : Type 0 where
  pub ledgers : Dict Ledger
  pub reservations : List Reservation

-- `INSERT … ON CONFLICT (tenant_id) DO UPDATE … WHERE … RETURNING tenant_id`: whether a row came
-- back, and the table
pub upsert_limits : Name → Quota → Dict Ledger → Bool × Dict Ledger
upsert_limits tenant quota ledgers = elim (ledgers tenant) [
  | none ↦ (true, insert tenant (record { max = quota; used = unused; version = 1 }) ledgers)
  | some l ↦
      if exceeds l.used quota
      then (false, ledgers)
      else (true, insert tenant (record l { max = quota; version = l.version + 1 }) ledgers)
]

pub store_limits : Name → Quota → Method Tables Error (Unit {0})
unfolding upsert_limits
store_limits tenant quota s =
    let (row, ledgers) = upsert_limits tenant quota s.ledgers in
    if row then (ok tt, record s { ledgers = ledgers }) else (err below_usage, s)

module _ (pool : Pool Tables) where
  pub configure_db : Name → Quota → Method Tables Error (Unit {0})
  unfolding store_limits
  configure_db tenant quota = do
    raise_if (has_negative_limit quota) negative_limits
    tenant_transaction pool invalid_tenant tenant (store_limits tenant quota)

-- `WHERE tenant_id = %s AND reservation_key = %s`
abbrev pub keyed : Name → Name → Reservation → Bool
keyed tenant key r = (r.tenant == tenant) && (r.key == key)

-- `UPDATE quota_ledgers SET … WHERE … RETURNING tenant_id`
unfoldable pub charge : Name → Demand → Dict Ledger → Option (Dict Ledger)
charge tenant d ledgers = elim (ledgers tenant) [
  | none ↦ none
  | some l ↦
      let used = add_job l.used d in
      if exceeds used l.max
      then none
      else some (insert tenant (record l { used = used; version = l.version + 1 }) ledgers)
]

-- `INSERT INTO quota_reservations`
abbrev pub insert_reservation : Name → Name → Demand → List Reservation → List Reservation
insert_reservation tenant key d rows =
    record { tenant = tenant; key = key; gpus = d.gpus; hours = d.hours; released_at = none } ∷ rows

unfoldable pub reserve_row : Name → Name → Demand → Method Tables Error Bool
unfolding charge
reserve_row tenant key d s = elim (find (keyed tenant key) s.reservations) [
  | some prior ↦ (
    if (prior.gpus == d.gpus) && (prior.hours == d.hours)
        then ok (not (is_some prior.released_at))
        else err key_reused,
    s,
  )
  | none ↦ elim (charge tenant d s.ledgers) [
    | none ↦ (ok false, s)
    | some ledgers ↦ (
      ok true,
      record { ledgers = ledgers; reservations = insert_reservation tenant key d s.reservations },
    )
  ]
]

module _ (pool : Pool Tables) where
  unfoldable pub reserve_db : Name → ℤ → ℤ → Option Name → Method Tables Error Bool
  unfolding reserve_row
  reserve_db tenant gpus gpu_hours key = do
    raise_if (is_negative gpus || is_negative gpu_hours) negative_demand
    k ← or_raise (truthy key) key_required
    tenant_transaction pool invalid_tenant tenant
        (reserve_row tenant k (record { gpus = pos_part gpus; hours = pos_part gpu_hours }))

-- the row that `release` closes: no stored amount equals a negative one
abbrev pub held : Name → Name → ℤ → ℤ → Reservation → Bool
held tenant key (pos gpus) (pos hours) r =
    keyed tenant key r && not (is_some r.released_at) && (r.gpus == gpus) && (r.hours == hours)
held tenant key _ _ r = false

-- `SET released_at = now()` on the rows that pass
pub mark_released : (Reservation → Bool) → ℕ → List Reservation → List Reservation
mark_released p now [] = []
mark_released p now (r ∷ rows) =
    let rest = mark_released p now rows in
    if p r then record r { released_at = some now } ∷ rest else r ∷ rest

-- the second `UPDATE quota_ledgers`
pub discharge : Name → ℤ → ℤ → Dict Ledger → Dict Ledger
discharge tenant gpus gpu_hours ledgers = elim (ledgers tenant) [
  | none ↦ ledgers
  | some l ↦
      insert tenant (record l { used = drop_job l.used gpus gpu_hours; version = l.version + 1 })
        ledgers
]

pub release_row : Name → Name → ℤ → ℤ → ℕ → Method Tables Error (Unit {0})
unfolding discharge
release_row tenant key gpus gpu_hours now s = (
  ok tt,
  if any (held tenant key gpus gpu_hours) s.reservations
      then record {
        ledgers = discharge tenant gpus gpu_hours s.ledgers;
        reservations = mark_released (held tenant key gpus gpu_hours) now s.reservations;
      }
      else s,
)

module _ (pool : Pool Tables) where
  pub release_db : Name → ℤ → ℤ → Option Name → ℕ → Method Tables Error (Unit {0})
  unfolding release_row
  release_db tenant gpus gpu_hours key now = do
    k ← or_raise (truthy key) key_required
    tenant_transaction pool invalid_tenant tenant (release_row tenant k gpus gpu_hours now)

-- an absent row reads as no usage
pub usage_db : Name → Tables → Usage
usage_db tenant s = elim (s.ledgers tenant) [ none ↦ unused | some l ↦ l.used ]
