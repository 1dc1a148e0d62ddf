-- ===== src/JobQueue.antt =====
-- packages/jobs/queue.py: `PostgresJobQueue` over the table `durable_jobs`. Times are whole seconds.
-- A payload, a result and an error are their canonical JSON texts. A call of a worker names its own
-- tenant's rows only: row-level security hides the others.
pub mod Leases
pub mod Claims
pub mod Retries
mod Tests
use compute_weaver.Base.{
  ℕ, ◌+◌, ◌^◌, min, Bool, true, false, not, ◌&&◌, ◌||◌, Option, none, some, List, [], ◌∷◌, ltb, leb,
  ◌==◌, if◌then◌else◌, Name, any, keep, find, ok, err, Method, pure, raise, raise_if, ◌>>=◌, ◌>>◌,
  Pool, transaction, tenant_transaction,
}
use compute_weaver.Base.Int.{ℤ, pos, pos_part, ltb_ℤ}

pub data Status : Type 0 where
  pending running succeeded dead_letter : Status

pub record JobRow : Type 0 where
  pub id : ℕ
  pub tenant_id : Name
  pub kind : Name
  pub payload : Name
  pub idempotency_key : Name
  pub status : Status
  pub attempt : ℕ
  pub max_attempts : ℕ
  pub available_at : ℕ
  pub leased_by : Option Name
  pub lease_expires_at : Option ℕ
  pub last_error : Option Name
  pub outcome : Option Name

-- the rows, and the next value of the sequence of `id`
pub record Queue : Type 0 where
  pub rows : List JobRow
  pub next_id : ℕ

-- what `claim` returns
pub record DurableJob : Type 0 where
  pub id : ℕ
  pub tenant_id : Name
  pub kind : Name
  pub payload : Name
  pub idempotency_key : Name
  pub attempt : ℕ
  pub max_attempts : ℕ
  pub lease_expires_at : ℕ

pub data Error : Type 0 where
  bad_attempts invalid_tenant key_reused short_lease lease_lost unknown_job : Error

abbrev pub is_running : Status → Bool
is_running running = true
is_running _ = false

abbrev pub is_pending : Status → Bool
is_pending pending = true
is_pending _ = false

pub record Enqueue : Type 0 where
  pub tenant_id : Name
  pub kind : Name
  pub payload : Name
  pub idempotency_key : Name
  pub max_attempts : ℤ
  pub available_at : Option ℕ

abbrev pub keyed : Name → Name → JobRow → Bool
keyed tenant key row = (row.tenant_id == tenant) && (row.idempotency_key == key)

abbrev pub new_row : Enqueue → ℕ → ℕ → JobRow
new_row q id now = record {
  id = id;
  tenant_id = q.tenant_id;
  kind = q.kind;
  payload = q.payload;
  idempotency_key = q.idempotency_key;
  status = pending;
  attempt = 0;
  max_attempts = pos_part q.max_attempts;
  available_at = elim q.available_at [ none ↦ now | some t ↦ t ];
  leased_by = none;
  lease_expires_at = none;
  last_error = none;
  outcome = none;
}

pub enqueue_row : Enqueue → ℕ → Method Queue Error ℕ
enqueue_row q now s = elim (find (keyed q.tenant_id q.idempotency_key) s.rows) [
  | some existing ↦ (
    if (existing.kind == q.kind) && (existing.payload == q.payload)
        then ok existing.id
        else err key_reused,
    s,
  )
  | none ↦
      (ok s.next_id, record { rows = new_row q s.next_id now ∷ s.rows; next_id = s.next_id + 1 })
]

-- Past the guard the number of attempts is positive.
pub enqueue : Pool Queue → Enqueue → ℕ → Method Queue Error ℕ
unfolding enqueue_row
enqueue pool q now = do
  raise_if (ltb_ℤ q.max_attempts (pos 1)) bad_attempts
  tenant_transaction pool invalid_tenant q.tenant_id (enqueue_row q now)

-- `lease_expires_at <= now()`, which is not true of NULL
abbrev pub lease_over : ℕ → Option ℕ → Bool
lease_over now none = false
lease_over now (some t) = leb t now

-- the WHERE clause of `candidate`
pub claimable : ℕ → JobRow → Bool
claimable now row =
    (is_pending row.status && leb row.available_at now)
    || (is_running row.status && lease_over now row.lease_expires_at)

-- before in `ORDER BY available_at, id`
pub before : JobRow → JobRow → Bool
before a b =
    ltb a.available_at b.available_at || ((a.available_at == b.available_at) && leb a.id b.id)

pub sooner : JobRow → Option JobRow → JobRow
unfolding before
sooner row none = row
sooner row (some other) = if before row other then row else other

-- the first claimable row in that order
pub candidate : ℕ → List JobRow → Option JobRow
unfolding claimable sooner
candidate now [] = none
candidate now (row ∷ rows) =
    let rest = candidate now rows in if claimable now row then some (sooner row rest) else rest

-- `UPDATE … SET` on the rows that pass
pub update_rows : (JobRow → Bool) → (JobRow → JobRow) → List JobRow → List JobRow
update_rows p f [] = []
update_rows p f (row ∷ rows) =
    let rest = update_rows p f rows in if p row then f row ∷ rest else row ∷ rest

abbrev pub has_id : ℕ → JobRow → Bool
has_id id row = row.id == id

abbrev pub leased : Name → ℕ → JobRow → JobRow
leased worker until row = record row {
  status = running;
  attempt = row.attempt + 1;
  leased_by = some worker;
  lease_expires_at = some until;
}

abbrev pub durable : ℕ → JobRow → DurableJob
durable until row = record {
  id = row.id;
  tenant_id = row.tenant_id;
  kind = row.kind;
  payload = row.payload;
  idempotency_key = row.idempotency_key;
  attempt = row.attempt + 1;
  max_attempts = row.max_attempts;
  lease_expires_at = until;
}

-- `SKIP LOCKED`: the rows that no other transaction has locked
abbrev pub unlocked : (ℕ → Bool) → List JobRow → List JobRow
unlocked locked rows = keep (λ row. not (locked row.id)) rows

-- One statement, so the pool rolls nothing back. `locked` says which ids other transactions hold.
pub claim : (ℕ → Bool) → Name → ℕ → ℕ → Method Queue Error (Option DurableJob)
unfolding candidate update_rows
claim locked worker lease_seconds now s =
    let until = now + lease_seconds in
    if ltb lease_seconds 5
    then (err short_lease, s)
    else elim (candidate now (unlocked locked s.rows)) [
      | none ↦ (ok none, s)
      | some row ↦ (
        ok (some (durable until row)),
        record s { rows = update_rows (has_id row.id) (leased worker until) s.rows },
      )
    ]

abbrev pub by_worker : Name → Option Name → Bool
by_worker worker none = false
by_worker worker (some w) = w == worker

-- `WHERE id = %s AND status = 'running' AND leased_by = %s`, in the rows of the job's tenant
abbrev pub holds : DurableJob → Name → JobRow → Bool
holds job worker row =
    has_id job.id row
    && (row.tenant_id == job.tenant_id)
    && is_running row.status
    && by_worker worker row.leased_by

-- An `UPDATE … RETURNING` of what the worker holds: the rows after it, and whether one came back.
pub update_held : DurableJob → Name → (JobRow → JobRow) → Queue → Bool × Queue
unfolding update_rows
update_held job worker f s =
    (any (holds job worker) s.rows, record s { rows = update_rows (holds job worker) f s.rows })

pub heartbeat : Pool Queue → DurableJob → Name → ℕ → ℕ → Method Queue Error Bool
unfolding update_held
heartbeat pool job worker lease_seconds now =
    tenant_transaction pool invalid_tenant job.tenant_id (λ s.
      let (row, s') =
        update_held job worker (λ r. record r { lease_expires_at = some (now + lease_seconds) })
          s in
      (ok row, s'))

-- a completion: the update, and the raise if the lease was lost
pub complete : DurableJob → Name → (JobRow → JobRow) → Method Queue Error (Unit {0})
unfolding update_held
complete job worker f s =
    let (row, s') = update_held job worker f s in (if row then ok tt else err lease_lost, s')

pub succeed : Pool Queue → DurableJob → Name → Name → Method Queue Error (Unit {0})
unfolding complete
succeed pool job worker outcome = tenant_transaction pool invalid_tenant job.tenant_id (
    complete job worker (λ r. record r {
      status = succeeded;
      outcome = some outcome;
      leased_by = none;
      lease_expires_at = none;
    }))

-- `min(300, 2 ** min(job.attempt, 8))` seconds
pub retry_delay : ℕ → ℕ
retry_delay attempt = min 300 (2 ^ min attempt 8)

abbrev pub status_after : DurableJob → Status
status_after job = if leb job.max_attempts job.attempt then dead_letter else pending

pub fail : Pool Queue → DurableJob → Name → Name → ℕ → Method Queue Error Status
unfolding complete retry_delay
fail pool job worker error now = do
  tenant_transaction pool invalid_tenant job.tenant_id (
      complete job worker (λ r. record r {
        status = status_after job;
        last_error = some error;
        available_at = now + retry_delay job.attempt;
        leased_by = none;
        lease_expires_at = none;
      }))
  pure (status_after job)

pub status : Name → ℕ → Method Queue Error JobRow
status tenant id s = (
  elim (find (λ row. (row.tenant_id == tenant) && has_id id row) s.rows) [
    | none ↦ err unknown_job
    | some row ↦ ok row
  ],
  s,
)
