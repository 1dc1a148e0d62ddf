-- ===== src/Idempotency/Database.antt =====
-- packages/execution/idempotency.py: `IdempotencyStore` over a database runtime, on the tables
-- `action_executions` and `action_cancellations`. `execute_once` is two transactions with the
-- operation between them.
pub mod Keys
use compute_weaver.Base.{
  Bool, true, false, not, ◌&&◌, ◌||◌, Option, none, some, List, [], ◌∷◌, ◌==◌, if◌then◌else◌, Name,
  is_blank, is_some, any, find, Result, ok, err, Method, raise_if, ◌>>=◌, ◌>>◌, Pool, transaction,
  tenant_transaction,
}
use compute_weaver.Base.Dict.{Dict₂, insert₂}
use compute_weaver.Idempotency.{
  Status, started, succeeded, failed, Cancellation, Error, cancelled, key_reused, in_progress,
  missing_identity, incomplete_cancellation, not_cancellable, cancellation_conflict, invalid_tenant,
  is_live, is_incomplete,
}

-- a row of `action_executions`; `error` is the text of a failed run
pub record Execution : Type 0 where
  pub tenant : Name
  pub key : Name
  pub action_id : Name
  pub intent_hash : Name
  pub status : Status
  pub result : Option Name
  pub error : Option Name
  pub completed : Bool

-- a value of `action_cancellations`, whose primary key is the tenant and the action
pub record Withdrawal : Type 0 where
  pub actor_id : Name
  pub reason : Name

pub record Tables : Type 0 where
  pub executions : List Execution
  pub withdrawals : Dict₂ Withdrawal

-- `WHERE tenant_id = %s AND idempotency_key = %s`
abbrev pub keyed : Name → Name → Execution → Bool
keyed tenant key r = (r.tenant == tenant) && (r.key == key)

-- `UPDATE action_executions SET … WHERE …`
pub update : (Execution → Bool) → (Execution → Execution) → List Execution → List Execution
update chosen f [] = []
update chosen f (r ∷ rows) = (if chosen r then f r else r) ∷ update chosen f rows

abbrev pub restarted : Execution → Execution
restarted r = record r { status = started; error = none; completed = false }

-- the first transaction, when the key has a row (a NULL result is Python's `None`)
pub begin_row : Name → Name → Name → Execution → Method Tables Error (Option (Option Name))
begin_row tenant key digest r s =
    if not (r.intent_hash == digest) then (err key_reused, s) else elim r.status [
      | succeeded ↦ (ok (some r.result), s)
      | started ↦ (err in_progress, s)
      | failed ↦
          (ok none, record s { executions = update (keyed tenant key) restarted s.executions })
    ]

abbrev pub new_row : Name → Name → Name → Name → Execution
new_row tenant key action_id digest = record {
  tenant = tenant;
  key = key;
  action_id = action_id;
  intent_hash = digest;
  status = started;
  result = none;
  error = none;
  completed = false;
}

-- The first transaction's block: the stored result to return, or `none` if the operation is to run.
unfoldable pub begin_block : Name → Name → Name → Name → Method Tables Error (Option (Option Name))
unfolding begin_row
begin_block tenant key action_id digest s =
    if is_some (s.withdrawals tenant action_id)
    then (err cancelled, s)
    else elim (find (keyed tenant key) s.executions) [
      | some r ↦ begin_row tenant key digest r s
      | none ↦
          (ok none, record s { executions = new_row tenant key action_id digest ∷ s.executions })
    ]

abbrev pub same_intent : Name → Name → Name → Execution → Bool
same_intent tenant key digest r = keyed tenant key r && (r.intent_hash == digest)

abbrev pub completed_by : Result Name Name → Execution → Execution
completed_by (ok value) r = record r { status = succeeded; result = some value; completed = true }
completed_by (err e) r = record r { status = failed; error = some e; completed = true }

-- What the runtime writes: `json.loads(json.dumps(result, default=str))` of a result, and of an error
-- its text cut to 4000 letters.
pub record Texts : Type 0 where
  pub serializable : Name → Name
  pub error_text : Name → Name

abbrev pub stored : Texts → Result Name Name → Result Name Name
stored x (ok value) = ok (x.serializable value)
stored x (err e) = err (x.error_text e)

-- the second transaction's block, with what it stores
pub finish_block : Name → Name → Name → Result Name Name → Method Tables Error (Unit {0})
unfolding update
finish_block tenant key digest written s = (
  ok tt,
  record s {
    executions = update (same_intent tenant key digest) (completed_by written) s.executions;
  },
)

module _ (pool : Pool Tables) where
  unfoldable pub begin_db : Name → Name → Name → Name → Method Tables Error (Option (Option Name))
  unfolding begin_block
  begin_db tenant key action_id digest = do
    raise_if (is_blank tenant || is_blank action_id) missing_identity
    transaction pool (begin_block tenant key action_id digest)

  pub finish_db : Texts → Name → Name → Name → Result Name Name → Method Tables Error (Unit {0})
  unfolding finish_block
  finish_db x tenant key digest outcome =
      tenant_transaction pool invalid_tenant tenant
        (finish_block tenant key digest (stored x outcome))

-- `status IN ('started', 'succeeded')` for an action of the tenant
abbrev pub is_active : Name → Name → Execution → Bool
is_active tenant action_id r =
    (r.tenant == tenant) && (r.action_id == action_id) && is_live (some r.status)

pub cancel_block : Cancellation → Method Tables Error Cancellation
cancel_block c s =
    if any (is_active c.tenant_id c.action_id) s.executions
    then (err not_cancellable, s)
    else elim (s.withdrawals c.tenant_id c.action_id) [
      | some w ↦ (
        if not (w.actor_id == c.actor_id) || not (w.reason == c.reason)
            then err cancellation_conflict
            else ok c,
        s,
      )
      | none ↦ (
        ok c,
        record s {
          withdrawals =
              insert₂ c.tenant_id c.action_id (record { actor_id = c.actor_id; reason = c.reason })
                s.withdrawals;
        },
      )
    ]

module _ (pool : Pool Tables) (strip : Name → Name) where
  pub cancel_db : Name → Name → Name → Name → Method Tables Error Cancellation
  unfolding cancel_block
  cancel_db action_id tenant_id actor_id reason =
      let c : Cancellation = record {
        action_id = action_id;
        tenant_id = tenant_id;
        actor_id = actor_id;
        reason = strip reason;
      } in
      raise_if (is_incomplete c) incomplete_cancellation >> transaction pool (cancel_block c)
