-- ===== src/Idempotency.antt =====
-- packages/execution/idempotency.py: `IdempotencyStore` without a database runtime. The lock is not
-- held while the operation runs, so `execute_once` is two steps on the store, `begin` and `finish`,
-- with the operation between them; other calls may come between the steps.
pub mod Once
pub mod Interleaving
pub mod Database
mod Tests
use compute_weaver.Base.{
  Bool, true, false, not, ◌&&◌, ◌||◌, Option, none, some, ◌==◌, if◌then◌else◌, Name, is_blank,
  is_some, Result, ok, err, Method,
}
use compute_weaver.Base.Dict.{Dict₂, insert₂}

pub data Status : Type 0 where
  started succeeded failed : Status

-- a value of `_results`: the digest of the intent, and the operation's result
pub record Recorded : Type 0 where
  pub digest : Name
  pub result : Name

pub record Cancellation : Type 0 where
  pub action_id : Name
  pub tenant_id : Name
  pub actor_id : Name
  pub reason : Name

pub record IdempotencyStore : Type 0 where
  pub results : Dict₂ Recorded
  pub action_status : Dict₂ Status
  pub cancellations : Dict₂ Cancellation

-- `operation_failed e` is the exception `e` of the operation, which is passed on
pub data Error : Type 0 where
  cancelled key_reused in_progress missing_identity incomplete_cancellation not_cancellable : Error
  cancellation_conflict invalid_tenant : Error
  operation_failed : Name → Error

-- The arguments of `execute_once`: `digest` is SHA-256 of the intent's canonical JSON text, and
-- `intent_action` is `str(intent.get("action", "unknown"))`.
pub record Call : Type 0 where
  pub key : Name
  pub digest : Name
  pub intent_action : Name
  pub tenant_id : Option Name
  pub action_id : Option Name

-- the text "memory"
abbrev pub memory : Name
memory = 1

-- Python's `a or b`
abbrev pub or_else : Option Name → Name → Name
or_else none b = b
or_else (some a) b = if is_blank a then b else a

abbrev pub scope : Call → Name
scope c = or_else c.tenant_id memory

abbrev pub action : Call → Name
action c = or_else c.action_id c.intent_action

abbrev pub is_started : Option Status → Bool
is_started (some started) = true
is_started _ = false

abbrev pub set_status : Call → Status → IdempotencyStore → IdempotencyStore
set_status c st s = record s { action_status = insert₂ (scope c) (action c) st s.action_status }

-- The first locked block: the result to return at once, or `none` if the operation is to be run.
pub begin : Call → Method IdempotencyStore Error (Option Name)
begin c s =
    if is_some (s.cancellations (scope c) (action c))
    then (err cancelled, s)
    else elim (s.results (scope c) c.key) [
      | some previous ↦
          (if previous.digest == c.digest then ok (some previous.result) else err key_reused, s)
      | none ↦
          if is_started (s.action_status (scope c) (action c))
          then (err in_progress, s)
          else (ok none, set_status c started s)
    ]

-- The last locked block, after the operation has returned or raised.
pub finish : Call → Result Name Name → Method IdempotencyStore Error Name
finish c (ok result) s = (
  ok result,
  set_status c succeeded (record s {
    results = insert₂ (scope c) c.key (record { digest = c.digest; result = result }) s.results;
  }),
)
finish c (err e) s = (err (operation_failed e), set_status c failed s)

-- `execute_once` with nothing in between. The operation acts on a world of its own.
module _ {World : Type 0} (operation : World → Result Name Name × World) where
  pub operate : Call → Option Name → Method (IdempotencyStore × World) Error Name
  unfolding finish
  operate c (some result) (s, w) = (ok result, (s, w))
  operate c none (s, w) =
      let (r, w') = operation w in let (out, s') = finish c r s in (out, (s', w'))

  pub execute_once : Call → Method (IdempotencyStore × World) Error Name
  unfolding begin operate
  execute_once c (s, w) =
      let (r, s') = begin c s in
      elim r [ ok done ↦ operate c done (s', w) | err e ↦ (err e, (s', w)) ]

abbrev pub same_cancellation : Cancellation → Cancellation → Bool
same_cancellation a b =
    (a.action_id == b.action_id)
    && (a.tenant_id == b.tenant_id)
    && (a.actor_id == b.actor_id)
    && (a.reason == b.reason)

abbrev pub is_live : Option Status → Bool
is_live (some started) = true
is_live (some succeeded) = true
is_live _ = false

abbrev pub is_incomplete : Cancellation → Bool
is_incomplete c =
    is_blank c.action_id || is_blank c.tenant_id || is_blank c.actor_id || is_blank c.reason

-- past the guards, under the lock
pub cancel_new : Cancellation → Method IdempotencyStore Error Cancellation
cancel_new c s = elim (s.cancellations c.tenant_id c.action_id) [
  | some existing ↦
      if same_cancellation existing c
      then (ok c, record s { cancellations = insert₂ c.tenant_id c.action_id c s.cancellations })
      else (err cancellation_conflict, s)
  | none ↦ (ok c, record s { cancellations = insert₂ c.tenant_id c.action_id c s.cancellations })
]

-- The reason is given stripped: `strip` is Python's `str.strip`.
pub cancel :
    (strip : Name → Name) → Name → Name → Name → Name → Method IdempotencyStore Error Cancellation
unfolding cancel_new
cancel strip action_id tenant_id actor_id reason s =
    let c : Cancellation = record {
      action_id = action_id;
      tenant_id = tenant_id;
      actor_id = actor_id;
      reason = strip reason;
    } in
    if is_incomplete c
    then (err incomplete_cancellation, s)
    else if is_live (s.action_status tenant_id action_id)
    then (err not_cancellable, s)
    else cancel_new c s
