-- ===== src/Idempotency/Tests.antt =====
-- Runs of packages/execution/idempotency.py on small inputs.
use compute_weaver.Base.{
  ℕ, ◌+◌, ◌≤◌, ◌≡◌, refl, true, false, some, List, [], ◌∷◌, Name, is_some, Result, ok, err,
  rollback,
}
use compute_weaver.Base.Dict.{empty₂}
use compute_weaver.Idempotency.{
  IdempotencyStore, key_reused, in_progress, Call, begin, finish, operate, execute_once, is_live,
  cancel_new, cancel,
}
use compute_weaver.Idempotency.Once.{execute_retry}
use compute_weaver.Idempotency.Interleaving.{
  Event, begins, finishes, cancels, step, steps, idle, running_le_one,
}
use compute_weaver.Idempotency.Database.{Tables, Texts, begin_block, begin_db, finish_db}
use compute_weaver.Idempotency.Database.Keys.{begin_db-finish_db}

abbrev charge_intent : Call
charge_intent = record {
  key = 11;
  digest = 21;
  intent_action = 31;
  tenant_id = some 2;
  action_id = some 41;
}

-- another intent under the same key
abbrev other_intent : Call
other_intent = record {
  key = 11;
  digest = 22;
  intent_action = 31;
  tenant_id = some 2;
  action_id = some 41;
}

abbrev blank_store : IdempotencyStore
blank_store = record { results = empty₂; action_status = empty₂; cancellations = empty₂ }

-- the world counts the runs of the operation
abbrev count_runs : ℕ → Result Name Name × ℕ
count_runs n = (ok 51, n + 1)

execute_retry_example :
    let t = (execute_once count_runs charge_intent (blank_store, 0)).1 in
    execute_once count_runs other_intent t ≡ (err key_reused, t)
unfolding execute_once begin operate finish
execute_retry_example =
    execute_retry count_runs charge_intent other_intent blank_store 0 51 refl refl refl refl refl

-- One run of the operation, and the world says so.
runs_once :
    (execute_once count_runs charge_intent
      (execute_once count_runs charge_intent (blank_store, 0)).1).1.1
    ≡ 1
unfolding execute_once begin operate finish
runs_once = refl

abbrev overlapping : List Event
overlapping =
    begins charge_intent
    ∷ begins other_intent
    ∷ cancels 41 2 5 6
    ∷ finishes charge_intent (err 9)
    ∷ cancels 41 2 5 6
    ∷ begins charge_intent
    ∷ []

running_le_one_example :
    let y = steps (λ x. x) overlapping idle in
    (y.running 2 41 ≤ 1)
    × (is_some (y.store.cancellations 2 41) ≡ true
        → (y.running 2 41 ≡ 0) × (is_live (y.store.action_status 2 41) ≡ false))
running_le_one_example = running_le_one (λ x. x) overlapping 2 41

-- The failed action was cancelled.
was_cancelled : is_some ((steps (λ x. x) overlapping idle).store.cancellations 2 41) ≡ true
unfolding steps step begin finish cancel cancel_new
was_cancelled = refl

abbrev no_rows : Tables
no_rows = record { executions = []; withdrawals = empty₂ }

abbrev texts : Texts
texts = record { serializable = λ value. 100 + value; error_text = λ e. e }

begin_db-finish_db_example :
    let t = (begin_db rollback 2 11 41 21 no_rows).1 in
    (begin_db rollback 2 11 41 21 t ≡ (err in_progress, t))
    × ((begin_db rollback 2 11 41 21 (finish_db rollback texts 2 11 21 (ok 51) t).1).0
        ≡ ok (some (some 151)))
unfolding begin_db begin_block
begin_db-finish_db_example =
    begin_db-finish_db rollback texts 2 11 41 21 (ok 51) no_rows refl refl refl
