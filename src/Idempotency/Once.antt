-- ===== src/Idempotency/Once.antt =====
-- An operation runs at most once under a key.
use compute_weaver.Base.{◌≡◌, none, arith, ◌==◌, if◌then◌else◌, Name, Result, ok, err}
use compute_weaver.Idempotency.{IdempotencyStore, key_reused, Call, scope, action, execute_once}

module _ {World : Type 0} (operation : World → Result Name Name × World) where
  -- After an execution that returned a result, the same call returns that result again, and does
  -- not run the operation; a call under the same key and scope with another intent, for an action
  -- that is not cancelled, raises. Both change nothing.
  pub execute_retry :
      (c d : Call) (s : IdempotencyStore) (w : World) (result : Name)
      → (execute_once operation c (s, w)).0 ≡ ok result
      → scope d ≡ scope c
      → d.key ≡ c.key
      → s.cancellations (scope d) (action d) ≡ none
      → s.cancellations (scope c) (action c) ≡ none
      → let t = (execute_once operation c (s, w)).1 in
        execute_once operation d t ≡ (if c.digest == d.digest then ok result else err key_reused, t)
  unfolding execute_once
  execute_retry c d s w result e same_scope same_key free free' = ground arith
