-- ===== src/Idempotency/Interleaving.antt =====
-- Calls of the store by several threads: the locked blocks of `execute_once` and `cancel` come in any
-- order, and operations run between them.
use compute_weaver.Base.{
  ℕ, ◌+◌, ◌-◌, ◌≤◌, ◌≡◌, refl, Bool, true, false, ◌&&◌, Option, none, List, [], ◌∷◌, arith, leb,
  ◌==◌, if◌then◌else◌, Name, is_some, Result, ok, err,
}
use compute_weaver.Idempotency.{
  Status, IdempotencyStore, Error, Call, scope, action, is_started, begin, finish, is_live,
  cancel_new, cancel,
}

pub data Event : Type 0 where
  begins : Call → Event
  finishes : Call → Result Name Name → Event
  cancels : Name → Name → Name → Name → Event

-- The store, and how many operations are running for each scope and action.
pub record System : Type 0 where
  pub store : IdempotencyStore
  pub running : Name → Name → ℕ

abbrev empty_store : IdempotencyStore
empty_store = record {
  results = λ _ _. none;
  action_status = λ _ _. none;
  cancellations = λ _ _. none;
}

abbrev pub idle : System
idle = record { store = empty_store; running = λ _ _. 0 }

abbrev pub started_by : Call → Name → Name → ℕ
started_by c t a = if (scope c == t) && (action c == a) then 1 else 0

abbrev pub starts : Result Error (Option Name) → Bool
starts (ok none) = true
starts _ = false

module _ (strip : Name → Name) where
  -- An operation ends only if one is running for the action.
  unfoldable pub step : Event → System → System
  unfolding begin finish cancel
  step (begins c) y =
      let (r, s) = begin c y.store in
      record {
        store = s;
        running = λ t a. y.running t a + (if starts r then started_by c t a else 0);
      }
  step (finishes c r) y =
      if leb 1 (y.running (scope c) (action c))
      then record {
        store = (finish c r y.store).1;
        running = λ t a. y.running t a - started_by c t a;
      }
      else y
  step (cancels a t actor reason) y = record y { store = (cancel strip a t actor reason y.store).1 }

  unfoldable pub steps : List Event → System → System
  unfolding step
  steps [] y = y
  steps (e ∷ es) y = steps es (step e y)

abbrev pub count_started : Option Status → ℕ
count_started st = if is_started st then 1 else 0

-- For one action: its status says whether its operation runs, and a cancelled action is not live.
pub IsExclusive : System → Name → Name → Type 0
IsExclusive y t a =
    (y.running t a ≡ count_started (y.store.action_status t a))
    × (is_some (y.store.cancellations t a) ≡ true → is_live (y.store.action_status t a) ≡ false)

begin-IsExclusive :
    (strip : Name → Name) (c : Call) (y : System)
    → ((t a : Name) → IsExclusive y t a)
    → (t a : Name) → IsExclusive (step strip (begins c) y) t a
unfolding step begin IsExclusive
begin-IsExclusive strip c y good t a = ground (arith, good t a, good (scope c) (action c))

finish-IsExclusive :
    (strip : Name → Name) (c : Call) (r : Result Name Name) (y : System)
    → ((t a : Name) → IsExclusive y t a)
    → (t a : Name) → IsExclusive (step strip (finishes c r) y) t a
unfolding step finish IsExclusive
finish-IsExclusive strip c (ok _) y good t a = ground (arith, good t a, good (scope c) (action c))
finish-IsExclusive strip c (err _) y good t a = ground (arith, good t a, good (scope c) (action c))

cancel-IsExclusive :
    (strip : Name → Name) (b u actor reason : Name) (y : System)
    → ((t a : Name) → IsExclusive y t a)
    → (t a : Name) → IsExclusive (step strip (cancels b u actor reason) y) t a
unfolding step cancel cancel_new IsExclusive
cancel-IsExclusive strip b u actor reason y good t a = ground (arith, good t a, good u b)

step-IsExclusive :
    (strip : Name → Name) (e : Event) (y : System)
    → ((t a : Name) → IsExclusive y t a)
    → (t a : Name) → IsExclusive (step strip e y) t a
step-IsExclusive strip (begins c) y good = begin-IsExclusive strip c y good
step-IsExclusive strip (finishes c r) y good = finish-IsExclusive strip c r y good
step-IsExclusive strip (cancels b u actor reason) y good =
    cancel-IsExclusive strip b u actor reason y good

steps-IsExclusive :
    (strip : Name → Name) (es : List Event) (y : System)
    → ((t a : Name) → IsExclusive y t a)
    → (t a : Name) → IsExclusive (steps strip es y) t a
unfolding steps
steps-IsExclusive strip [] y good = good
steps-IsExclusive strip (e ∷ es) y good =
    steps-IsExclusive strip es (step strip e y) (step-IsExclusive strip e y good)

idle-IsExclusive : (t a : Name) → IsExclusive idle t a
unfolding IsExclusive
idle-IsExclusive t a = (refl, λ e. ground arith)

-- Whatever calls of `execute_once` and `cancel` overlap, from the empty store, at most one operation
-- runs for a tenant's action; once the action is cancelled none runs, and the status that the store
-- keeps for the action, that of its latest execution, is neither started nor succeeded.
pub running_le_one :
    (strip : Name → Name) (es : List Event) (t a : Name)
    → let y = steps strip es idle in
      (y.running t a ≤ 1)
      × (is_some (y.store.cancellations t a) ≡ true
          → (y.running t a ≡ 0) × (is_live (y.store.action_status t a) ≡ false))
unfolding IsExclusive
running_le_one strip es t a = ground (arith, steps-IsExclusive strip es idle idle-IsExclusive t a)
