-- ===== src/Compensation.antt =====
-- packages/execution/compensation.py: a sequence of operations on a world, undone in reverse order
-- when one of them raises. What an operation that raises has done before it stays done.
pub mod Undo
mod Tests
use compute_weaver.Base.{
  Bool, false, not, ◌||◌, List, [], ◌∷◌, if◌then◌else◌, Name, Result, ok, err, is_ok, Method,
}

module _ (World Evidence : Type 0) where
  pub record Operation : Type 0 where
    pub apply : World → Result Name Evidence × World
    pub compensate : Evidence → World → Result Name Evidence × World

-- `failed e` is the exception of the operation, passed on
pub data Error : Type 0 where
  failed : Name → Error
  both_failed : Error

module _ {World Evidence : Type 0} where
  -- The loop over `reversed(completed)`: `completed` has the last operation first. It answers
  -- whether a compensation raised; an exception does not stop the loop.
  pub undo : List (Operation World Evidence × Evidence) → World → Bool × World
  undo [] w = (false, w)
  undo ((o, evidence) ∷ completed) w =
      let (r, w') = o.compensate evidence w in
      let (raised, w'') = undo completed w' in (not (is_ok r) || raised, w'')

  pub on_failure :
      Name → List (Operation World Evidence × Evidence) → Method World Error (List Evidence)
  unfolding undo
  on_failure e completed w =
      let (raised, w') = undo completed w in (err (if raised then both_failed else failed e), w')

  -- `tuple(evidence for _, evidence in completed)`, put before `done`
  pub collect : List (Operation World Evidence × Evidence) → List Evidence → List Evidence
  collect [] done = done
  collect ((_, evidence) ∷ completed) done = collect completed (evidence ∷ done)

  -- the loop of `try`, and what comes after it
  pub apply_each :
      List (Operation World Evidence)
      → List (Operation World Evidence × Evidence)
      → Method World Error (List Evidence)
  unfolding on_failure collect
  apply_each [] completed w = (ok (collect completed []), w)
  apply_each (o ∷ operations) completed w =
      let (r, w') = o.apply w in
      elim r [
        | ok evidence ↦ apply_each operations ((o, evidence) ∷ completed) w'
        | err e ↦ on_failure e completed w'
      ]

  pub execute_transaction : List (Operation World Evidence) → Method World Error (List Evidence)
  unfolding apply_each
  execute_transaction operations w = apply_each operations [] w
