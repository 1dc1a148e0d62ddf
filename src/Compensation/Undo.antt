-- ===== src/Compensation/Undo.antt =====
-- A transaction of operations that can be undone does all or nothing.
use compute_weaver.Base.{
  ◌≡◌, refl, ◌∙◌, inl, inr, true, false, List, [], ◌∷◌, Name, All, Result, ok, err, is_ok,
  Result-cases,
}
use compute_weaver.Compensation.{
  Operation, Error, undo, failed, collect, apply_each, on_failure, execute_transaction,
}

module _ {World Evidence : Type 0} where
  -- An operation that raises leaves the world as it was, and one that does not can be undone.
  abbrev pub IsReversible : Operation World Evidence → Type 0
  IsReversible o =
      ((w : World) (e : Name) → (o.apply w).0 ≡ err e → (o.apply w).1 ≡ w)
      × ((w : World) (evidence : Evidence)
          → (o.apply w).0 ≡ ok evidence
          → (is_ok (o.compensate evidence (o.apply w).1).0 ≡ true)
            × ((o.compensate evidence (o.apply w).1).1 ≡ w))

  -- The world at `w` was reached from `start` by the completed operations.
  Reached : World → List (Operation World Evidence × Evidence) → World → Type 0
  Reached start completed w = undo completed w ≡ (false, start)

  -- The operations in order, without compensation.
  unfoldable pub run : List (Operation World Evidence) → World → Result Name (List Evidence × World)
  run [] w = ok ([], w)
  run (o ∷ operations) w = elim (o.apply w).0 [
    | err e ↦ err e
    | ok evidence ↦ elim (run operations (o.apply w).1) [
      | err e ↦ err e
      | ok (done, w') ↦ ok (evidence ∷ done, w')
    ]
  ]

  -- the outcome of a transaction that began at `start`
  abbrev pub atomic :
      World → Result Name (List Evidence × World) → Result Error (List Evidence) × World
  atomic start (ok (done, w)) = (ok done, w)
  atomic start (err e) = (err (failed e), start)

  abbrev after_completed :
      List (Operation World Evidence × Evidence)
      → World
      → Result Name (List Evidence × World)
      → Result Error (List Evidence) × World
  after_completed completed start (ok (done, w)) = (ok (collect completed done), w)
  after_completed completed start (err e) = (err (failed e), start)

  undo-Reached :
      (o : Operation World Evidence) (evidence : Evidence)
      (completed : List (Operation World Evidence × Evidence)) (start w : World)
      → IsReversible o
      → Reached start completed w
      → (o.apply w).0 ≡ ok evidence
      → Reached start ((o, evidence) ∷ completed) (o.apply w).1
  unfolding Reached undo
  undo-Reached o evidence completed start w reversible reached e =
      rw ((reversible.1 w evidence e).0, (reversible.1 w evidence e).1) reached

  one_more :
      (o : Operation World Evidence) (evidence : Evidence)
      (completed : List (Operation World Evidence × Evidence)) (start : World)
      (r : Result Name (List Evidence × World))
      → after_completed ((o, evidence) ∷ completed) start r
        ≡ after_completed completed start
            (elim r [ err e ↦ err e | ok (done, w') ↦ ok (evidence ∷ done, w') ])
  unfolding collect
  one_more o evidence completed start (ok (done, w)) = refl
  one_more o evidence completed start (err e) = refl

  apply_each-after_completed :
      (operations : List (Operation World Evidence))
      (completed : List (Operation World Evidence × Evidence)) (start w : World)
      → All IsReversible operations
      → Reached start completed w
      → apply_each operations completed w ≡ after_completed completed start (run operations w)
  unfolding apply_each run on_failure Reached
  apply_each-after_completed [] completed start w reversible reached = refl
  apply_each-after_completed (o ∷ operations) completed start w reversible reached =
      elim (Result-cases (o.apply w).0) [
        | inl (evidence, n) ↦
            let later =
              apply_each-after_completed operations ((o, evidence) ∷ completed) start (o.apply w).1
                reversible.1 (undo-Reached o evidence completed start w reversible.0 reached n) in
            rw n (later ∙ one_more o evidence completed start (run operations (o.apply w).1))
        | inr (e, n) ↦ rw (n, reversible.0.0 w e n, on_failure, reached)
      ]

  none_completed :
      (start : World) (r : Result Name (List Evidence × World))
      → after_completed [] start r ≡ atomic start r
  unfolding collect
  none_completed start (ok (done, w)) = refl
  none_completed start (err e) = refl

  -- Over operations that leave the world alone when they raise, and are undone by their
  -- compensation when they do not, a transaction is atomic: if no operation raises it returns the
  -- evidence of all in order, and the world after all; if one raises it passes the exception on, and
  -- the world is as it was before the first.
  pub execute_transaction-atomic :
      (operations : List (Operation World Evidence)) (w : World)
      → All IsReversible operations
      → execute_transaction operations w ≡ atomic w (run operations w)
  unfolding execute_transaction Reached undo
  execute_transaction-atomic operations w reversible =
      apply_each-after_completed operations [] w w reversible refl
      ∙ none_completed w (run operations w)
