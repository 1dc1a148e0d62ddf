-- ===== src/Idempotency/Database/Keys.antt =====
-- The database lets one execution run under a key at a time, and keeps its outcome.
use compute_weaver.Base.{
  ◌≡◌, refl, sym, ap, ◌∙◌, inl, inr, true, false, Option, none, some, List, [], ◌∷◌, arith, Name,
  is_blank, Option-cases, find, Result, ok, err, Pool, settle,
}
use compute_weaver.Idempotency.{started, in_progress, Error}
use compute_weaver.Idempotency.Database.{
  Execution, Tables, keyed, update, restarted, begin_row, begin_block, same_intent, completed_by,
  finish_block, begin_db, finish_db, Texts, stored,
}

find-restarted :
    (tenant key : Name) (rows : List Execution) (r : Execution)
    → find (keyed tenant key) rows ≡ some r
    → find (keyed tenant key) (update (keyed tenant key) restarted rows) ≡ some (restarted r)
unfolding update
find-restarted tenant key [] r e = ground arith
find-restarted tenant key (x ∷ rows) r e = ground (arith, find-restarted tenant key rows r)

find-completed :
    (tenant key digest : Name) (written : Result Name Name) (rows : List Execution) (r : Execution)
    → find (keyed tenant key) rows ≡ some r
    → r.intent_hash ≡ digest
    → find (keyed tenant key) (update (same_intent tenant key digest) (completed_by written) rows)
      ≡ some (completed_by written r)
unfolding update
find-completed tenant key digest written [] r e same = ground arith
find-completed tenant key digest (ok v) (x ∷ rows) r e same =
    ground (arith, find-completed tenant key digest (ok v) rows r)
find-completed tenant key digest (err v) (x ∷ rows) r e same =
    ground (arith, find-completed tenant key digest (err v) rows r)

abbrev IsRunning : Option Execution → Name → Type 0
IsRunning none digest = true ≡ false
IsRunning (some r) digest = (r.intent_hash ≡ digest) × (r.status ≡ started)

begin_row-IsRunning :
    (tenant key digest : Name) (r : Execution) (s : Tables)
    → find (keyed tenant key) s.executions ≡ some r
    → (begin_row tenant key digest r s).0 ≡ ok none
    → IsRunning (find (keyed tenant key) (begin_row tenant key digest r s).1.executions) digest
unfolding begin_row
begin_row-IsRunning tenant key digest r s found e =
    ground (arith, find-restarted tenant key s.executions r found)

begin-IsRunning :
    (tenant key action_id digest : Name) (s : Tables)
    → (begin_block tenant key action_id digest s).0 ≡ ok none
    → IsRunning
        (find (keyed tenant key) (begin_block tenant key action_id digest s).1.executions)
        digest
unfolding begin_block
begin-IsRunning tenant key action_id digest s e =
    elim (Option-cases (find (keyed tenant key) s.executions)) [
      | inl n ↦ ground arith
      | inr (r, n) ↦ ground (arith, begin_row-IsRunning tenant key digest r s n)
    ]

running_refuses :
    (tenant key action_id digest : Name) (s : Tables)
    → IsRunning (find (keyed tenant key) s.executions) digest
    → s.withdrawals tenant action_id ≡ none
    → begin_block tenant key action_id digest s ≡ (err in_progress, s)
unfolding begin_block begin_row
running_refuses tenant key action_id digest s running free = ground arith

-- what `begin` answers after an execution with this outcome
abbrev pub answer : Result Name Name → Option (Option Name)
answer (ok value) = some (some value)
answer (err _) = none

completed_answers :
    (tenant key action_id digest : Name) (written : Result Name Name) (s : Tables) (r : Execution)
    → find (keyed tenant key) s.executions ≡ some r
    → r.intent_hash ≡ digest
    → s.withdrawals tenant action_id ≡ none
    → (begin_block tenant key action_id digest (finish_block tenant key digest written s).1).0
      ≡ ok (answer written)
unfolding begin_block begin_row finish_block
completed_answers tenant key action_id digest (ok v) s r found same free =
    ground (arith, find-completed tenant key digest (ok v) s.executions r found same)
completed_answers tenant key action_id digest (err v) s r found same free =
    ground (arith, find-completed tenant key digest (err v) s.executions r found same)

settle-ok :
    {A : Type 0} (pool : Pool Tables) (s : Tables) (out : Result Error A × Tables) (a : A)
    → out.0 ≡ ok a
    → settle pool s out ≡ out
settle-ok pool s (ok b, t) a e = refl
settle-ok pool s (err b, t) a e = ground arith

settle-err :
    {A : Type 0} (pool : Pool Tables) (s : Tables) (out : Result Error A × Tables) (e : Error)
    → out ≡ (err e, s)
    → settle pool s out ≡ (err e, s)
settle-err pool s (ok b, t) e same = ground arith
settle-err pool s (err b, t) e same = rw pool.abort_rolls_back (ap (λ o. (o.0, s)) same)

settle-fst :
    {A : Type 0} (pool : Pool Tables) (s : Tables) (out : Result Error A × Tables)
    → (settle pool s out).0 ≡ out.0
settle-fst pool s (ok b, t) = refl
settle-fst pool s (err b, t) = refl

begin_frees :
    (tenant key action_id digest : Name) (s : Tables)
    → (begin_block tenant key action_id digest s).0 ≡ ok none
    → (begin_block tenant key action_id digest s).1.withdrawals tenant action_id ≡ none
unfolding begin_block begin_row
begin_frees tenant key action_id digest s e = ground arith

named_begin :
    (pool : Pool Tables) (tenant key action_id digest : Name) (s : Tables)
    → is_blank tenant ≡ false
    → is_blank action_id ≡ false
    → begin_db pool tenant key action_id digest s
      ≡ settle pool s (begin_block tenant key action_id digest s)
unfolding begin_db
named_begin pool tenant key action_id digest s named named' = rw (named, named')

named_finish :
    (pool : Pool Tables) (x : Texts) (tenant key digest : Name) (outcome : Result Name Name)
    (s : Tables)
    → is_blank tenant ≡ false
    → finish_db pool x tenant key digest outcome s
      ≡ finish_block tenant key digest (stored x outcome) s
unfolding finish_db finish_block
named_finish pool x tenant key digest outcome s named = rw named

running_answers :
    (tenant key action_id digest : Name) (written : Result Name Name) (s : Tables)
    → IsRunning (find (keyed tenant key) s.executions) digest
    → s.withdrawals tenant action_id ≡ none
    → (begin_block tenant key action_id digest (finish_block tenant key digest written s).1).0
      ≡ ok (answer written)
running_answers tenant key action_id digest written s running free =
    elim (Option-cases (find (keyed tenant key) s.executions)) [
      | inl n ↦ ground arith
      | inr (r, n) ↦ ground (arith, completed_answers tenant key action_id digest written s r n)
    ]

block_begun :
    (pool : Pool Tables) (tenant key action_id digest : Name) (written : Result Name Name)
    (s : Tables)
    → (begin_block tenant key action_id digest s).0 ≡ ok none
    → let t = (begin_block tenant key action_id digest s).1 in
      (settle pool t (begin_block tenant key action_id digest t) ≡ (err in_progress, t))
      × ((settle pool (finish_block tenant key digest written t).1 (
            begin_block tenant key action_id digest (finish_block tenant key digest written t).1)).0
          ≡ ok (answer written))
block_begun pool tenant key action_id digest written s e =
    let t = (begin_block tenant key action_id digest s).1 in
    let running = begin-IsRunning tenant key action_id digest s e in
    let free = begin_frees tenant key action_id digest s e in
    (
      settle-err pool t (begin_block tenant key action_id digest t) in_progress
          (running_refuses tenant key action_id digest t running free),
      settle-fst pool (finish_block tenant key digest written t).1
            (begin_block tenant key action_id digest (finish_block tenant key digest written t).1)
          ∙ running_answers tenant key action_id digest written t running free,
    )

-- When the first transaction of an execution has told it to run the operation, the same call meets
-- `in_progress` and changes nothing until the second transaction is done; after that it is given
-- the operation's result, as JSON stores it, without running it, or, where the operation raised, may run again. The
-- tenant and the action are named.
pub begin_db-finish_db :
    (pool : Pool Tables) (x : Texts) (tenant key action_id digest : Name)
    (outcome : Result Name Name) (s : Tables)
    → is_blank tenant ≡ false
    → is_blank action_id ≡ false
    → (begin_db pool tenant key action_id digest s).0 ≡ ok none
    → let t = (begin_db pool tenant key action_id digest s).1 in
      (begin_db pool tenant key action_id digest t ≡ (err in_progress, t))
      × ((begin_db pool tenant key action_id digest
            (finish_db pool x tenant key digest outcome t).1).0
          ≡ ok (answer (stored x outcome)))
begin_db-finish_db pool x tenant key action_id digest outcome s named named' e =
    let begun = begin_block tenant key action_id digest s in
    let before = named_begin pool tenant key action_id digest s named named' in
    let same = sym (settle-fst pool s begun) ∙ sym (ap (λ o. o.0) before) ∙ e in
    let kept = ap (λ o. o.1) (before ∙ settle-ok pool s begun none same) in
    rw
      (
        kept,
        named_finish pool x tenant key digest outcome begun.1 named,
        named_begin pool tenant key action_id digest begun.1 named named',
        named_begin pool tenant key action_id digest
            (finish_block tenant key digest (stored x outcome) begun.1).1 named named',
      )
      (block_begun pool tenant key action_id digest (stored x outcome) s same)
