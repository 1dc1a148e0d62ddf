-- ===== src/JobQueue/Leases.antt =====
-- Only the worker that holds the lease completes a job.
use compute_weaver.Base.{
  ℕ, ◌+◌, ◌<◌, ◌≡◌, refl, ◌≢◌, inl, inr, Bool, false, none, some, List, [], ◌∷◌, arith, ◌==◌, Name,
  is_blank, Option-cases, any, ok, err, Pool,
}
use compute_weaver.JobQueue.{
  JobRow, Queue, DurableJob, lease_lost, update_rows, has_id, leased, claim, holds, heartbeat,
  succeed, fail, candidate, unlocked, succeeded, complete, status_after, retry_delay,
}

any-leased :
    (worker other : Name) (until id : ℕ) (job : DurableJob) (rows : List JobRow)
    → job.id ≡ id
    → (other == worker) ≡ false
    → any (holds job other) (update_rows (has_id id) (leased worker until) rows) ≡ false
unfolding update_rows
any-leased worker other until id job [] same h = refl
any-leased worker other until id job (row ∷ rows) same h =
    ground (arith, any-leased worker other until id job rows same h)

update_none :
    (p : JobRow → Bool) (f : JobRow → JobRow) (rows : List JobRow)
    → any p rows ≡ false
    → update_rows p f rows ≡ rows
unfolding update_rows
update_none p f [] h = refl
update_none p f (row ∷ rows) h = ground (arith, update_none p f rows)

-- after a claim of the job nobody but the claimer holds it
claim-any :
    (locked : ℕ → Bool) (worker other : Name) (lease_seconds now : ℕ) (job held : DurableJob)
    (s : Queue)
    → (other == worker) ≡ false
    → held.id ≡ job.id
    → (claim locked worker lease_seconds now s).0 ≡ ok (some job)
    → any (holds held other) (claim locked worker lease_seconds now s).1.rows ≡ false
unfolding claim
claim-any locked worker other lease_seconds now job held s ne same e =
    elim (Option-cases (candidate now (unlocked locked s.rows))) [
      | inl no_row ↦ ground arith
      | inr (row, found) ↦
          let q : held.id ≡ row.id = ground arith in
          ground (arith, any-leased worker other (now + lease_seconds) row.id held s.rows q ne)
    ]

complete_lost :
    (job : DurableJob) (worker : Name) (f : JobRow → JobRow) (s : Queue)
    → any (holds job worker) s.rows ≡ false
    → complete job worker f s ≡ (err lease_lost, s)
unfolding complete
complete_lost job worker f s h = ground (arith, update_none (holds job worker) f s.rows h)

-- Once a worker has claimed a job, any other worker that held it has lost it: its heartbeat answers
-- no, its completion and its failure raise, and none of the three changes the queue.
pub claim_takes_lease :
    (pool : Pool Queue) (locked : ℕ → Bool) (worker other : Name) (lease_seconds now later beat : ℕ)
    (job held : DurableJob) (s : Queue)
    → other ≢ worker
    → held.id ≡ job.id
    → 0 < held.tenant_id
    → (claim locked worker lease_seconds now s).0 ≡ ok (some job)
    → let t = (claim locked worker lease_seconds now s).1 in
      (heartbeat pool held other beat later t ≡ (ok false, t))
      × ((result : Name) → succeed pool held other result t ≡ (err lease_lost, t))
      × ((error : Name) → fail pool held other error later t ≡ (err lease_lost, t))
unfolding heartbeat succeed fail
claim_takes_lease pool locked worker other lease_seconds now later beat job held s ne same named e =
    let t = (claim locked worker lease_seconds now s).1 in
    let differ : (other == worker) ≡ false = ground arith in
    let tenant : is_blank held.tenant_id ≡ false = ground arith in
    let lost : any (holds held other) t.rows ≡ false =
      claim-any locked worker other lease_seconds now job held s differ same e in
    (
      ground (
        arith,
        lost,
        update_none (holds held other) (λ r. record r { lease_expires_at = some (later + beat) })
            t.rows lost,
      ),
      λ result. rw tenant (
          ground (
            arith,
            pool.abort_rolls_back t t,
            complete_lost held other
                (λ r. record r {
                  status = succeeded;
                  outcome = some result;
                  leased_by = none;
                  lease_expires_at = none;
                })
                t lost,
          )),
      λ error. rw tenant (
          ground (
            arith,
            pool.abort_rolls_back t t,
            complete_lost held other
                (λ r. record r {
                  status = status_after held;
                  last_error = some error;
                  available_at = later + retry_delay held.attempt;
                  leased_by = none;
                  lease_expires_at = none;
                })
                t lost,
          )),
    )
