-- ===== src/JobQueue/Tests.antt =====
-- Worker 1 claims the only job for 60 seconds, and worker 2 claims it when the lease is over.
use compute_weaver.Base.{
  ◌≡◌, refl, false, Option, none, some, [], ◌∷◌, arith, Name, ok, err, rollback,
}
use compute_weaver.Base.Int.{pos}
use compute_weaver.JobQueue.{
  Queue, DurableJob, lease_lost, Enqueue, new_row, enqueue, claimable, leased, durable, claim,
  heartbeat, succeed, fail,
}
use compute_weaver.JobQueue.Claims.{Claimed, claim-Claimed}
use compute_weaver.JobQueue.Leases.{claim_takes_lease}

abbrev request : Enqueue
request = record {
  tenant_id = 5;
  kind = 1;
  payload = 2;
  idempotency_key = 3;
  max_attempts = pos 1;
  available_at = none;
}

abbrev none_yet : Queue
none_yet = record { rows = []; next_id = 7 }

abbrev waiting : Queue
waiting = record { rows = new_row request 7 100 ∷ []; next_id = 8 }

enqueued : enqueue rollback request 100 none_yet ≡ (ok 7, waiting)
unfolding enqueue
enqueued = refl

abbrev first_claim : Queue
first_claim = record { rows = leased 1 160 (new_row request 7 100) ∷ []; next_id = 8 }

claimed_by_1 :
    claim (λ id. false) 1 60 100 waiting
    ≡ (ok (some (durable 160 (new_row request 7 100))), first_claim)
unfolding claim claimable
claimed_by_1 = refl

claim-Claimed_example :
    (job : Option DurableJob) × ((claim (λ id. false) 2 60 200 first_claim).0 ≡ ok job)
    × Claimed (λ id. false) 2 60 200 first_claim (claim (λ id. false) 2 60 200 first_claim).1 job
claim-Claimed_example = claim-Claimed (λ id. false) 2 60 200 first_claim (omega arith)

abbrev held_by_1 : DurableJob
held_by_1 = durable 160 (new_row request 7 100)

abbrev held_by_2 : DurableJob
held_by_2 = durable 260 (leased 1 160 (new_row request 7 100))

-- The second attempt of a job that may have one.
second_attempt : (claim (λ id. false) 2 60 200 first_claim).0 ≡ ok (some held_by_2)
unfolding claim claimable
second_attempt = refl

claim_takes_lease_example :
    let t = (claim (λ id. false) 2 60 200 first_claim).1 in
    (heartbeat rollback held_by_1 1 60 210 t ≡ (ok false, t))
    × ((result : Name) → succeed rollback held_by_1 1 result t ≡ (err lease_lost, t))
    × ((error : Name) → fail rollback held_by_1 1 error 210 t ≡ (err lease_lost, t))
claim_takes_lease_example =
    claim_takes_lease rollback (λ id. false) 2 1 60 200 210 60 held_by_2 held_by_1 first_claim
      (omega arith) refl (omega arith) second_attempt
