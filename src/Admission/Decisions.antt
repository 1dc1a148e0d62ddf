-- ===== src/Admission/Decisions.antt =====
-- What an admission says of the job and does to the ledger.
use compute_weaver.Base.{
  ℕ, ◌+◌, ◌*◌, ◌≤◌, ◌≡◌, refl, ◌⊎◌, inl, inr, true, false, some, List, [], ◌∷◌, arith, length, any,
  elem, ok,
}
use compute_weaver.Base.Int.{pos}
use compute_weaver.Quota.Service.{QuotaService}
use compute_weaver.Admission.{
  Job, count_protected, AdmissionResult, is_unreliable, is_online, blocking, charge_job, evaluate,
  Constraint,
}
use compute_weaver.Compute.{ComputeSnapshot, schedulable_gpu_count}

pub record IsFeasible (timedelta : ℕ → ℕ) (job : Job) (snapshot : ComputeSnapshot) (now : ℕ)
    : Type 0 where
  pub same_tenant : snapshot.tenant_id ≡ job.tenant_id
  pub reliable : is_unreliable snapshot.quality ≡ false
  pub in_time : now + timedelta job.estimated_hours ≤ job.deadline
  pub fits : job.gpu_count ≤ schedulable_gpu_count snapshot
  pub spares :
      is_online job.workload_class ≡ false
      → count_protected snapshot.reservations + job.gpu_count ≤ schedulable_gpu_count snapshot
  pub allowed :
      1 ≤ length job.allowed_sites
      → any (λ n. elem n.site_id job.allowed_sites) snapshot.nodes ≡ true

cons_cases : {A : Type 0} (xs : List A) → (xs ≡ []) ⊎ ((x : A) × ((ys : List A) × (xs ≡ x ∷ ys)))
cons_cases [] = inl refl
cons_cases (x ∷ xs) = inr (x, (xs, refl))

module _ (timedelta : ℕ → ℕ) (one_hour : ℕ) where
  unblocked :
      (job : Job) (snapshot : ComputeSnapshot) (now : ℕ)
      → blocking timedelta one_hour job snapshot now ≡ []
      → IsFeasible timedelta job snapshot now
  unfolding blocking
  unblocked job snapshot now e = record {
    same_tenant = ground arith;
    reliable = ground arith;
    in_time = ground arith;
    fits = ground arith;
    spares = λ h. ground arith;
    allowed = λ h. ground arith;
  }

  module _ {S : Type 0} (quota : QuotaService S) where
    -- what `evaluate-charges` says of a result `r` that left the ledger `t`
    abbrev Decided : Job → ComputeSnapshot → ℕ → S → AdmissionResult → S → Type 0
    Decided job snapshot now s r t =
        (r.admitted ≡ true
          → IsFeasible timedelta job snapshot now
            × (charge_job timedelta one_hour quota job s ≡ (ok true, t)))
        × (r.admitted ≡ false → t ≡ s)

    evaluate-blocked :
        (job : Job) (snapshot : ComputeSnapshot) (now : ℕ) (s t : S) (r : AdmissionResult)
        (b : Constraint) (bs : List Constraint)
        → blocking timedelta one_hour job snapshot now ≡ b ∷ bs
        → evaluate timedelta one_hour quota job snapshot now s ≡ (ok r, t)
        → Decided job snapshot now s r t
    unfolding evaluate
    evaluate-blocked job snapshot now s t r b bs n e = (λ h. ground arith, λ h. ground arith)

    evaluate-unblocked :
        (job : Job) (snapshot : ComputeSnapshot) (now : ℕ) (s t : S) (r : AdmissionResult)
        → blocking timedelta one_hour job snapshot now ≡ []
        → evaluate timedelta one_hour quota job snapshot now s ≡ (ok r, t)
        → Decided job snapshot now s r t
    unfolding evaluate
    evaluate-unblocked job snapshot now s t r n e = (
      λ h. (unblocked job snapshot now n, ground arith),
      λ h.
          quota.refused_keeps job.tenant_id (pos job.gpu_count)
            (pos (job.gpu_count * job.estimated_hours)) (some job.id) s t (ground arith),
    )

    -- A job that is admitted is feasible: the snapshot is of its tenant and reliable, it ends before
    -- its deadline, its GPUs are free, and are so beside the protected ones if it is no online
    -- inference, and one of its sites, if it names any, is in the snapshot. Its reservation has been
    -- granted, and the ledger is what that left. A job that is rejected leaves the ledger as it was.
    pub evaluate-charges :
        (job : Job) (snapshot : ComputeSnapshot) (now : ℕ) (s t : S) (r : AdmissionResult)
        → evaluate timedelta one_hour quota job snapshot now s ≡ (ok r, t)
        → (r.admitted ≡ true
            → IsFeasible timedelta job snapshot now
              × (charge_job timedelta one_hour quota job s ≡ (ok true, t)))
          × (r.admitted ≡ false → t ≡ s)
    unfolding evaluate
    evaluate-charges job snapshot now s t r e =
        elim (cons_cases (blocking timedelta one_hour job snapshot now)) [
          | inl n ↦ evaluate-unblocked job snapshot now s t r n e
          | inr (b, (bs, n)) ↦ evaluate-blocked job snapshot now s t r b bs n e
        ]
