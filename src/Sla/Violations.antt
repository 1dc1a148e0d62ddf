-- ===== src/Sla/Violations.antt =====
-- What an evaluation says of the service level.
use compute_weaver.Base.{ℕ, ◌+◌, ◌*◌, ◌≤◌, ◌≡◌, ◌↔◌, true, false, none, arith, ok}
use compute_weaver.Base.Int.{pos}
use compute_weaver.Sla.{Sla, SlaObservation, SlaEvaluation, is_late, is_slow, evaluate_sla}

-- Of an evaluation: the level is met exactly if the job is not completed after its deadline and, where
-- both are known, its latency does not exceed the limit; and only a job that is not completed is at
-- risk, exactly if its deadline is at most the window after the observation.
pub evaluate_sla-met :
    (second : ℕ) (sla : Sla) (o : SlaObservation) (window : ℕ) (r : SlaEvaluation)
    → evaluate_sla second sla o (pos window) ≡ ok r
    → (r.met ≡ true ↔ (
        (is_late o.completed_at sla.deadline.at ≡ false)
        × (is_slow sla.max_latency_ms o.latency_ms ≡ false)))
      × (r.at_risk ≡ true
          ↔ ((o.completed_at ≡ none) × (sla.deadline.at ≤ o.observed_at.at + window * second)))
unfolding evaluate_sla
evaluate_sla-met second sla o window r e =
    ((λ h. ground arith, λ h. ground arith), (λ h. ground arith, λ h. ground arith))
