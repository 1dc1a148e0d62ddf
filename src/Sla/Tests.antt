-- ===== src/Sla/Tests.antt =====
-- Runs of packages/workloads/sla.py on small inputs.
use compute_weaver.Base.{ℕ, true, false, none, some, [], ◌∷◌}
use compute_weaver.Base.Int.{pos}
use compute_weaver.Approval.{Moment}
use compute_weaver.Sla.{Sla, SlaObservation, latency_exceeded, SlaEvaluation}

abbrev clock : ℕ → Moment
clock n = record { at = n; aware = true }

abbrev level : Sla
level = record { deadline = clock 1000; max_latency_ms = some (pos 20) }

abbrev running : SlaObservation
running = record { observed_at = clock 500; completed_at = none; latency_ms = some (pos 30) }

abbrev slow_job : SlaEvaluation
slow_job = record { met = false; violations = latency_exceeded ∷ []; at_risk = true }
