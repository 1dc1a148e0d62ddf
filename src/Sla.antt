-- ===== src/Sla.antt =====
-- packages/workloads/sla.py: whether a job keeps its service level.
pub mod Violations
mod Tests
use compute_weaver.Base.{
  ℕ, ◌+◌, ◌-◌, ◌*◌, Bool, false, not, ◌&&◌, ◌||◌, Option, none, some, List, [], ◌∷◌, ltb, leb, ◌==◌,
  if◌then◌else◌, is_some, length, Result, ok, err,
}
use compute_weaver.Base.Int.{ℤ, pos_part, ltb_ℤ, is_negative}
use compute_weaver.Approval.{Moment}

-- The fields of `Sla` of packages/workloads/models.py that are read.
pub record Sla : Type 0 where
  pub deadline : Moment
  pub max_latency_ms : Option ℤ

pub record SlaObservation : Type 0 where
  pub observed_at : Moment
  pub completed_at : Option Moment
  pub latency_ms : Option ℤ

pub data Violation : Type 0 where
  deadline_missed latency_exceeded : Violation

pub record SlaEvaluation : Type 0 where
  pub met : Bool
  pub violations : List Violation
  pub at_risk : Bool

-- the last is the comparison of a moment with no time zone
pub data Error : Type 0 where
  naive_timestamp negative_window naive_completion : Error

-- `observation.completed_at > sla.deadline`, and that it cannot be compared
abbrev pub is_late : Option Moment → ℕ → Bool
is_late none deadline = false
is_late (some m) deadline = ltb deadline m.at

abbrev pub is_naive : Option Moment → Bool
is_naive none = false
is_naive (some m) = not m.aware

abbrev pub is_slow : Option ℤ → Option ℤ → Bool
is_slow (some maximum) (some latency) = ltb_ℤ maximum latency
is_slow _ _ = false

abbrev pub violation_if : Bool → Violation → List Violation → List Violation
violation_if c v rest = if c then v ∷ rest else rest

-- One second is `second` of the clock's units.
module _ (second : ℕ) where
  -- `(deadline - observed_at).total_seconds() <= window`
  abbrev pub is_close : ℕ → ℕ → ℤ → Bool
  is_close deadline observed window = leb deadline (observed + pos_part window * second)

  pub evaluate_sla : Sla → SlaObservation → ℤ → Result Error SlaEvaluation
  evaluate_sla sla o window =
      let violations =
        violation_if (is_late o.completed_at sla.deadline.at) deadline_missed
          (violation_if (is_slow sla.max_latency_ms o.latency_ms) latency_exceeded []) in
      if not o.observed_at.aware || not sla.deadline.aware
      then err naive_timestamp
      else if is_negative window
      then err negative_window
      else if is_naive o.completed_at
      then err naive_completion
      else ok (record {
        met = length violations == 0;
        violations = violations;
        at_risk = not (is_some o.completed_at) && is_close sla.deadline.at o.observed_at.at window;
      })
