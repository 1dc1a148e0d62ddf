-- ===== src/JobStates/Progress.antt =====
-- Jobs end, and stay where they ended.
use compute_weaver.Base.{◌≤◌, ◌≡◌, refl, Bool, true, false, List, [], ◌∷◌, arith, length, ok, err}
use compute_weaver.JobStates.{
  JobState, submitted, admitted, rejected, queued, running, paused, cancelling, cancelled,
  succeeded, failed, compensating, invalid_transition, transition, run,
}

abbrev pub is_final : JobState → Bool
is_final rejected = true
is_final cancelled = true
is_final succeeded = true
is_final failed = true
is_final _ = false

-- a shortest way to an end
abbrev pub way_out : JobState → List JobState
way_out submitted = cancelled ∷ []
way_out admitted = cancelled ∷ []
way_out queued = failed ∷ []
way_out running = cancelling ∷ cancelled ∷ []
way_out paused = cancelled ∷ []
way_out cancelling = cancelled ∷ []
way_out compensating = cancelled ∷ []
way_out _ = []

-- where that leads
abbrev pub exit : JobState → JobState
exit rejected = rejected
exit succeeded = succeeded
exit failed = failed
exit queued = failed
exit _ = cancelled

-- From every state the accepted transitions of `way_out`, at most two, lead to a final state, and
-- from a final state every transition is refused.
pub every_job_ends :
    (s t : JobState)
    → (run s (way_out s) ≡ ok (exit s))
      × (is_final (exit s) ≡ true)
      × (length (way_out s) ≤ 2)
      × (is_final s ≡ true → transition s t ≡ err (invalid_transition s t))
unfolding transition run
every_job_ends submitted t = (refl, refl, omega arith, λ h. cc)
every_job_ends admitted t = (refl, refl, omega arith, λ h. cc)
every_job_ends queued t = (refl, refl, omega arith, λ h. cc)
every_job_ends running t = (refl, refl, omega arith, λ h. cc)
every_job_ends paused t = (refl, refl, omega arith, λ h. cc)
every_job_ends cancelling t = (refl, refl, omega arith, λ h. cc)
every_job_ends compensating t = (refl, refl, omega arith, λ h. cc)
every_job_ends rejected t = (refl, refl, omega arith, λ h. refl)
every_job_ends cancelled t = (refl, refl, omega arith, λ h. refl)
every_job_ends succeeded t = (refl, refl, omega arith, λ h. refl)
every_job_ends failed t = (refl, refl, omega arith, λ h. refl)
