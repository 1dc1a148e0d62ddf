-- ===== src/JobStates/Tests.antt =====
-- A job that is paused once and then succeeds.
use compute_weaver.Base.{◌≡◌, refl, List, [], ◌∷◌, ok}
use compute_weaver.JobStates.{
  JobState, submitted, admitted, queued, running, paused, succeeded, run,
}

abbrev life : List JobState
life = admitted ∷ queued ∷ running ∷ paused ∷ running ∷ succeeded ∷ []

run-life : run submitted life ≡ ok succeeded
unfolding run
run-life = refl
