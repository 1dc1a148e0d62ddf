-- ===== src/JobStates.antt =====
-- packages/workloads/state_machine.py: the states of a job and `transition`.
pub mod Histories
pub mod Progress
mod Tests
use compute_weaver.Base.{Bool, true, false, List, [], ◌∷◌, if◌then◌else◌, Result, ok, err}

pub data JobState : Type 0 where
  submitted admitted rejected queued running paused : JobState
  cancelling cancelled succeeded failed compensating : JobState

-- `target in TRANSITIONS[current]`
abbrev pub allows : JobState → JobState → Bool
allows submitted admitted = true
allows submitted rejected = true
allows submitted cancelled = true
allows admitted queued = true
allows admitted cancelled = true
allows queued running = true
allows queued cancelled = true
allows queued failed = true
allows running paused = true
allows running cancelling = true
allows running succeeded = true
allows running failed = true
allows paused running = true
allows paused cancelled = true
allows paused failed = true
allows cancelling cancelled = true
allows cancelling compensating = true
allows compensating cancelled = true
allows compensating failed = true
allows _ _ = false

pub data Error : Type 0 where
  invalid_transition : JobState → JobState → Error

pub transition : JobState → JobState → Result Error JobState
transition current target =
    if allows current target then ok target else err (invalid_transition current target)

-- `transition` to each of the states in turn, up to the first that is refused
pub run : JobState → List JobState → Result Error JobState
unfolding transition
run s [] = ok s
run s (t ∷ ts) = let rest = run t ts in if allows s t then rest else err (invalid_transition s t)
