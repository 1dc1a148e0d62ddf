-- ===== src/JobStates/Histories.antt =====
-- What a job must have gone through to be where it is.
use compute_weaver.Base.{ℕ, ◌≡◌, true, ◌||◌, List, [], ◌∷◌, map, arith, ◌==◌, elem, ok}
use compute_weaver.JobStates.{
  JobState, submitted, admitted, rejected, queued, running, paused, cancelling, cancelled,
  succeeded, failed, compensating, allows, run,
}

abbrev pub code : JobState → ℕ
code submitted = 0
code admitted = 1
code rejected = 2
code queued = 3
code running = 4
code paused = 5
code cancelling = 6
code cancelled = 7
code succeeded = 8
code failed = 9
code compensating = 10

-- the states that a job in a state has been in, at least
abbrev pub passed : JobState → List ℕ
passed submitted = []
passed admitted = 1 ∷ []
passed rejected = 2 ∷ []
passed queued = 1 ∷ 3 ∷ []
passed running = 1 ∷ 3 ∷ 4 ∷ []
passed paused = 1 ∷ 3 ∷ 4 ∷ 5 ∷ []
passed cancelling = 1 ∷ 3 ∷ 4 ∷ 6 ∷ []
passed cancelled = 7 ∷ []
passed succeeded = 1 ∷ 3 ∷ 4 ∷ 8 ∷ []
passed failed = 1 ∷ 3 ∷ 9 ∷ []
passed compensating = 1 ∷ 3 ∷ 4 ∷ 6 ∷ 10 ∷ []

passed-allows :
    (c : ℕ) (s t : JobState)
    → allows s t ≡ true
    → elem c (passed t) ≡ true
    → (elem c (passed s) || (c == code t)) ≡ true
passed-allows c submitted t h e = ground arith
passed-allows c admitted t h e = ground arith
passed-allows c rejected t h e = ground arith
passed-allows c queued t h e = ground arith
passed-allows c running t h e = ground arith
passed-allows c paused t h e = ground arith
passed-allows c cancelling t h e = ground arith
passed-allows c cancelled t h e = ground arith
passed-allows c succeeded t h e = ground arith
passed-allows c failed t h e = ground arith
passed-allows c compensating t h e = ground arith

run-passed :
    (c : ℕ) (s : JobState) (ts : List JobState) (end : JobState)
    → run s ts ≡ ok end
    → elem c (passed end) ≡ true
    → (elem c (passed s) || elem c (map code ts)) ≡ true
unfolding run
run-passed c s [] end r e = ground arith
run-passed c s (t ∷ ts) end r e = ground (arith, run-passed c t ts end, passed-allows c s t)

-- A job that a sequence of accepted transitions has taken from submitted to a state has been in
-- each of the states that lead there: an active or finished job (running, paused, cancelling,
-- compensating, succeeded, failed) has been admitted and queued, and one that has succeeded,
-- paused or been taken to compensation has run.
pub run-history :
    (c : ℕ) (ts : List JobState) (end : JobState)
    → run submitted ts ≡ ok end
    → elem c (passed end) ≡ true
    → elem c (map code ts) ≡ true
run-history c ts end r e = run-passed c submitted ts end r e
