-- ===== src/JobQueue/Retries.antt =====
-- Retries: idempotent submission, and the delay before the next attempt.
use compute_weaver.Base.{ℕ, zero, suc, ◌+◌, ◌*◌, ◌≤◌, ◌<◌, min, ◌≡◌, refl, arith, ok, Pool}
use compute_weaver.JobQueue.{Queue, Enqueue, enqueue, retry_delay}

-- A job that has been enqueued can be enqueued again, at any time: the call returns the same id and
-- adds nothing.
pub enqueue_retry :
    (pool : Pool Queue) (q : Enqueue) (now later : ℕ) (s : Queue) (id : ℕ)
    → (enqueue pool q now s).0 ≡ ok id
    → let t = (enqueue pool q now s).1 in enqueue pool q later t ≡ (ok id, t)
unfolding enqueue
enqueue_retry pool q now later s id e = ground arith

-- The delay doubles with each attempt up to the eighth, and is then 256 seconds: the limit of 300
-- is never reached.
pub retry_delay_bounds :
    (attempt : ℕ)
    → (1 ≤ retry_delay attempt)
      × (retry_delay attempt ≤ 256)
      × (attempt < 8 → retry_delay (attempt + 1) ≡ 2 * retry_delay attempt)
      × (8 ≤ attempt → retry_delay attempt ≡ 256)
unfolding retry_delay
retry_delay_bounds zero = (omega arith, omega arith, λ h. refl, λ h. absurd (omega arith))
retry_delay_bounds (suc zero) = (omega arith, omega arith, λ h. refl, λ h. absurd (omega arith))
retry_delay_bounds (suc (suc zero)) =
    (omega arith, omega arith, λ h. refl, λ h. absurd (omega arith))
retry_delay_bounds (suc (suc (suc zero))) =
    (omega arith, omega arith, λ h. refl, λ h. absurd (omega arith))
retry_delay_bounds (suc (suc (suc (suc zero)))) =
    (omega arith, omega arith, λ h. refl, λ h. absurd (omega arith))
retry_delay_bounds (suc (suc (suc (suc (suc zero))))) =
    (omega arith, omega arith, λ h. refl, λ h. absurd (omega arith))
retry_delay_bounds (suc (suc (suc (suc (suc (suc zero)))))) =
    (omega arith, omega arith, λ h. refl, λ h. absurd (omega arith))
retry_delay_bounds (suc (suc (suc (suc (suc (suc (suc zero))))))) =
    (omega arith, omega arith, λ h. refl, λ h. absurd (omega arith))
retry_delay_bounds (suc (suc (suc (suc (suc (suc (suc (suc n)))))))) =
    let k : min (suc (suc (suc (suc (suc (suc (suc (suc n)))))))) 8 ≡ 8 = omega arith in
    rw k (omega arith, omega arith, λ h. absurd (omega arith), λ h. refl)
