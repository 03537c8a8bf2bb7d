-- ===== src/Watch/Backoff.antt =====
-- The wait after failed starts of a watch.
use cluster_api_provider_tin.Prelude.{ℕ, zero, suc, ◌+◌, ◌*◌, ◌≤◌, ◌≡◌, ◌⊎◌, arith}
use cluster_api_provider_tin.Watch.{backoff_base, backoff_max, pow2, backoff_duration}

-- After at least one failure the wait is at least ten seconds, and it is never more than five
-- minutes; it never shrinks with another failure, and doubles until it meets the five minutes.
pub backoff_duration_bounds :
    (n : ℕ)
    → 1 ≤ n
    → (2 * backoff_base ≤ backoff_duration n)
      × (backoff_duration n ≤ backoff_max)
      × (backoff_duration n ≤ backoff_duration (n + 1))
      × ((backoff_duration (n + 1) ≡ 2 * backoff_duration n)
          ⊎ (backoff_duration (n + 1) ≡ backoff_max))
unfolding backoff_duration pow2
backoff_duration_bounds zero h = ground arith
backoff_duration_bounds (suc zero) h = ground arith
backoff_duration_bounds (suc (suc zero)) h = ground arith
backoff_duration_bounds (suc (suc (suc zero))) h = ground arith
backoff_duration_bounds (suc (suc (suc (suc zero)))) h = ground arith
backoff_duration_bounds (suc (suc (suc (suc (suc zero))))) h = ground arith
backoff_duration_bounds (suc (suc (suc (suc (suc (suc n)))))) h = ground arith
