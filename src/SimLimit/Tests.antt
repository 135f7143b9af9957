-- ===== src/SimLimit/Tests.antt =====
-- Runs of the send limits, and the theorems at concrete inputs.
use sms_gate.Prelude.{ℕ, ◌+◌, ◌*◌, ◌≤◌, ◌≡◌, refl, List, [], ◌∷◌, arith}
use sms_gate.SimLimit.{
  RateLimitConfig, SimRateLimiter, RateLimiterRegistry, minute, hour, day, new_sim_rate_limiter,
  allow_sim,
}
use sms_gate.SimLimit.Sliding.{in_span}
use sms_gate.SimLimit.AllOrNothing.{run, run-in_span}

abbrev two_per_minute : RateLimitConfig
two_per_minute = record { per_min = 2; per_hour = 3; per_day = 10 }

abbrev times : List ℕ
times = 0 ∷ 10 ∷ 20 ∷ minute ∷ (minute + 5) ∷ (2 * minute) ∷ []

admitted_times : (run times (new_sim_rate_limiter two_per_minute) []).1 ≡ 0 ∷ 10 ∷ minute ∷ []
unfolding run allow_sim new_sim_rate_limiter
admitted_times = refl

run-in_span_example :
    (in_span 20 minute (run times (new_sim_rate_limiter two_per_minute) []).1 ≤ 2)
    × (in_span 20 hour (run times (new_sim_rate_limiter two_per_minute) []).1 ≤ 3)
    × (in_span 20 day (run times (new_sim_rate_limiter two_per_minute) []).1 ≤ 10)
run-in_span_example = run-in_span two_per_minute times 20 (omega arith)

abbrev fresh : SimRateLimiter
fresh = record {
  per_min = record { limit = 1; duration = minute; events = 5 ∷ [] };
  per_hour = record { limit = 3; duration = hour; events = 5 ∷ [] };
  per_day = record { limit = 9; duration = day; events = 5 ∷ [] };
}

abbrev one_sim : RateLimiterRegistry
one_sim = ("8949", fresh) ∷ []
