-- ===== src/TokenBucket/Tests.antt =====
-- Runs of the limiter, and the theorems at concrete inputs.
use sms_gate.Prelude.Strings.{atoi}
use sms_gate.Prelude.Dict.{lookup, insert}
use Prim.Native.String.{String}
use sms_gate.Prelude.{ℕ, ◌+◌, ◌-◌, ◌*◌, ◌≤◌, ◌≡◌, refl, none, some, List, [], ◌∷◌, arith, ltb, inl}
use sms_gate.TokenBucket.{
  Bucket, served, too_many_requests, second, minute, new, allow, run, from_env, middleware,
  allow_iccid,
}
use sms_gate.TokenBucket.Admits.{allow-allow}
use sms_gate.TokenBucket.Window.{permitted, last_time, permitted-run}

-- One token in 30 seconds: two requests are served, the third is told to wait for 29 seconds, and is
-- refused again after them, since half a second is missing.
abbrev burst : List (String × ℕ)
burst =
    ("A", 0)
    ∷ ("A", 0)
    ∷ ("A", 500_000_000)
    ∷ ("B", 600_000_000)
    ∷ ("A", 29_500_000_000)
    ∷ ("A", 30_000_000_000)
    ∷ []

burst_runs :
    (run burst (new 2)).1
    ≡ ("A", served)
      ∷ ("A", served)
      ∷ ("A", too_many_requests 29)
      ∷ ("B", served)
      ∷ ("A", too_many_requests 1)
      ∷ ("A", served)
      ∷ []
unfolding run new middleware allow_iccid allow lookup insert
burst_runs = refl

env_zero : (from_env "0" ≡ none) × (from_env "-3" ≡ some (new 10)) × (from_env "7" ≡ some (new 7))
unfolding from_env atoi
env_zero = (refl, refl, refl)

permitted-run_example :
    permitted "A" (run burst (run (("A", 0) ∷ []) (new 2)).0).1 * minute
    ≤ 2 * (minute + (last_time 0 burst - 0))
permitted-run_example = permitted-run 2 0 "A" (("A", 0) ∷ []) burst refl (omega arith)

abbrev spent : Bucket
spent = record { tokens = 0; max_tokens = 2 * minute; refill_rate = 2; last_refill = 0 }

-- After 29.9 of the 30 seconds.
allow-allow_example :
    ((allow (0 + 29_900_000_000) (allow 0 spent).0).1.ok
      ≡ ltb (allow 0 spent).1.retry_after 29_900_000_000)
    × (second ≤ (allow 0 spent).1.retry_after)
unfolding allow
allow-allow_example =
    allow-allow 2 0 29_900_000_000 spent (record { capped = omega arith; full = refl; rate = refl })
      (omega arith) refl (inl (omega arith)) λ e. absurd (omega arith)
