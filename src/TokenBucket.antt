-- ===== src/TokenBucket.antt =====
-- The rate limit by token bucket (internal/ratelimit/limiter.go). Times and durations are in
-- nanoseconds, and `now` is what time.Now() returns. The floating-point numbers of the code are exact
-- here: a token is a minute of parts, so that the refill of `perMin` tokens for each minute is
-- `perMin` parts for each nanosecond. A method holds the mutex, so it is one function from state to
-- state.
pub mod Admits
pub mod Available
pub mod Window
pub mod Registry
mod Tests
use Prim.Native.String.{String}
use text.Mathlib.Text.{◌==◌ as str_eq}
use sms_gate.Prelude.{
  ℕ, ◌+◌, ◌-◌, ◌*◌, ◌/◌, min, Bool, true, false, Option, none, some, List, [], ◌∷◌, ltb, leb, ◌==◌,
  if◌then◌else◌,
}
use sms_gate.Prelude.Int.{ℤ, pos, negsuc}
use sms_gate.Prelude.Text.{codes}
use sms_gate.Prelude.Strings.{atoi}
use sms_gate.Prelude.Dict.{Dict, lookup, insert}

abbrev pub second : ℕ
second = 1_000_000_000

abbrev pub minute : ℕ
minute = 60 * second

abbrev pub default_per_min : ℕ
default_per_min = 10

-- `tokens` and `max_tokens` in parts of a token, `refill_rate` in parts for each nanosecond.
pub record Bucket : Type 0 where
  pub tokens : ℕ
  pub max_tokens : ℕ
  pub refill_rate : ℕ
  pub last_refill : ℕ

unfoldable pub new_bucket : ℕ → ℕ → Bucket
new_bucket per_min now = record {
  tokens = per_min * minute;
  max_tokens = per_min * minute;
  refill_rate = per_min;
  last_refill = now;
}

-- The clock is monotonic: `now` is no earlier than the last refill.
unfoldable pub refill : ℕ → Bucket → Bucket
refill now b = record b {
  tokens = min (b.tokens + (now - b.last_refill) * b.refill_rate) b.max_tokens;
  last_refill = now;
}

-- Whether the request is permitted, and how long to wait if it is not.
pub record Verdict : Type 0 where
  pub ok : Bool
  pub retry_after : ℕ

unfoldable pub wait_for_token : Bucket → ℕ
wait_for_token b =
    let wait = (minute - b.tokens) / b.refill_rate in if ltb wait second then second else wait

unfoldable pub allow : ℕ → Bucket → Bucket × Verdict
unfolding refill wait_for_token
allow now b =
    let b' = refill now b in
    if leb minute b'.tokens
    then (record b' { tokens = b'.tokens - minute }, record { ok = true; retry_after = 0 })
    else (b', record { ok = false; retry_after = wait_for_token b' })

pub record Limiter : Type 0 where
  pub per_min : ℕ
  pub buckets : Dict Bucket

unfoldable pub new : ℕ → Limiter
new per_min = record { per_min = per_min; buckets = [] }

-- The number that the variable sets: anything but a number from 0 on leaves the default.
per_min_of : Option ℤ → ℕ
per_min_of (some (pos n)) = n
per_min_of (some (negsuc n)) = default_per_min
per_min_of none = default_per_min

-- The environment variable RATE_LIMIT_PER_ICCID, empty if it is not set.
unfoldable pub from_env : String → Option Limiter
unfolding per_min_of new
from_env v =
    let per_min = if str_eq v "" then default_per_min else per_min_of (atoi (codes v)) in
    if per_min == 0 then none else some (new per_min)

unfoldable pub bucket_or_new : Option Bucket → ℕ → ℕ → Bucket
bucket_or_new none per_min now = new_bucket per_min now
bucket_or_new (some b) per_min now = b

unfoldable pub allow_iccid : String → ℕ → Limiter → Limiter × Verdict
unfolding bucket_or_new new_bucket
allow_iccid iccid now l =
    let (b, verdict) = allow now (bucket_or_new (lookup iccid l.buckets) l.per_min now) in
    (record l { buckets = insert iccid b l.buckets }, verdict)

-- The answer to a request: the next handler serves it, or it is refused with a Retry-After header in
-- seconds.
pub data Response : Type 0 where
  served : Response
  too_many_requests : ℕ → Response

unfoldable pub retry_after_header : ℕ → ℕ
retry_after_header retry_after = let secs = retry_after / second in if ltb secs 1 then 1 else secs

-- `iccid` is the X-ICCID header of the request, empty if there is none.
unfoldable pub middleware : String → ℕ → Limiter → Limiter × Response
unfolding retry_after_header
middleware iccid now l =
    let (l', verdict) = allow_iccid iccid now l in
    if str_eq iccid ""
    then (l, served)
    else if verdict.ok
    then (l', served)
    else (l', too_many_requests (retry_after_header verdict.retry_after))

-- A sequence of requests: the ICCID of each and its time.
pub run : List (String × ℕ) → Limiter → Limiter × List (String × Response)
run [] l = (l, [])
run ((iccid, now) ∷ requests) l =
    let (l', response) = middleware iccid now l in
    let (l'', responses) = run requests l' in (l'', (iccid, response) ∷ responses)
