-- ===== src/Breaker.antt =====
-- The circuit breaker (internal/breaker/breaker.go). Each method runs under the mutex, so it is one
-- function from the state before to the state after; `now` is what `time.Now()` returns in it, in
-- nanoseconds. The state is an int of which only three values are ever stored: they are the type
-- here, and the `default` branches have no counterpart.
pub mod Streak
pub mod Cooling
mod Tests
use sms_gate.Prelude.{ℕ, ◌+◌, ◌*◌, Bool, true, false, List, [], ◌∷◌, ltb, leb, if◌then◌else◌}

pub data State : Type 0 where
  closed opened half_open : State

abbrev pub second : ℕ
second = 1_000_000_000

abbrev pub default_threshold : ℕ
default_threshold = 5

abbrev pub default_reset_timeout : ℕ
default_reset_timeout = 60 * second

-- A threshold of 0 or less trips at the first failure, as 0 does here.
pub record Breaker : Type 0 where
  pub state : State
  pub failures : ℕ
  pub threshold : ℕ
  pub reset_timeout : ℕ
  pub open_until : ℕ

-- The state that is not given is Go's zero value: closed, no failure.
pub new : ℕ → ℕ → Breaker
new threshold reset_timeout = record {
  state = closed;
  failures = 0;
  threshold = threshold;
  reset_timeout = reset_timeout;
  open_until = 0;
}

pub new_default : Breaker
unfolding new
new_default = new default_threshold default_reset_timeout

allow_in : State → ℕ → Breaker → Breaker × Bool
allow_in closed now b = (b, true)
allow_in opened now b =
    if ltb now b.open_until then (b, false) else (record b { state = half_open }, true)
allow_in half_open now b = (b, true)

pub allow : ℕ → Breaker → Breaker × Bool
unfolding allow_in
allow now b = allow_in b.state now b

-- Both an open and a half-open breaker close; a closed one stays closed.
closes : State → State
closes closed = closed
closes opened = closed
closes half_open = closed

pub record_success : Breaker → Breaker
unfolding closes
record_success b = record b { failures = 0; state = closes b.state }

trip : ℕ → Breaker → Breaker
trip now b = record b { state = opened; open_until = now + b.reset_timeout }

fail_in : State → ℕ → Breaker → Breaker
unfolding trip
fail_in opened now b = b
fail_in half_open now b = trip now b
fail_in closed now b =
    let b' = record b { failures = b.failures + 1 } in
    if leb b'.threshold b'.failures then trip now b' else b'

pub record_failure : ℕ → Breaker → Breaker
unfolding fail_in
record_failure now b = fail_in b.state now b

-- One call of the breaker, at a time, and a sequence of calls, the first one first.
pub data Call : Type 0 where
  asked succeeded failed : Call

pub step : Call → ℕ → Breaker → Breaker
step asked now b = (allow now b).0
step succeeded now b = record_success b
step failed now b = record_failure now b

pub run : List (Call × ℕ) → Breaker → Breaker
run [] b = b
run ((c, now) ∷ calls) b = run calls (step c now b)
