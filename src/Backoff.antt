-- ===== src/Backoff.antt =====
-- The back-off between two attempts (internal/backoff/backoff.go). Durations are in nanoseconds. The
-- floating-point numbers of the code are read as the exact fractions they stand for, and only the
-- last conversion to an integer cuts. What `math/rand` returns is an argument.
pub mod Bounds
mod Tests
use sms_gate.Prelude.{ℕ, ◌+◌, ◌-◌, ◌*◌, ◌/◌, ◌^◌, min, Bool, ltb, ◌==◌, if◌then◌else◌}
use sms_gate.Prelude.Int.{ℤ, pos_part}

abbrev pub second : ℕ
second = 1_000_000_000

abbrev pub default_base : ℕ
default_base = 1 * second

abbrev pub default_max : ℕ
default_max = 60 * second

pub record Fraction : Type 0 where
  pub num : ℕ
  pub den : ℕ

abbrev pub default_jitter : Fraction
default_jitter = record { num = 20; den = 100 }

-- `rand.Intn(2)` and `rand.Float64()`.
pub record Draw : Type 0 where
  pub coin : ℕ
  pub part : Fraction

-- `if attempt < 1`.
at_least_one : ℤ → ℕ
at_least_one attempt = if ltb (pos_part attempt) 1 then 1 else pos_part attempt

exponent : ℕ → ℕ
exponent attempt = if ltb 62 (attempt - 1) then 62 else attempt - 1

-- `delay + jitter` and `delay - jitter`, cut to an integer; the difference stops at 0, as
-- `if total < 0` makes it.
jittered : ℕ → Fraction → Draw → ℕ
jittered delay jitter draw =
    let scale = jitter.den * draw.part.den in
    let change = jitter.num * draw.part.num * delay in
    if draw.coin == 0 then (delay * scale - change) / scale else (delay * scale + change) / scale

unfoldable pub compute_with : ℤ → ℕ → ℕ → Fraction → Draw → ℕ
unfolding at_least_one exponent jittered
compute_with attempt base max jitter draw =
    jittered (min (base * 2 ^ exponent (at_least_one attempt)) max) jitter draw

unfoldable pub compute : ℤ → Draw → ℕ
unfolding compute_with
compute attempt draw = compute_with attempt default_base default_max default_jitter draw
