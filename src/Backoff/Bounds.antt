-- ===== src/Backoff/Bounds.antt =====
-- How long the back-off is.
use native.Mathlib.Decide.{dec_lt}
use native.Mathlib.Nat.{
  le_of_mul-le-mul_right, mul-le-mul_left, mul-le-mul_right, pow-le-pow_right, le-div_iff_mul-le,
  div-mul-le_self,
}
use sms_gate.Prelude.{
  ℕ, zero, suc, ◌+◌, ◌-◌, ◌*◌, ◌/◌, ◌^◌, ◌≤◌, ◌<◌, min, ◌≡◌, refl, arith, Bool-cases, ◌==◌, inl,
  inr,
}
use sms_gate.Prelude.Int.{pos}
use sms_gate.Backoff.{
  default_jitter, default_max, default_base, Draw, compute, compute_with, jittered, exponent,
  at_least_one, second,
}

-- The delay without its random part: one second, doubled at each attempt, up to a minute.
abbrev pub nominal : ℕ → ℕ
nominal zero = second
nominal (suc zero) = second
nominal (suc (suc n)) = min (2 * nominal (suc n)) (60 * second)

-- The draws of `math/rand`: `Float64` returns a number from 0 up to 1, without 1.
pub record IsDraw (d : Draw) : Type 0 where
  pub part_lt : d.part.num < d.part.den

nominal_lem : (n : ℕ) → nominal (suc n) ≡ min (second * 2 ^ n) (60 * second)
nominal_lem zero = refl
nominal_lem (suc n) = omega (arith, nominal_lem n)

minute-pow : (n : ℕ) → 6 ≤ n → 60 * second ≤ second * 2 ^ n
minute-pow n h =
    omega (arith, mul-le-mul_left second (pow-le-pow_right {n = 2} (omega arith) {i = 6} {j = n} h))

nominal-exponent : (n : ℕ) → nominal (suc n) ≡ min (default_base * 2 ^ exponent (suc n)) default_max
unfolding exponent
nominal-exponent n = elim (dec_lt 62 n) [
  | yes big ↦ ground (arith, nominal_lem n, minute-pow n (omega arith), minute-pow 62 (omega arith))
  | no small ↦ ground (arith, nominal_lem n)
]

-- A quotient is at least four fifths, and at most six fifths, of a number if its dividend is.
le-div_scaled : (n x k : ℕ) → 0 < k → 4 * n * k ≤ 5 * x → 4 * n / 5 ≤ x / k
le-div_scaled n x k positive h =
    (le-div_iff_mul-le positive).1 (omega (arith, mul-le-mul_right k (div-mul-le_self (4 * n) 5)))

div-le_scaled : (n x k : ℕ) → 0 < k → 5 * x ≤ 6 * n * k → x / k ≤ 6 * n / 5
div-le_scaled n x k positive h =
    (le-div_iff_mul-le (omega arith)).1
      (le_of_mul-le-mul_right (omega (arith, mul-le-mul_right 5 (div-mul-le_self x k))) positive)

module _ (delay : ℕ) (draw : Draw) (h : IsDraw draw) where
  abbrev scale : ℕ
  scale = 100 * draw.part.den

  abbrev change : ℕ
  change = 20 * draw.part.num * delay

  scaled : 5 * change ≤ delay * scale
  scaled = omega (arith, mul-le-mul_right delay h.part_lt)

  jittered_near :
      let d = jittered delay default_jitter draw in (4 * delay / 5 ≤ d) × (d ≤ 6 * delay / 5)
  unfolding jittered
  jittered_near =
      let positive : 0 < scale = omega (arith, h.part_lt) in
      elim (Bool-cases (draw.coin == 0)) [
        | inl down ↦ rw down (
          le-div_scaled delay (delay * scale - change) scale positive (omega (arith, scaled)),
          div-le_scaled delay (delay * scale - change) scale positive (omega (arith, scaled)),
        )
        | inr up ↦ rw up (
          le-div_scaled delay (delay * scale + change) scale positive (omega (arith, scaled)),
          div-le_scaled delay (delay * scale + change) scale positive (omega (arith, scaled)),
        )
      ]

-- The delay before the attempt after the n-th is between 80 % and 120 % of one second doubled n - 1
-- times and cut to a minute, for n above 0 and every draw of math/rand.
pub compute-nominal :
    (n : ℕ) (draw : Draw)
    → IsDraw draw
    → 0 < n
    → (4 * nominal n / 5 ≤ compute (pos n) draw) × (compute (pos n) draw ≤ 6 * nominal n / 5)
unfolding compute compute_with exponent at_least_one
compute-nominal zero draw h p = absurd (omega arith)
compute-nominal (suc n) draw h p = rw (← delay) (jittered_near (nominal (suc n)) draw h)
  where
    delay :
        nominal (suc n) ≡ min (default_base * 2 ^ exponent (at_least_one (pos (suc n)))) default_max
    delay = ground (arith, nominal-exponent n)

-- The delay of `ComputeWith` without its random part.
abbrev pub nominal_with : ℕ → ℕ → ℕ → ℕ
nominal_with base max n = min (base * 2 ^ min (n - 1) 62) max

-- Any base and maximum, with the default jitter.
pub compute_with-nominal_with :
    (n base max : ℕ) (draw : Draw)
    → IsDraw draw
    → 0 < n
    → let d = compute_with (pos n) base max default_jitter draw in
      (4 * nominal_with base max n / 5 ≤ d) × (d ≤ 6 * nominal_with base max n / 5)
unfolding compute_with exponent at_least_one
compute_with-nominal_with n base max draw h p =
    let e : min (n - 1) 62 ≡ exponent (at_least_one (pos n)) = ground arith in
    rw e (jittered_near (min (base * 2 ^ exponent (at_least_one (pos n))) max) draw h)
