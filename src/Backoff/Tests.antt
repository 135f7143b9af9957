-- ===== src/Backoff/Tests.antt =====
-- Runs of the back-off, and the theorems at concrete inputs.
use sms_gate.Prelude.{◌*◌, ◌/◌, ◌≤◌, ◌≡◌, refl, arith}
use sms_gate.Prelude.Int.{pos, negsuc}
use sms_gate.Backoff.{Draw, compute}
use sms_gate.Backoff.Bounds.{nominal, compute-nominal}

abbrev half_up : Draw
half_up = record { coin = 1; part = record { num = 1; den = 2 } }

abbrev half_down : Draw
half_down = record { coin = 0; part = record { num = 1; den = 2 } }

first_delay : compute (negsuc 3) half_down ≡ 900_000_000
unfolding compute
first_delay = refl

-- Above the maximum of 60 seconds.
above_max : compute (pos 9) half_up ≡ 66_000_000_000
unfolding compute
above_max = refl

compute-nominal_example :
    (4 * nominal 9 / 5 ≤ compute (pos 9) half_up) × (compute (pos 9) half_up ≤ 6 * nominal 9 / 5)
compute-nominal_example = compute-nominal 9 half_up (omega arith) (omega arith)
