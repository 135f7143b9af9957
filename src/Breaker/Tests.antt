-- ===== src/Breaker/Tests.antt =====
-- Runs of the breaker, and the theorems at concrete inputs.
use sms_gate.Prelude.{ℕ, ◌<◌, min, ◌≡◌, refl, ◌↔◌, List, [], ◌∷◌, arith}
use sms_gate.Breaker.{
  Breaker, closed, opened, new, new_default, allow, record_success, record_failure, Call, asked,
  succeeded, failed, step, run,
}
use sms_gate.Breaker.Streak.{streak, run-streak}

abbrev tripping : List (Call × ℕ)
tripping = (failed, 10) ∷ (succeeded, 20) ∷ (failed, 30) ∷ (asked, 35) ∷ (failed, 40) ∷ []

tripping_opens : (run tripping (new 2 100)).state ≡ opened
unfolding run step new allow record_success record_failure
tripping_opens = refl

run_probe : (run ((asked, 140) ∷ (failed, 150) ∷ []) (run tripping (new 2 100))).open_until ≡ 250
unfolding run step new allow record_success record_failure
run_probe = refl

default_closed : new_default.threshold ≡ 5
unfolding new_default
default_closed = refl

run-streak_example :
    (((run tripping (new 2 100)).state ≡ closed) ↔ (streak 0 tripping < 2))
    × ((run tripping (new 2 100)).failures ≡ min 2 (streak 0 tripping))
run-streak_example = run-streak 2 100 tripping (omega arith)

abbrev one_short : Breaker
one_short = record {
  state = closed;
  failures = 1;
  threshold = 2;
  reset_timeout = 100;
  open_until = 0;
}

abbrev waiting : List (Call × ℕ)
waiting = (asked, 50) ∷ (failed, 60) ∷ []
