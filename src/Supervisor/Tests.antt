-- ===== src/Supervisor/Tests.antt =====
-- Runs of the supervisor, and the theorems at concrete inputs.
use sms_gate.Prelude.{◌≡◌, refl, true, false, some, [], ◌∷◌}
use sms_gate.Modem.{State}
use sms_gate.Backoff.{Draw, compute}
use sms_gate.Supervisor.{Life, run_supervised, is_banned}
use sms_gate.Supervisor.Restarts.{IsStopped, run_supervised-IsStopped}

abbrev even : Draw
even = record { coin = 1; part = record { num = 0; den = 1 } }

abbrev crashed : Life
crashed = record { final = State.failed; cancelled = false; cancelled_waiting = false; draw = even }

abbrev sim_gone : Life
sim_gone = record {
  final = State.banned;
  cancelled = false;
  cancelled_waiting = false;
  draw = even;
}

abbrev interrupted : Life
interrupted = record {
  final = State.failed;
  cancelled = false;
  cancelled_waiting = true;
  draw = even;
}

banned_after_two : run_supervised true (crashed ∷ crashed ∷ sim_gone ∷ crashed ∷ []) ≡ (
  record {
    made = 3;
    starts = 1 ∷ 2 ∷ 3 ∷ [];
    delays = 1_000_000_000 ∷ 2_000_000_000 ∷ [];
    reconnects = 2;
  },
  some is_banned,
)
unfolding run_supervised compute
banned_after_two = refl

-- One start, and one reconnect counted.
counted_early : (run_supervised true (interrupted ∷ [])).0.reconnects ≡ 1
unfolding run_supervised
counted_early = refl

run_supervised-IsStopped_example :
    IsStopped true
      (crashed ∷ crashed ∷ [])
      sim_gone
      (run_supervised true (crashed ∷ crashed ∷ sim_gone ∷ crashed ∷ []))
run_supervised-IsStopped_example =
    run_supervised-IsStopped true (crashed ∷ crashed ∷ []) (crashed ∷ []) sim_gone
      (
        record { live = refl; allowed = λ e. cc; waited = refl },
        (record { live = refl; allowed = λ e. cc; waited = refl }, tt),
      )
      λ r. r.allowed refl
