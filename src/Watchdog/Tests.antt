-- ===== src/Watchdog/Tests.antt =====
-- Runs of the watchdogs, and the theorems at concrete inputs.
use sms_gate.Prelude.{ℕ, ◌+◌, ◌*◌, ◌≤◌, ◌≡◌, refl, Bool, true, false, List, [], ◌∷◌, ◌++◌, arith}
use sms_gate.Prelude.Int.{negsuc, pos}
use sms_gate.Modem.{State}
use sms_gate.Watchdog.{Tick, Wake, done, ticked, Log, new_interval}
use sms_gate.Watchdog as Notify
use sms_gate.Watchdog.Pings.{pinged, run-pinged}
use sms_gate.Watchdog.Stall.{
  checks, run-ended, begun, ended, Watch, stamped, checked, run, run-Punctual, run-checked,
  run-ended, begun, ended,
}

abbrev at_time : ℕ → List Bool → Tick
at_time time probes = record { time = time; probes = probes; dialled = true; written = true }

abbrev wakes : List Wake
wakes =
    ticked (at_time 5 (true ∷ true ∷ []))
    ∷ ticked (at_time 10 (true ∷ false ∷ true ∷ []))
    ∷ ticked (at_time 15 [])
    ∷ done
    ∷ ticked (at_time 20 [])
    ∷ []

abbrev fresh : Log
fresh = record { pings = []; calls = 0; stopped = false }

three_ticks :
    Notify.run "/run/notify" wakes fresh ≡ record { pings = 5 ∷ 15 ∷ []; calls = 4; stopped = true }
unfolding Notify.run
three_ticks = refl

intervals : (new_interval (negsuc 0) ≡ 5_000_000_000) × (new_interval (pos 7) ≡ 7)
unfolding new_interval
intervals = (refl, refl)

pings_of_wakes : (Notify.run "/run/notify" wakes fresh).pings ≡ [] ++ pinged wakes
pings_of_wakes = run-pinged "/run/notify" wakes fresh refl

abbrev watched : Watch
watched = record {
  last_loop = 100;
  state = State.active;
  saved = State.active;
  stalls = 0;
  watching = true;
}

punctual_run :
    (run 10 (checked 105 ∷ stamped 108 ∷ checked 110 ∷ checked 115 ∷ []) watched).stalls ≡ 0
punctual_run =
    run-Punctual 10 (checked 105 ∷ stamped 108 ∷ checked 110 ∷ checked 115 ∷ []) watched
      (omega arith, (omega arith, (omega arith, tt)))

run-checked_example :
    ((run 10 (checked 103 ∷ checked 108 ∷ checked 113 ∷ checked 118 ∷ []) watched).state
      ≡ State.failed)
    × ((run 10 (checked 103 ∷ checked 108 ∷ checked 113 ∷ checked 118 ∷ []) watched).stalls ≡ 0 + 1)
    × (103 + 3 * 5 ≤ 100 + 2 * 10)
run-checked_example = run-checked 10 103 watched (omega arith) (omega arith) (omega arith) refl

run-ended_example :
    ((run 10 (begun ∷ checked 113 ∷ ended ∷ stamped 114 ∷ checks (200 ∷ [])) watched).state
      ≡ State.active)
    × ((run 10 (begun ∷ checked 113 ∷ ended ∷ stamped 114 ∷ checks (200 ∷ [])) watched).stalls
        ≡ 0 + 1)
run-ended_example = run-ended 10 113 114 (200 ∷ []) watched (omega arith) refl
