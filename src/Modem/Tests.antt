-- ===== src/Modem/Tests.antt =====
-- Runs of a worker's state, and the theorem at a concrete input.
use sms_gate.Prelude.{◌≡◌, refl, true, false, none, some, [], ◌∷◌}
use sms_gate.Prelude.Int.{pos}
use sms_gate.Modem.{
  initializing, active, sim_banned, Status, Answers, keepalive_tick, capacity_tick, creg,
  signal_task, run, handle,
}
use sms_gate.Modem.Settles.{Settled, run-Settled}

-- The modem has hung up: registration cannot be read and the radio cannot be cycled.
abbrev silent : Answers
silent = record {
  radio_off = false;
  radio_on = false;
  ping = false;
  hard_reset = true;
  registration = none;
  quality = none;
  storage = some (96, 100);
}

abbrev ready : Status
ready = record { state = active; reg_stat = 1; signal_rssi = pos 0; alerts = [] }

-- After a reset the worker goes on without the init sequence.
reset_goes_on :
    (run 80 95 (keepalive_tick silent ∷ capacity_tick silent ∷ signal_task silent ∷ []) ready).state
    ≡ initializing
unfolding run handle
reset_goes_on = refl

denied : (run 80 95 (creg 3 ∷ capacity_tick silent ∷ []) ready).alerts ≡ sim_banned ∷ []
unfolding run handle
denied = refl

run-Settled_example :
    let s = run 80 95 (capacity_tick silent ∷ keepalive_tick silent ∷ creg 3 ∷ []) ready in
    Settled s.state s.alerts
run-Settled_example =
    run-Settled 80 95 (capacity_tick silent ∷ keepalive_tick silent ∷ creg 3 ∷ []) ready refl tt
