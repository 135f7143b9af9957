-- ===== src/Lifecycle/Tests.antt =====
-- Runs of a worker's life, and the theorem at a concrete input.
use sms_gate.Prelude.Strings.{has_prefix}
use sms_gate.Prelude.Text.{codes}
use sms_gate.Prelude.Int.{pos, negsuc}
use sms_gate.Lifecycle.Open.{open_port, new_worker}
use Prim.Native.String.{String}
use sms_gate.Prelude.{
  ◌==◌, ℕ, ◌+◌, ◌≡◌, refl, Bool, true, false, Option, none, some, List, [], ◌∷◌, leb,
}
use sms_gate.Router.{Task}
use sms_gate.Tunnel.{send_failed}
use sms_gate.Lifecycle.{Modem, Turn, dispatches, takes_task, handles, Worker, run}
use sms_gate.Lifecycle.Acks.{Ended, Accounted, ack_ids, task_ids, run-Ended}

-- The state counts failures; three of them are fatal.
abbrev modem : Modem ℕ
modem = record {
  hard_reset = λ w. (w, true);
  radio_off = λ w. (w + 1, false);
  radio_on = λ w. (w, true);
  delete_all_sms = λ w. (w, true);
  send_sms = λ task w. (w + 1, some send_failed);
  check_signal = λ w. (w, none);
}

abbrev hard : String → Option Bool
hard payload = some false

abbrev task : String → String → Task
task id action = record { message_id = id; action = action; payload = "" }

abbrev idle : Worker ℕ
idle = record { world = 0; inbound = []; acks = []; accepted = [] }

abbrev fatal : ℕ → Bool
fatal w = leb 3 w

-- The third task does not fit, the second is refused at the end.
abbrev turns : List (Turn ℕ)
turns =
    dispatches (task "t1" "SEND_SMS")
    ∷ dispatches (task "t2" "REBOOT_MODEM")
    ∷ dispatches (task "t3" "CHECK_SIGNAL")
    ∷ takes_task
    ∷ []

answered : ack_ids (run modem hard 2 fatal turns idle).0.acks ≡ "t1" ∷ "t2" ∷ []
unfolding ack_ids run
answered = refl

-- A task that waits when the worker ends in a terminal state has no acknowledgement.
lost :
    ack_ids
      (run modem hard 2 fatal
        (dispatches (task "t1" "SEND_SMS") ∷ handles (λ w. 3) ∷ [])
        idle).0.acks
    ≡ []
unfolding ack_ids run
lost = refl

run-Ended_example :
    Ended (run modem hard 2 fatal turns idle).0 (run modem hard 2 fatal turns idle).1
unfolding Accounted ack_ids task_ids
run-Ended_example = run-Ended modem hard 2 fatal turns idle refl

-- The third attempt opens the port, after pauses of one and two seconds; a TCP address is dialled.
opens_third :
    (open_port
        (new_worker (record {
          inbound_queue_size = pos 0;
          stall_duration = negsuc 0;
          signal_poll_interval = pos 7;
          port_open_retries = pos 0;
        }))
        (codes "/dev/ttyUSB0")
        false
        (λ k. k == 3)
      ≡ (true, 1_000_000_000 ∷ 2_000_000_000 ∷ []))
    × (open_port
          (new_worker (record {
            inbound_queue_size = pos 0;
            stall_duration = pos 0;
            signal_poll_interval = pos 0;
            port_open_retries = pos 0;
          }))
          (codes "localhost:7000")
          true
          (λ k. false)
        ≡ (true, []))
unfolding open_port new_worker has_prefix
opens_third = (refl, refl)
