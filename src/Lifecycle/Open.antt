-- ===== src/Lifecycle/Open.antt =====
-- How a worker starts (internal/modem/worker.go: NewWorker, openPort). A port that is a host with a
-- number is dialled once; a serial port is opened with retries. What dial and open return is given.
-- Durations are in nanoseconds.
use sms_gate.Prelude.{
  ℕ, zero, suc, ◌+◌, ◌*◌, Bool, true, false, not, ◌&&◌, ◌||◌, List, [], ◌∷◌, ◌++◌, leb, ◌==◌,
  if◌then◌else◌,
}
use sms_gate.Prelude.Int.{ℤ, pos_part}
use sms_gate.Prelude.Text.{codes}
use sms_gate.Prelude.Strings.{has_prefix}

abbrev pub second : ℕ
second = 1_000_000_000

-- The settings of a worker for which NewWorker has defaults, as the configuration gives them.
pub record WorkerConfig : Type 0 where
  pub inbound_queue_size : ℤ
  pub stall_duration : ℤ
  pub signal_poll_interval : ℤ
  pub port_open_retries : ℤ

pub record Settings : Type 0 where
  pub queue_size : ℕ
  pub stall_duration : ℕ
  pub signal_poll_interval : ℕ
  pub port_open_retries : ℕ

-- `if x <= 0`
or_default : ℕ → ℤ → ℕ
or_default default x = if leb (pos_part x) 0 then default else pos_part x

unfoldable pub new_worker : WorkerConfig → Settings
unfolding or_default
new_worker cfg = record {
  queue_size = or_default 64 cfg.inbound_queue_size;
  stall_duration = or_default (5 * (60 * second)) cfg.stall_duration;
  signal_poll_interval = or_default (30 * second) cfg.signal_poll_interval;
  port_open_retries = or_default 3 cfg.port_open_retries;
}

has_colon : List ℕ → Bool
has_colon [] = false
has_colon (c ∷ s) = c == b':' || has_colon s

-- The attempts that are left, and the pauses; the call is made under the test.
open_serial : ℕ → ℕ → (ℕ → Bool) → List ℕ → Bool × List ℕ
open_serial zero attempt opens pauses = (false, pauses)
open_serial (suc left) attempt opens pauses =
    let rest = open_serial left (attempt + 1) opens (pauses ++ attempt * second ∷ []) in
    if opens attempt then (true, pauses) else rest

-- Whether the port is open, and the pauses that were made.
unfoldable pub open_port : Settings → List ℕ → Bool → (ℕ → Bool) → Bool × List ℕ
unfolding has_colon has_prefix open_serial
open_port settings port dials opens =
    if has_colon port && not (has_prefix (codes "/") port)
    then (dials, [])
    else open_serial settings.port_open_retries 1 opens []
