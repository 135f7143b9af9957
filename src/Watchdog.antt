-- ===== src/Watchdog.antt =====
-- The watchdog that keeps systemd from restarting the process (internal/watchdog/watchdog.go), and the
-- goroutine in Run of internal/modem/worker.go that finds a stalled worker, in Watchdog/Stall. What the
-- probes and the system calls return at each tick is given.
pub mod Pings
pub mod Stall
mod Tests
use Prim.Native.String.{String}
use text.Mathlib.Text.{◌==◌ as str_eq}
use sms_gate.Prelude.{
  ℕ, suc, ◌+◌, ◌*◌, Bool, true, false, Option, none, some, List, [], ◌∷◌, ◌++◌, leb, if◌then◌else◌,
}
use sms_gate.Prelude.Int.{ℤ, pos_part}

abbrev pub default_interval : ℕ
default_interval = 5 * 1_000_000_000

-- The interval of New, for a configured one in nanoseconds.
unfoldable pub new_interval : ℤ → ℕ
new_interval interval = if leb (pos_part interval) 0 then default_interval else pos_part interval

-- What one tick meets: its time, the health of each probe, and whether the socket is dialled and
-- written.
pub record Tick : Type 0 where
  pub time : ℕ
  pub probes : List Bool
  pub dialled : Bool
  pub written : Bool

-- What the loop of Run waits for.
pub data Wake : Type 0 where
  done : Wake
  ticked : Tick → Wake

-- The times of the pings that were written, the probes that were called, and whether Run has returned.
pub record Log : Type 0 where
  pub pings : List ℕ
  pub calls : ℕ
  pub stopped : Bool

-- tick: the first probe that fails ends it. The number of probes that were called, and success.
unfoldable pub tick : List Bool → ℕ × Bool
tick [] = (0, true)
tick (true ∷ probes) = let (calls, ok) = tick probes in (suc calls, ok)
tick (false ∷ probes) = (1, false)

-- sdNotify: without NOTIFY_SOCKET it does nothing.
unfoldable pub sd_notify : String → Tick → List ℕ
sd_notify sock t =
    if str_eq sock "" then [] else if t.dialled then (if t.written then t.time ∷ [] else []) else []

unfoldable pub on_tick : String → Tick → Log → Log
unfolding tick sd_notify
on_tick sock t log =
    let (calls, ok) = tick t.probes in
    record log {
      calls = log.calls + calls;
      pings = log.pings ++ (if ok then sd_notify sock t else []);
    }

unfoldable pub run : String → List Wake → Log → Log
unfolding on_tick
run sock [] log = log
run sock (done ∷ wakes) log = record log { stopped = true }
run sock (ticked t ∷ wakes) log = run sock wakes (on_tick sock t log)
