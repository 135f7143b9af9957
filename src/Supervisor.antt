-- ===== src/Supervisor.antt =====
-- The restarts of a worker (internal/modem/supervisor.go). A life is one call of a worker's Run: what
-- it returns, and whether the context has ended behind it and while the supervisor waits. The
-- supervisor is a recursion on the lives that happen.
pub mod Replay
pub mod Restarts
mod Tests
use sms_gate.Prelude.{
  ℕ, suc, ◌+◌, Bool, true, false, ◌||◌, Option, none, some, List, [], ◌∷◌, ◌++◌, ◌==◌,
  if◌then◌else◌,
}
use sms_gate.Prelude.Int.{pos}
use sms_gate.Modem.{State, banned}
use sms_gate.Backoff.{Draw, compute}

pub record Life : Type 0 where
  pub final : State
  pub cancelled : Bool
  pub cancelled_waiting : Bool
  pub draw : Draw

-- The workers that `factory` has made, the attempts that were started, the waits that were begun, in
-- nanoseconds, and the counter of reconnects.
pub record Log : Type 0 where
  pub made : ℕ
  pub starts : List ℕ
  pub delays : List ℕ
  pub reconnects : ℕ

pub data Ending : Type 0 where
  context_done is_banned done_waiting : Ending

pub banned_state : State → Bool
banned_state State.banned = true
banned_state _ = false

-- The first attempt takes the worker that the port was read from.
start : ℕ → Log → Log
start attempt log = record log {
  made = if attempt == 1 then log.made else log.made + 1;
  starts = log.starts ++ attempt ∷ [];
}

-- The counter is absent in a gateway without metrics.
reconnecting : Bool → ℕ → Log → Log
reconnecting met delay log = record log {
  delays = log.delays ++ delay ∷ [];
  reconnects = if met then log.reconnects + 1 else log.reconnects;
}

-- One round of the loop for each life, with the attempts made before it.
pub supervise : Bool → ℕ → Log → List Life → Log × Option Ending
unfolding banned_state start reconnecting
supervise met before log [] = (log, none)
supervise met before log (life ∷ lives) =
    let attempt = suc before in
    let started = start attempt log in
    let waiting = reconnecting met (compute (pos attempt) life.draw) started in
    let rest = supervise met attempt waiting lives in
    if life.cancelled
    then (started, some context_done)
    else if banned_state life.final
    then (started, some is_banned)
    else if life.cancelled_waiting
    then (waiting, some done_waiting)
    else rest

pub run_supervised : Bool → List Life → Log × Option Ending
unfolding supervise
run_supervised met lives =
    supervise met 0 (record { made = 1; starts = []; delays = []; reconnects = 0 }) lives
