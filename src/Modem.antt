-- ===== src/Modem.antt =====
-- The state of a worker (internal/modem/worker.go: State, enterBanned, enterRecovery, enterReset,
-- runKeepalive, pollSignalStrength, checkCapacity, the CREG case of handleURC, doCheckSignal, the state
-- in executeTask and the loop of Run). What the serializer answers to a command is given: `false` or
-- `none` for an error. Left out are pauses, logs, metrics, the deletions that a purge makes on the SIM,
-- the tasks but CHECK_SIGNAL, and the goroutine that watches for stalls, which may set the state to failed
-- at any time.
pub mod Settles
mod Tests
use sms_gate.Prelude.{
  ℕ, ◌+◌, ◌*◌, ◌/◌, Bool, true, false, Option, none, some, List, [], ◌∷◌, ◌++◌, leb, ◌==◌,
  if◌then◌else◌,
}
use sms_gate.Prelude.Int.{ℤ}

pub data State : Type 0 where
  initializing active executing recovering resetting banned failed : State

pub data AlertCode : Type 0 where
  sim_banned sim_full modem_hang : AlertCode

-- The worker's fields that change, and the alerts that it has pushed.
pub record Status : Type 0 where
  pub state : State
  pub reg_stat : ℕ
  pub signal_rssi : ℤ
  pub alerts : List AlertCode

-- What the serializer's commands return while one event is handled.
pub record Answers : Type 0 where
  pub radio_off : Bool
  pub radio_on : Bool
  pub ping : Bool
  pub hard_reset : Bool
  pub registration : Option ℕ
  pub quality : Option ℤ
  pub storage : Option (ℕ × ℕ)

abbrev pub alert : AlertCode → Status → Status
alert code s = record s { alerts = s.alerts ++ code ∷ [] }

unfoldable pub enter_banned : Status → Status
enter_banned s = alert sim_banned (record s { state = banned })

unfoldable pub enter_reset : Answers → Status → Status
enter_reset a s =
    let s' = record s { state = resetting } in
    if a.hard_reset
    then record s' { state = initializing }
    else alert modem_hang (record s' { state = failed })

unfoldable pub enter_recovery : Answers → Status → Status
unfolding enter_reset
enter_recovery a s =
    let s' = record s { state = recovering } in
    let reset = enter_reset a s' in
    if a.radio_off
    then (if a.radio_on then (if a.ping then record s' { state = active } else reset) else reset)
    else reset

unfoldable pub store_rssi : Option ℤ → Status → Status
store_rssi none s = s
store_rssi (some rssi) s = record s { signal_rssi = rssi }

-- Registration is denied.
unfoldable pub ban_if_denied : ℕ → Status → Status
unfolding enter_banned
ban_if_denied stat s = if stat == 3 then enter_banned s else s

unfoldable pub keepalive_with : Option ℕ → Answers → Status → Status
unfolding enter_recovery store_rssi ban_if_denied
keepalive_with none a s = enter_recovery a s
keepalive_with (some stat) a s =
    ban_if_denied stat (store_rssi a.quality (record s { reg_stat = stat }))

unfoldable pub run_keepalive : Answers → Status → Status
unfolding keepalive_with
run_keepalive a s = keepalive_with a.registration a s

unfoldable pub handle_creg : ℕ → Status → Status
unfolding ban_if_denied
handle_creg stat s = ban_if_denied stat (record s { reg_stat = stat })

unfoldable pub poll_signal_strength : Answers → Status → Status
unfolding store_rssi
poll_signal_strength a s = store_rssi a.quality s

unfoldable pub capacity_with : ℕ → ℕ → Option (ℕ × ℕ) → Status → Status
capacity_with warn_pct purge_pct none s = s
capacity_with warn_pct purge_pct (some (used, total)) s =
    if total == 0
    then s
    else (if leb purge_pct (used * 100 / total)
        then alert sim_full s
        else (if leb warn_pct (used * 100 / total) then alert sim_full s else s))

unfoldable pub check_capacity : ℕ → ℕ → Answers → Status → Status
unfolding capacity_with
check_capacity warn_pct purge_pct a s = capacity_with warn_pct purge_pct a.storage s

unfoldable pub signal_with : Option ℤ → Option ℕ → Status → Status
signal_with none stat s = s
signal_with (some rssi) none s = s
signal_with (some rssi) (some stat) s = record s { signal_rssi = rssi; reg_stat = stat }

unfoldable pub do_check_signal : Answers → Status → Status
unfolding signal_with
do_check_signal a s = signal_with a.quality a.registration s

-- The deferred assignment puts the state back.
unfoldable pub execute_task : (Status → Status) → Status → Status
execute_task body s = record (body (record s { state = executing })) { state = s.state }

-- The cases of the loop, but for those that leave the status alone.
pub data Event : Type 0 where
  keepalive_tick capacity_tick signal_tick reset_requested : Answers → Event
  creg : ℕ → Event
  signal_task : Answers → Event

abbrev pub terminal : State → Bool
terminal failed = true
terminal banned = true
terminal initializing = false
terminal active = false
terminal executing = false
terminal recovering = false
terminal resetting = false

module _ (warn_pct purge_pct : ℕ) where
  unfoldable pub handle : Event → Status → Status
  unfolding run_keepalive check_capacity poll_signal_strength enter_reset handle_creg execute_task
      do_check_signal
  handle (keepalive_tick a) s = run_keepalive a s
  handle (capacity_tick a) s = check_capacity warn_pct purge_pct a s
  handle (signal_tick a) s = poll_signal_strength a s
  handle (reset_requested a) s = enter_reset a s
  handle (creg stat) s = handle_creg stat s
  handle (signal_task a) s = execute_task (do_check_signal a) s

  -- The loop over the events named here: a terminal state behind one ends it. Of the tasks it has
  -- CHECK_SIGNAL only; the others stand in Tasks and Lifecycle, the stall watchdog in Watchdog/Stall.
  unfoldable pub run : List Event → Status → Status
  run [] s = s
  run (e ∷ events) s =
      let s' = handle e s in let rest = run events s' in if terminal s'.state then s' else rest
