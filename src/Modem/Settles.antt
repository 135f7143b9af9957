-- ===== src/Modem/Settles.antt =====
-- The states between two events.
use sms_gate.Prelude.{
  ℕ, ◌*◌, ◌/◌, ◌≡◌, refl, inl, inr, false, Option, none, some, List, [], ◌∷◌, ◌++◌, leb, ◌==◌,
  Bool-cases,
}
use sms_gate.Prelude.Int.{ℤ}
use sms_gate.Modem.{
  State, initializing, active, executing, recovering, resetting, banned, failed, AlertCode,
  sim_banned, sim_full, modem_hang, Status, Answers, enter_reset, enter_recovery, store_rssi,
  ban_if_denied, keepalive_with, run_keepalive, handle_creg, poll_signal_strength, capacity_with,
  check_capacity, signal_with, do_check_signal, execute_task, Event, keepalive_tick, capacity_tick,
  signal_tick, reset_requested, creg, signal_task, handle, terminal, run,
}

-- The last alert.
abbrev pub last_alert : List AlertCode → Option AlertCode
last_alert [] = none
last_alert (a ∷ []) = some a
last_alert (a ∷ b ∷ alerts) = last_alert (b ∷ alerts)

-- A worker waits as active or, after a reset, as initializing; it has stopped as banned or failed, and
-- the last thing that it pushed was the alert that says why.
abbrev pub Settled : State → List AlertCode → Type 0
Settled initializing alerts = Unit {0}
Settled active alerts = Unit {0}
Settled executing alerts = ⊥
Settled recovering alerts = ⊥
Settled resetting alerts = ⊥
Settled banned alerts = last_alert alerts ≡ some sim_banned
Settled failed alerts = last_alert alerts ≡ some modem_hang

last_alert-snoc : (alerts : List AlertCode) (a : AlertCode) → last_alert (alerts ++ a ∷ []) ≡ some a
last_alert-snoc [] a = refl
last_alert-snoc (b ∷ []) a = refl
last_alert-snoc (b ∷ c ∷ alerts) a = last_alert-snoc (c ∷ alerts) a

abbrev Rests : Status → Type 0
Rests s = Settled s.state s.alerts

enter_reset-Rests : (a : Answers) (s : Status) → Rests (enter_reset a s)
unfolding enter_reset
enter_reset-Rests a s = elim (Bool-cases a.hard_reset) [
  | inl ok ↦ rw ok tt
  | inr bad ↦ rw bad (last_alert-snoc s.alerts modem_hang)
]

enter_recovery-Rests : (a : Answers) (s : Status) → Rests (enter_recovery a s)
unfolding enter_recovery
enter_recovery-Rests a s =
    let reset = enter_reset-Rests a (record s { state = recovering }) in
    elim (Bool-cases a.radio_off) [
      | inr bad ↦ rw bad reset
      | inl off ↦ elim (Bool-cases a.radio_on) [
        | inr bad ↦ rw (off, bad) reset
        | inl on ↦ elim (Bool-cases a.ping) [
          | inr bad ↦ rw (off, on, bad) reset
          | inl ok ↦ rw (off, on, ok) tt
        ]
      ]
    ]

ban_if_denied-Rests : (stat : ℕ) (s : Status) → Rests s → Rests (ban_if_denied stat s)
unfolding ban_if_denied
ban_if_denied-Rests stat s h = elim (Bool-cases (stat == 3)) [
  | inl denied ↦ rw denied (last_alert-snoc s.alerts sim_banned)
  | inr other ↦ rw other h
]

store_rssi-Rests : (o : Option ℤ) (s : Status) → Rests s → Rests (store_rssi o s)
unfolding store_rssi
store_rssi-Rests none s h = h
store_rssi-Rests (some rssi) s h = h

keepalive_with-Rests :
    (o : Option ℕ) (a : Answers) (s : Status) → Rests s → Rests (keepalive_with o a s)
unfolding keepalive_with
keepalive_with-Rests none a s h = enter_recovery-Rests a s
keepalive_with-Rests (some stat) a s h =
    ban_if_denied-Rests stat _ (store_rssi-Rests a.quality (record s { reg_stat = stat }) h)

-- While the loop runs, the alerts do not matter.
any_alerts :
    (st : State) (alerts alerts' : List AlertCode)
    → terminal st ≡ false
    → Settled st alerts
    → Settled st alerts'
any_alerts initializing alerts alerts' e h = tt
any_alerts active alerts alerts' e h = tt
any_alerts executing alerts alerts' e h = h
any_alerts recovering alerts alerts' e h = h
any_alerts resetting alerts alerts' e h = h
any_alerts banned alerts alerts' e h = cc
any_alerts failed alerts alerts' e h = cc

capacity_with-Rests :
    (warn_pct purge_pct : ℕ) (o : Option (ℕ × ℕ)) (s : Status)
    → terminal s.state ≡ false
    → Rests s
    → Rests (capacity_with warn_pct purge_pct o s)
unfolding capacity_with
capacity_with-Rests warn purge none s e h = h
capacity_with-Rests warn purge (some (used, total)) s e h =
    let full = any_alerts s.state s.alerts (s.alerts ++ sim_full ∷ []) e h in
    elim (Bool-cases (total == 0)) [
      | inl empty ↦ rw empty h
      | inr some_total ↦ elim (Bool-cases (leb purge (used * 100 / total))) [
        | inl purged ↦ rw (some_total, purged) full
        | inr below ↦ elim (Bool-cases (leb warn (used * 100 / total))) [
          | inl warned ↦ rw (some_total, below, warned) full
          | inr few ↦ rw (some_total, below, few) h
        ]
      ]
    ]

signal_with-alerts :
    (rssi : Option ℤ) (stat : Option ℕ) (s : Status) → (signal_with rssi stat s).alerts ≡ s.alerts
unfolding signal_with
signal_with-alerts none stat s = refl
signal_with-alerts (some rssi) none s = refl
signal_with-alerts (some rssi) (some stat) s = refl

handle-Rests :
    (warn_pct purge_pct : ℕ) (e : Event) (s : Status)
    → terminal s.state ≡ false
    → Rests s
    → Rests (handle warn_pct purge_pct e s)
unfolding handle run_keepalive check_capacity poll_signal_strength handle_creg execute_task
    do_check_signal
handle-Rests warn purge (keepalive_tick a) s run h = keepalive_with-Rests a.registration a s h
handle-Rests warn purge (capacity_tick a) s run h = capacity_with-Rests warn purge a.storage s run h
handle-Rests warn purge (signal_tick a) s run h = store_rssi-Rests a.quality s h
handle-Rests warn purge (reset_requested a) s run h = enter_reset-Rests a s
handle-Rests warn purge (creg stat) s run h =
    ban_if_denied-Rests stat (record s { reg_stat = stat }) h
handle-Rests warn purge (signal_task a) s run h =
    rw (signal_with-alerts a.quality a.registration (record s { state = executing })) h

-- A worker that waits, and whose stall watchdog stays silent, is left waiting for the next event (active,
-- or initializing after a reset) or stopped as banned or failed, by any sequence of its three tickers,
-- requests of a reset, registration codes and CHECK_SIGNAL tasks, whatever its modem answers. These never
-- leave it in the middle of a task, a recovery or a reset; and when they have left it banned or failed,
-- the last alert that it pushed was SIM_BANNED or MODEM_HANG.
pub run-Settled :
    (warn_pct purge_pct : ℕ) (events : List Event) (s : Status)
    → terminal s.state ≡ false
    → Settled s.state s.alerts
    → let s' = run warn_pct purge_pct events s in Settled s'.state s'.alerts
unfolding run
run-Settled warn purge [] s going h = h
run-Settled warn purge (e ∷ events) s going h =
    let next = handle-Rests warn purge e s going h in
    elim (Bool-cases (terminal (handle warn purge e s).state)) [
      | inl stopped ↦ rw stopped next
      | inr going' ↦ rw going' (run-Settled warn purge events (handle warn purge e s) going' next)
    ]
