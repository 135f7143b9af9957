-- ===== src/Gateway/Counts.antt =====
-- The counts of the pool against the statuses of the heartbeat.
use Prim.Native.String.{String}
use text.Mathlib.Text.{◌==◌ as str_eq}
use sms_gate.Prelude.{
  sym, ◌∙◌, ap, ℕ, suc, ◌+◌, ◌≡◌, refl, List, [], ◌∷◌, arith, length, if◌then◌else◌,
}
use sms_gate.Modem.{State}
use sms_gate.Gateway.{
  Worker, Registry, PoolCounts, ModemStatus, modem_status, statuses_of, snapshot, status,
  state_string, modem_statuses, pool_counts, count_states, count_state,
}

-- The statuses with this name of a state.
abbrev pub named : String → List ModemStatus → ℕ
named name [] = 0
named name (s ∷ statuses) =
    let more = named name statuses in if str_eq s.state name then suc more else more

hit : State → String → ℕ
hit s name = if str_eq (state_string s) name then 1 else 0

count_state-hit :
    (s : State) (c : PoolCounts)
    → ((count_state s c).total ≡ c.total)
      × ((count_state s c).active ≡ c.active + hit s "ACTIVE" + hit s "EXECUTING")
      × ((count_state s c).banned ≡ c.banned + hit s "BANNED")
unfolding count_state hit state_string
count_state-hit State.initializing c = (refl, omega arith, omega arith)
count_state-hit State.active c = (refl, omega arith, omega arith)
count_state-hit State.executing c = (refl, omega arith, omega arith)
count_state-hit State.recovering c = (refl, omega arith, omega arith)
count_state-hit State.resetting c = (refl, omega arith, omega arith)
count_state-hit State.banned c = (refl, omega arith, omega arith)
count_state-hit State.failed c = (refl, omega arith, omega arith)

named-hit :
    (name iccid : String) (w : Worker) (r : Registry)
    → named name (modem_statuses ((iccid, w) ∷ r))
      ≡ hit w.state name + named name (modem_statuses r)
unfolding hit modem_statuses modem_status statuses_of snapshot status
named-hit name iccid w r = ground arith

count_states-named :
    (r : Registry) (c : PoolCounts)
    → let done = count_states r c in
      (done.total ≡ c.total)
      × (done.active
          ≡ c.active + named "ACTIVE" (modem_statuses r) + named "EXECUTING" (modem_statuses r))
      × (done.banned ≡ c.banned + named "BANNED" (modem_statuses r))
unfolding count_states modem_statuses statuses_of snapshot
count_states-named [] c = (refl, ground arith, ground arith)
count_states-named ((iccid, w) ∷ r) c =
    let (total, active, banned) = count_states-named r (count_state w.state c) in
    let (total', active', banned') = count_state-hit w.state c in
    let a = named-hit "ACTIVE" iccid w r in
    let e = named-hit "EXECUTING" iccid w r in
    let b = named-hit "BANNED" iccid w r in
    (total ∙ total', omega (arith, active, active', a, e), omega (arith, banned, banned', b))

length-modem_statuses : (r : Registry) → length (modem_statuses r) ≡ length r
unfolding modem_statuses modem_status statuses_of snapshot
length-modem_statuses [] = refl
length-modem_statuses ((iccid, w) ∷ r) = ap suc (length-modem_statuses r)

-- The gauges of the pool agree with the heartbeat: as many workers as statuses, as many active ones
-- as statuses named ACTIVE or EXECUTING, and as many banned ones as statuses named BANNED.
pub pool_counts-modem_statuses :
    (r : Registry)
    → ((pool_counts r).total ≡ length (modem_statuses r))
      × ((pool_counts r).active
          ≡ named "ACTIVE" (modem_statuses r) + named "EXECUTING" (modem_statuses r))
      × ((pool_counts r).banned ≡ named "BANNED" (modem_statuses r))
unfolding pool_counts
pool_counts-modem_statuses r =
    let (total, active, banned) =
      count_states-named r (record { total = length r; active = 0; banned = 0 }) in
    (total ∙ sym (length-modem_statuses r), omega (arith, active), omega (arith, banned))
