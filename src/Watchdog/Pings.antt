-- ===== src/Watchdog/Pings.antt =====
-- When the watchdog pings.
use Prim.Native.String.{String}
use text.Mathlib.Text.{◌==◌ as str_eq}
use mathlib.Core.List.{append-nil, append_assoc}
use sms_gate.Prelude.{
  ℕ, ◌≡◌, refl, sym, Bool, true, false, ◌&&◌, List, [], ◌∷◌, ◌++◌, Bool-cases, inl, inr,
  if◌then◌else◌,
}
use sms_gate.Watchdog.{Tick, Wake, done, ticked, Log, tick, sd_notify, on_tick, run}

abbrev pub all_healthy : List Bool → Bool
all_healthy [] = true
all_healthy (ok ∷ probes) = ok && all_healthy probes

-- The times of the ticks before the end at which every probe is healthy and the socket takes the ping.
abbrev pub pinged : List Wake → List ℕ
pinged [] = []
pinged (done ∷ wakes) = []
pinged (ticked t ∷ wakes) =
    let more = pinged wakes in
    if all_healthy t.probes && (t.dialled && t.written) then t.time ∷ more else more

tick-all_healthy : (probes : List Bool) → (tick probes).1 ≡ all_healthy probes
unfolding tick
tick-all_healthy [] = refl
tick-all_healthy (true ∷ probes) = tick-all_healthy probes
tick-all_healthy (false ∷ probes) = refl

on_tick-pings :
    (sock : String) (t : Tick) (log : Log)
    → str_eq sock "" ≡ false
    → (on_tick sock t log).pings
      ≡ log.pings ++ (if all_healthy t.probes && (t.dialled && t.written) then t.time ∷ [] else [])
unfolding on_tick sd_notify
on_tick-pings sock t log h =
    rw (tick-all_healthy t.probes, h)
      (elim (Bool-cases (all_healthy t.probes)) [
        | inr sick ↦ rw sick refl
        | inl well ↦ elim (Bool-cases t.dialled) [
          | inr no_socket ↦ rw (well, no_socket) refl
          | inl connected ↦ rw (well, connected) refl
        ]
      ])

-- With a socket, the pings are those of the ticks before the end at which every probe is healthy and
-- the socket takes the ping.
pub run-pinged :
    (sock : String) (wakes : List Wake) (log : Log)
    → str_eq sock "" ≡ false
    → (run sock wakes log).pings ≡ log.pings ++ pinged wakes
unfolding run
run-pinged sock [] log h = sym (append-nil log.pings)
run-pinged sock (done ∷ wakes) log h = sym (append-nil log.pings)
run-pinged sock (ticked t ∷ wakes) log h =
    let pings = on_tick-pings sock t log h in
    let rest = run-pinged sock wakes (on_tick sock t log) h in
    elim (Bool-cases (all_healthy t.probes && (t.dialled && t.written))) [
      | inl good ↦
          let here = (rw good at pings) in
          rw (good, rest, here) (append_assoc log.pings (t.time ∷ []) (pinged wakes))
      | inr bad ↦
          let here = (rw bad at pings) in
          rw (bad, rest, here) (append_assoc log.pings [] (pinged wakes))
    ]
