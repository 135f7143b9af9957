-- ===== src/Watchdog/Stall.antt =====
-- The goroutine of a worker that finds its main loop stalled (internal/modem/worker.go, in Run). The
-- loop stamps the time after each event; a ticker of half the stall duration makes the checks.
use sms_gate.Modem.{State}
use native.Mathlib.Decide.{dec_lt}
use sms_gate.Prelude.{
  ap, ◌∙◌, ℕ, ◌+◌, ◌-◌, ◌*◌, ◌/◌, ◌≤◌, ◌<◌, ◌≡◌, refl, Bool, true, false, ◌&&◌, List, [], ◌∷◌,
  arith, ltb, if◌then◌else◌,
}

-- The time of the last stamp, the worker's state and the one that executeTask puts back, the counter of
-- stalls, and whether the goroutine still runs.
pub record Watch : Type 0 where
  pub last_loop : ℕ
  pub state : State
  pub saved : State
  pub stalls : ℕ
  pub watching : Bool

-- The loop stamps; a check of the goroutine; the loop ends; and the begin and end of executeTask.
pub data Step : Type 0 where
  stamped checked : ℕ → Step
  stopped begun ended : Step

check : ℕ → ℕ → Watch → Watch
check stall_duration now w =
    if w.watching && ltb stall_duration (now - w.last_loop)
    then record w { state = State.failed; stalls = w.stalls + 1; watching = false }
    else w

pub step : ℕ → Step → Watch → Watch
unfolding check
step stall_duration (stamped now) w = record w { last_loop = now }
step stall_duration (checked now) w = check stall_duration now w
step stall_duration stopped w = record w { watching = false }
step stall_duration begun w = record w { saved = w.state; state = State.executing }
step stall_duration ended w = record w { state = w.saved }

unfoldable pub run : ℕ → List Step → Watch → Watch
unfolding step
run stall_duration [] w = w
run stall_duration (s ∷ steps) w = run stall_duration steps (step stall_duration s w)

-- What a check leaves that finds the loop stalled.
found : Watch → Watch
found w = record w { state = State.failed; stalls = w.stalls + 1; watching = false }

check_calm : (d now : ℕ) (w : Watch) → now ≤ w.last_loop + d → check d now w ≡ w
unfolding check
check_calm d now w h = let calm : ltb d (now - w.last_loop) ≡ false = ground arith in ground arith

check_fires :
    (d now : ℕ) (w : Watch) → d < now - w.last_loop → w.watching ≡ true → check d now w ≡ found w
unfolding check found
check_fires d now w h on = ground arith

check_off : (d now : ℕ) (w : Watch) → w.watching ≡ false → check d now w ≡ w
unfolding check
check_off d now w off = ground arith

-- Every check comes within the stall duration after the last stamp.
abbrev pub Punctual : ℕ → ℕ → List Step → Type 0
Punctual stall_duration last [] = Unit {0}
Punctual stall_duration last (stamped now ∷ steps) = Punctual stall_duration now steps
Punctual stall_duration last (checked now ∷ steps) =
    (now ≤ last + stall_duration) × Punctual stall_duration last steps
Punctual stall_duration last (stopped ∷ steps) = Punctual stall_duration last steps
Punctual stall_duration last (begun ∷ steps) = Punctual stall_duration last steps
Punctual stall_duration last (ended ∷ steps) = Punctual stall_duration last steps

-- A worker whose loop is stamped in time is never declared stalled.
pub run-Punctual :
    (stall_duration : ℕ) (steps : List Step) (w : Watch)
    → Punctual stall_duration w.last_loop steps
    → (run stall_duration steps w).stalls ≡ w.stalls
unfolding run step
run-Punctual d [] w p = refl
run-Punctual d (stamped now ∷ steps) w p = run-Punctual d steps (record w { last_loop = now }) p
run-Punctual d (checked now ∷ steps) w (soon, p) =
    let calm = check_calm d now w soon in simp calm (run-Punctual d steps w p)
run-Punctual d (stopped ∷ steps) w p = run-Punctual d steps (record w { watching = false }) p
run-Punctual d (begun ∷ steps) w p =
    run-Punctual d steps (record w { saved = w.state; state = State.executing }) p
run-Punctual d (ended ∷ steps) w p = run-Punctual d steps (record w { state = w.saved }) p

-- With a stall duration of four nanoseconds or more, a loop that is not stamped any more is declared
-- stalled, once, by the fourth check from the first one after its last stamp, if that one comes within
-- half the duration; so twice the stall duration is not over then.
pub run-checked :
    (stall_duration t : ℕ) (w : Watch)
    → 4 ≤ stall_duration
    → w.last_loop ≤ t
    → t ≤ w.last_loop + stall_duration / 2
    → w.watching ≡ true
    → let half = stall_duration / 2 in
      let four =
        checked t ∷ checked (t + half) ∷ checked (t + 2 * half) ∷ checked (t + 3 * half) ∷ [] in
      ((run stall_duration four w).state ≡ State.failed)
      × ((run stall_duration four w).stalls ≡ w.stalls + 1)
      × (t + 3 * half ≤ w.last_loop + 2 * stall_duration)
unfolding run step found
run-checked d t w h after soon on =
    let half = d / 2 in
    let first = check_calm d t w (omega arith) in
    let second = check_calm d (t + half) w (omega arith) in
    let last = check_fires d (t + 3 * half) w (omega arith) on in
    elim (dec_lt d (t + 2 * half - w.last_loop)) [
      | yes late ↦
          let third = check_fires d (t + 2 * half) w late on in
          simp (first, second, third, check_off d (t + 3 * half) (found w) refl)
            (refl, refl, omega arith)
      | no early ↦
          let third = check_calm d (t + 2 * half) w (omega arith) in
          simp (first, second, third, last) (refl, refl, omega arith)
    ]

-- The checks at these times.
abbrev pub checks : List ℕ → List Step
checks [] = []
checks (now ∷ later) = checked now ∷ checks later

run_off : (d : ℕ) (later : List ℕ) (w : Watch) → w.watching ≡ false → run d (checks later) w ≡ w
unfolding run step
run_off d [] w off = refl
run_off d (now ∷ later) w off =
    ap (run d (checks later)) (check_off d now w off) ∙ run_off d later w off

-- A stall that a watched worker's check finds while a task is executed, more than the stall duration
-- after the last stamp, is lost when the task ends: the worker has the state from before the task
-- again, and no later check, however late, declares it failed.
pub run-ended :
    (stall_duration late back : ℕ) (later : List ℕ) (w : Watch)
    → stall_duration < late - w.last_loop
    → w.watching ≡ true
    → let r = run stall_duration (begun ∷ checked late ∷ ended ∷ stamped back ∷ checks later) w in
      (r.state ≡ w.state) × (r.stalls ≡ w.stalls + 1)
unfolding run step found
run-ended d late back later w h on =
    let inside : Watch = record w { saved = w.state; state = State.executing } in
    let after : Watch = record w {
      last_loop = back;
      saved = w.state;
      stalls = w.stalls + 1;
      watching = false;
    } in
    let whole : run d (begun ∷ checked late ∷ ended ∷ stamped back ∷ checks later) w ≡ after =
      ap (run d (ended ∷ stamped back ∷ checks later)) (check_fires d late inside h on)
      ∙ run_off d later after refl in
    (ap (λ (x : Watch). x.state) whole, ap (λ (x : Watch). x.stalls) whole)
