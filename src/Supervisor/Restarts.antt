-- ===== src/Supervisor/Restarts.antt =====
-- When the supervisor restarts a worker, and when it stops.
use mathlib.Core.List.{append-nil}
use sms_gate.Prelude.{
  length-append, ap, ◌≢◌, ℕ, zero, suc, ◌+◌, ◌≡◌, refl, Bool, true, false, ◌||◌, Option, none, List,
  [], ◌∷◌, ◌++◌, arith, if◌then◌else◌, length, All,
}
use sms_gate.Prelude.Int.{pos}
use sms_gate.Modem.{State}
use sms_gate.Backoff.{Draw, compute}
use sms_gate.Supervisor.{
  Life, Log, Ending, run_supervised, supervise, banned_state, start, reconnecting,
}
use sms_gate.Supervisor.Replay.{
  IsRestarted, count_up, waits_from, replay, supervise-append, replay-starts, replay-delays,
  replay-made, replay-reconnects,
}

abbrev fresh : Log
fresh = record { made = 1; starts = []; delays = []; reconnects = 0 }

-- Of a supervisor that has stopped in the life behind `lives`: every attempt has its number and a
-- worker of its own, the waits are those behind the lives that were restarted and the one in which
-- it may have stopped, and the counter counts the waits.
pub record IsStopped (met : Bool) (lives : List Life) (last : Life) (r : Log × Option Ending)
    : Type 0 where
  pub stopped : r.1 ≢ none
  pub numbered : r.0.starts ≡ count_up 1 (suc (length lives))
  pub one_each : r.0.made ≡ suc (length lives)
  pub waited :
      r.0.delays
      ≡ waits_from 1
          (lives ++ (if last.cancelled || banned_state last.final then [] else last ∷ []))
  pub counted : r.0.reconnects ≡ (if met then length r.0.delays else 0)

length-waits_from :
    (attempt : ℕ) (lives : List Life) → length (waits_from attempt lives) ≡ length lives
length-waits_from attempt [] = refl
length-waits_from attempt (life ∷ lives) = ap suc (length-waits_from (suc attempt) lives)

waits_from-snoc :
    (attempt : ℕ) (lives : List Life) (last : Life)
    → waits_from attempt (lives ++ last ∷ [])
      ≡ waits_from attempt lives ++ compute (pos (attempt + length lives)) last.draw ∷ []
waits_from-snoc attempt [] last = let e : attempt + 0 ≡ attempt = omega arith in rw e
waits_from-snoc attempt (life ∷ lives) last =
    let e : attempt + suc (length lives) ≡ suc attempt + length lives = omega arith in
    rw e (ap (◌∷◌ (compute (pos attempt) life.draw)) (waits_from-snoc (suc attempt) lives last))

start-made :
    (met : Bool) (lives : List Life)
    → (start (suc (length lives)) (replay met 0 fresh lives)).made ≡ suc (length lives)
unfolding replay start reconnecting
start-made met [] = refl
start-made met (life ∷ lives) =
    ground (
      arith,
      replay-made met 0 (reconnecting met (compute (pos 1) life.draw) (start 1 fresh)) lives,
    )

count_up-snoc : (first n : ℕ) → count_up first n ++ (first + n) ∷ [] ≡ count_up first (suc n)
count_up-snoc first zero = let e : first + 0 ≡ first = omega arith in rw e
count_up-snoc first (suc n) =
    let e : first + suc n ≡ suc first + n = omega arith in
    rw e (ap (◌∷◌ first) (count_up-snoc (suc first) n))

module _ (met : Bool) (lives : List Life) where
  abbrev started : Log
  started = start (suc (length lives)) (replay met 0 fresh lives)

  started-starts : started.starts ≡ count_up 1 (suc (length lives))
  unfolding start
  started-starts =
      let e : 1 + length lives ≡ suc (length lives) = omega arith in
      simp (replay-starts met 0 fresh lives, ← e, count_up-snoc 1 (length lives))

  started-reconnects : started.reconnects ≡ (if met then length lives else 0)
  unfolding start
  started-reconnects = ground (arith, replay-reconnects met 0 fresh lives)

  started-delays : started.delays ≡ waits_from 1 lives
  unfolding start
  started-delays = replay-delays met 0 fresh lives

  started-waited : started.delays ≡ waits_from 1 (lives ++ [])
  started-waited = simp (append-nil lives, started-delays)

  started-counted : started.reconnects ≡ (if met then length started.delays else 0)
  started-counted = rw (started-delays, length-waits_from 1 lives) started-reconnects

  waiting-waited :
      (last : Life)
      → started.delays ++ compute (pos (suc (length lives))) last.draw ∷ []
        ≡ waits_from 1 (lives ++ last ∷ [])
  waiting-waited last =
      let e : 1 + length lives ≡ suc (length lives) = omega arith in
      simp (started-delays, waits_from-snoc 1 lives last, e)

  supervise_case :
      (more : List Life) (cancelled : Bool) (f : State) (waiting : Bool) (d : Draw)
      → let last : Life = record {
        final = f;
        cancelled = cancelled;
        cancelled_waiting = waiting;
        draw = d;
      } in
        ¬ IsRestarted last
        → IsStopped met lives last
            (supervise met (length lives) (replay met 0 fresh lives) (last ∷ more))
  unfolding supervise reconnecting banned_state
  supervise_case more true f w d h = record {
    stopped = λ e. cc;
    numbered = started-starts;
    one_each = start-made met lives;
    waited = started-waited;
    counted = started-counted;
  }
  supervise_case more false State.banned w d h = record {
    stopped = λ e. cc;
    numbered = started-starts;
    one_each = start-made met lives;
    waited = started-waited;
    counted = started-counted;
  }
  supervise_case more false f true d h = record {
    stopped = λ e. cc;
    numbered = started-starts;
    one_each = start-made met lives;
    waited =
        waiting-waited
          (record { final = f; cancelled = false; cancelled_waiting = true; draw = d });
    counted = ground (
      arith,
      started-counted,
      length-append started.delays (compute (pos (suc (length lives))) d ∷ []),
    );
  }
  supervise_case more false f false d h =
      absurd (h (record { live = refl; allowed = λ e. cc; waited = refl }))

-- A worker that returns is started again, until the context ends, before or in a wait, or the SIM is
-- banned; then the supervisor stops, whatever was to follow. Up to there every attempt has its number
-- and a worker of its own, a stop in a life begins no wait, and the counter of reconnects counts the
-- waits: a stop in a wait has counted one attempt that is not made.
pub run_supervised-IsStopped :
    (met : Bool) (lives more : List Life) (last : Life)
    → All IsRestarted lives
    → ¬ IsRestarted last
    → IsStopped met lives last (run_supervised met (lives ++ last ∷ more))
unfolding run_supervised
run_supervised-IsStopped met lives more last hs h =
    let e : 0 + length lives ≡ length lives = omega arith in
    simp (supervise-append met 0 fresh lives (last ∷ more) hs, e)
      (supervise_case met lives more last.cancelled last.final last.cancelled_waiting last.draw h)
