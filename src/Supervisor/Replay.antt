-- ===== src/Supervisor/Replay.antt =====
-- The restarts of a worker up to the life in which its supervisor stops.
use mathlib.Core.List.{append-nil, append_assoc}
use sms_gate.Prelude.{
  sym, ◌≢◌, ℕ, zero, suc, ◌+◌, ◌≡◌, refl, Bool, false, List, [], ◌∷◌, ◌++◌, arith, if◌then◌else◌,
  length, All,
}
use sms_gate.Prelude.Int.{pos}
use sms_gate.Modem.{State}
use sms_gate.Backoff.{compute}
use sms_gate.Supervisor.{Life, Log, supervise, banned_state, start, reconnecting}

-- The worker came back for another reason than the end of the context or of its SIM.
pub record IsRestarted (life : Life) : Type 0 where
  pub live : life.cancelled ≡ false
  pub allowed : life.final ≢ State.banned
  pub waited : life.cancelled_waiting ≡ false

-- The numbers from one on.
abbrev pub count_up : ℕ → ℕ → List ℕ
count_up first zero = []
count_up first (suc n) = first ∷ count_up (suc first) n

-- The waits behind the attempts from one on.
abbrev pub waits_from : ℕ → List Life → List ℕ
waits_from attempt [] = []
waits_from attempt (life ∷ lives) = compute (pos attempt) life.draw ∷ waits_from (suc attempt) lives

-- The log behind lives that were all restarted.
unfoldable pub replay : Bool → ℕ → Log → List Life → Log
unfolding start reconnecting
replay met before log [] = log
replay met before log (life ∷ lives) =
    replay met (suc before)
      (reconnecting met (compute (pos (suc before)) life.draw) (start (suc before) log)) lives

not_banned : (s : State) → s ≢ State.banned → banned_state s ≡ false
unfolding banned_state
not_banned State.banned h = absurd (h refl)
not_banned _ h = refl

pub supervise-append :
    (met : Bool) (before : ℕ) (log : Log) (lives more : List Life)
    → All IsRestarted lives
    → supervise met before log (lives ++ more)
      ≡ supervise met (before + length lives) (replay met before log lives) more
unfolding supervise replay
supervise-append met before log [] more h = let e : before ≡ before + 0 = omega arith in rw (← e)
supervise-append met before log (life ∷ lives) more (h, hs) =
    let e : suc before + length lives ≡ before + suc (length lives) = omega arith in
    rw (h.live, not_banned life.final h.allowed, h.waited, ← e)
      (supervise-append met (suc before)
        (reconnecting met (compute (pos (suc before)) life.draw) (start (suc before) log)) lives
        more hs)

pub replay-starts :
    (met : Bool) (before : ℕ) (log : Log) (lives : List Life)
    → (replay met before log lives).starts ≡ log.starts ++ count_up (suc before) (length lives)
unfolding replay start reconnecting
replay-starts met before log [] = sym (append-nil log.starts)
replay-starts met before log (life ∷ lives) = simp (
  replay-starts met (suc before)
      (reconnecting met (compute (pos (suc before)) life.draw) (start (suc before) log)) lives,
  append_assoc,
)

pub replay-delays :
    (met : Bool) (before : ℕ) (log : Log) (lives : List Life)
    → (replay met before log lives).delays ≡ log.delays ++ waits_from (suc before) lives
unfolding replay start reconnecting
replay-delays met before log [] = sym (append-nil log.delays)
replay-delays met before log (life ∷ lives) = simp (
  replay-delays met (suc before)
      (reconnecting met (compute (pos (suc before)) life.draw) (start (suc before) log)) lives,
  append_assoc,
)

-- Behind the first attempt every attempt has a worker of its own.
pub replay-made :
    (met : Bool) (before : ℕ) (log : Log) (lives : List Life)
    → (replay met (suc before) log lives).made ≡ log.made + length lives
unfolding replay start reconnecting
replay-made met before log [] = omega arith
replay-made met before log (life ∷ lives) = ground (
  arith,
  replay-made met (suc before)
      (reconnecting met (compute (pos (suc (suc before))) life.draw) (start (suc (suc before)) log))
      lives,
)

pub replay-reconnects :
    (met : Bool) (before : ℕ) (log : Log) (lives : List Life)
    → (replay met before log lives).reconnects ≡ log.reconnects + (if met then length lives else 0)
unfolding replay start reconnecting
replay-reconnects met before log [] = ground arith
replay-reconnects met before log (life ∷ lives) = ground (
  arith,
  replay-reconnects met (suc before)
      (reconnecting met (compute (pos (suc before)) life.draw) (start (suc before) log)) lives,
)
