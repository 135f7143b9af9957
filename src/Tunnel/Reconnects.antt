-- ===== src/Tunnel/Reconnects.antt =====
-- The waits between the rounds of Run, and the arguments of a dial (internal/tunnel/manager.go: backOff,
-- dial), with the back-off of internal/backoff. Durations are in nanoseconds.
use Prim.Native.String.{String, ◌++◌ as ◌<>◌}
use sms_gate.Prelude.{
  ◌==◌, ◌||◌, ◌<◌, ◌+◌, refl, ℕ, suc, ◌*◌, ◌/◌, ◌≤◌, ◌≡◌, Bool, List, [], ◌∷◌, arith, All, leb,
  if◌then◌else◌,
}
use sms_gate.Prelude.Int.{ℤ, pos, pos_part}
use sms_gate.Backoff.{Draw, compute_with, default_jitter, second}
use sms_gate.Backoff.Bounds.{IsDraw, nominal_with, compute_with-nominal_with}
use sms_gate.Tunnel.{
  connected, Manager, Round, dial_fails, session, run_round, back_off, connect, connecting,
}

-- The wait of backOff, in the manager that it leaves.
unfoldable pub back_off_wait : ℕ → ℕ → Draw → Manager → ℕ
unfolding compute_with
back_off_wait base max draw m = compute_with (pos m.attempt) base max default_jitter draw

-- The pause behind a dial that failed, by the status of the response, 0 if there is none.
unfoldable pub rejected_pause : ℕ → ℕ
rejected_pause code = if code == 401 || code == 403 then 30 * second else 0

unfoldable pub pause_behind : Round → ℕ
unfolding rejected_pause
pause_behind (dial_fails code) = rejected_pause code
pause_behind (session run_session) = 0

-- The time from the end of each dial that failed or each session to the next dial.
unfoldable pub round_delays : ℕ → ℕ → List (Round × Draw) → Manager → List ℕ
unfolding back_off_wait run_round pause_behind
round_delays base max [] m = []
round_delays base max ((round, draw) ∷ rounds) m =
    let m' = run_round round m in
    (pause_behind round + back_off_wait base max draw m') ∷ round_delays base max rounds m'

-- The headers and the options of one dial.
pub record Dial : Type 0 where
  pub url : String
  pub authorization : String
  pub gateway_id : String
  pub handshake_timeout : ℕ
  pub skip_verify : Bool

unfoldable pub dial : String → String → String → ℤ → Bool → Manager → Manager × Dial
dial url token gateway_id handshake_timeout skip_verify m = (
  record m { state = connecting },
  record {
    url = url;
    authorization = "Bearer " <> token;
    gateway_id = gateway_id;
    handshake_timeout =
        if leb (pos_part handshake_timeout) 0 then 15 * second else pos_part handshake_timeout;
    skip_verify = skip_verify;
  },
)

-- A round whose session, if it has one, leaves the counter of attempts alone.
abbrev pub Keeps : Round → Type 0
Keeps (dial_fails code) = Unit {0}
Keeps (session run_session) = (m : Manager) → (run_session m).attempt ≡ m.attempt

-- The rounds since the last session, with its own.
abbrev pub since_session : Round → ℕ → ℕ
since_session (dial_fails code) n = suc n
since_session (session run_session) n = 1

-- Half a minute when the dial was answered with 401 or 403.
abbrev pub penalty : Round → ℕ
penalty (dial_fails code) = if code == 401 || code == 403 then 30_000_000_000 else 0
penalty (session run_session) = 0

-- Each wait is the penalty and a time near the one that the rounds since the last session ask for.
abbrev pub IsNear : ℕ → ℕ → ℕ → List (Round × Draw) → List ℕ → Type 0
IsNear base max n [] [] = Unit {0}
IsNear base max n [] (w ∷ ws) = ⊥
IsNear base max n ((round, draw) ∷ rounds) [] = ⊥
IsNear base max n ((round, draw) ∷ rounds) (w ∷ ws) =
    let n' = since_session round n in
    (penalty round + 4 * nominal_with base max n' / 5 ≤ w)
    × (w ≤ penalty round + 6 * nominal_with base max n' / 5)
    × IsNear base max n' rounds ws

since_session-pos : (round : Round) (n : ℕ) → 0 < since_session round n
since_session-pos (dial_fails code) n = omega arith
since_session-pos (session run_session) n = omega arith

run_round-attempt :
    (round : Round) (m : Manager)
    → Keeps round
    → (run_round round m).attempt ≡ since_session round m.attempt
unfolding run_round back_off connect
run_round-attempt (dial_fails code) m k = omega arith
run_round-attempt (session run_session) m k =
    omega (arith, k (record m { state = connected; attempt = 0 }))

pause_behind-penalty : (round : Round) → pause_behind round ≡ penalty round
unfolding pause_behind rejected_pause
pause_behind-penalty (dial_fails code) = refl
pause_behind-penalty (session run_session) = refl

-- If no session touches the counter of attempts, then in every sequence of rounds the back-off behind each
-- session is the base, and with each dial that fails after it it doubles, up to the maximum, each within
-- 20 %, for every draw of math/rand; before the first session it goes on from the counter. A dial that is
-- answered with 401 or 403 waits 30 s in addition, any other round waits no more than its back-off.
pub round_delays-IsNear :
    (base max : ℕ) (rounds : List (Round × Draw)) (m : Manager)
    → All (λ (r : Round × Draw). Keeps r.0 × IsDraw r.1) rounds
    → IsNear base max m.attempt rounds (round_delays base max rounds m)
unfolding round_delays back_off_wait
round_delays-IsNear base max [] m h = tt
round_delays-IsNear base max ((round, draw) ∷ rounds) m ((keeps, drawn), hs) =
    let n = run_round-attempt round m keeps in
    let pause = pause_behind-penalty round in
    let positive = since_session-pos round m.attempt in
    let (low, high) =
      compute_with-nominal_with (run_round round m).attempt base max draw drawn
        (omega (arith, n, positive)) in
    rw (← n) (omega arith, omega arith, round_delays-IsNear base max rounds (run_round round m) hs)
