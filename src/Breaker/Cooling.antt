-- ===== src/Breaker/Cooling.antt =====
-- The time a breaker stays open.
use sms_gate.Prelude.{ℕ, ◌+◌, ◌≤◌, ◌<◌, ◌≡◌, refl, ◌≢◌, ◌⊎◌, List, [], ◌∷◌, true, false, All, arith}
use sms_gate.Breaker.{
  Breaker, closed, opened, half_open, allow, record_failure, Call, asked, succeeded, failed, step,
  run,
}

abbrev QuietBefore : ℕ → Call × ℕ → Type 0
QuietBefore until (c, now) = (c ≢ succeeded) × (now < until)

run_opened :
    (calls : List (Call × ℕ)) (b : Breaker)
    → b.state ≡ opened
    → All (QuietBefore b.open_until) calls
    → run calls b ≡ b
unfolding run step allow record_failure
run_opened [] b h early = refl
run_opened ((asked, now) ∷ calls) b h (first, early) = ground (arith, run_opened calls b h early)
run_opened ((failed, now) ∷ calls) b h (first, early) = ground (arith, run_opened calls b h early)
run_opened ((succeeded, now) ∷ calls) b h (first, early) = absurd (first.0 refl)

-- A failure that finds the breaker half-open, or that brings a closed one to the threshold, opens it.
record_failure_opens :
    (b : Breaker) (now : ℕ)
    → (b.state ≡ half_open) ⊎ ((b.state ≡ closed) × (b.threshold ≤ b.failures + 1))
    → ((record_failure now b).state ≡ opened)
      × ((record_failure now b).open_until ≡ now + b.reset_timeout)
unfolding record_failure
record_failure_opens b now h = ground arith

allow_opened :
    (b : Breaker) (later : ℕ)
    → b.state ≡ opened
    → (later < b.open_until → (allow later b).1 ≡ false)
      × (b.open_until ≤ later → ((allow later b).1 ≡ true) × ((allow later b).0.state ≡ half_open))
unfolding allow
allow_opened b later h = (λ early. ground arith, λ late. ground arith)

-- A failure that finds the breaker half-open, or that brings the counter of a closed one up to the
-- threshold, opens it. From then on, through any calls before `now + reset_timeout` none of which
-- records a success, `Allow` refuses; and at that time or later `Allow` admits the probe and leaves
-- the breaker half-open.
pub allow-record_failure :
    (b : Breaker) (now : ℕ) (calls : List (Call × ℕ)) (later : ℕ)
    → (b.state ≡ half_open) ⊎ ((b.state ≡ closed) × (b.threshold ≤ b.failures + 1))
    → All (QuietBefore (now + b.reset_timeout)) calls
    → (later < now + b.reset_timeout → (allow later (run calls (record_failure now b))).1 ≡ false)
      × (now + b.reset_timeout ≤ later
          → ((allow later (run calls (record_failure now b))).1 ≡ true)
            × ((allow later (run calls (record_failure now b))).0.state ≡ half_open))
unfolding record_failure
allow-record_failure b now calls later h early =
    let (shut, until) = record_failure_opens b now h in
    rw (run_opened calls (record_failure now b) shut (rw until early))
      (rw until at (allow_opened (record_failure now b) later shut))
