-- ===== src/Breaker/Streak.antt =====
-- The breaker against its contract: it counts the failures since the last success.
use sms_gate.Prelude.{ℕ, suc, ◌<◌, min, ◌≡◌, ◌↔◌, List, [], ◌∷◌, arith}
use sms_gate.Breaker.{
  Breaker, closed, new, allow, record_success, record_failure, Call, asked, succeeded, failed, step,
  run,
}

-- The failures in a row at the end of a sequence of calls that began with `n` of them.
unfoldable pub streak : ℕ → List (Call × ℕ) → ℕ
streak n [] = n
streak n ((asked, _) ∷ calls) = streak n calls
streak n ((succeeded, _) ∷ calls) = streak 0 calls
streak n ((failed, _) ∷ calls) = streak (suc n) calls

-- The breaker stands for a streak of `n` failures: it counts them up to the threshold, and it is
-- closed as long as there are fewer.
pub record Tracks (threshold n : ℕ) (b : Breaker) : Type 0 where
  pub fixed : b.threshold ≡ threshold
  pub counted : b.failures ≡ min threshold n
  pub open_at : (b.state ≡ closed) ↔ (n < threshold)

module _ {threshold : ℕ} where
  allow-Tracks :
      (n now : ℕ) (b : Breaker) → Tracks threshold n b → Tracks threshold n (allow now b).0
  unfolding allow
  allow-Tracks n now b t = ground arith

  record_success-Tracks :
      (n : ℕ) (b : Breaker)
      → 0 < threshold
      → Tracks threshold n b
      → Tracks threshold 0 (record_success b)
  unfolding record_success
  record_success-Tracks n b h t = ground arith

  record_failure-Tracks :
      (n now : ℕ) (b : Breaker)
      → Tracks threshold n b
      → Tracks threshold (suc n) (record_failure now b)
  unfolding record_failure
  record_failure-Tracks n now b t = ground arith

  run-Tracks :
      (calls : List (Call × ℕ)) (n : ℕ) (b : Breaker)
      → 0 < threshold
      → Tracks threshold n b
      → Tracks threshold (streak n calls) (run calls b)
  unfolding run step streak
  run-Tracks [] n b h t = t
  run-Tracks ((asked, now) ∷ calls) n b h t =
      run-Tracks calls n (allow now b).0 h (allow-Tracks n now b t)
  run-Tracks ((succeeded, now) ∷ calls) n b h t =
      run-Tracks calls 0 (record_success b) h (record_success-Tracks n b h t)
  run-Tracks ((failed, now) ∷ calls) n b h t =
      run-Tracks calls (suc n) (record_failure now b) h (record_failure-Tracks n now b t)

-- For a positive threshold, after any calls of a new breaker, whatever their times: it is closed
-- exactly when fewer failures than the threshold have been recorded since the last success, and its
-- counter holds that number of failures, up to the threshold. So, against the comments in breaker.go, the
-- counter is not zero while the breaker is open, and a success recorded while it is open closes it.
pub run-streak :
    (threshold reset_timeout : ℕ) (calls : List (Call × ℕ))
    → 0 < threshold
    → (((run calls (new threshold reset_timeout)).state ≡ closed) ↔ (streak 0 calls < threshold))
      × ((run calls (new threshold reset_timeout)).failures ≡ min threshold (streak 0 calls))
run-streak threshold reset_timeout calls h =
    let t = run-Tracks calls 0 (new threshold reset_timeout) h start in (t.open_at, t.counted)
  where
    start : Tracks threshold 0 (new threshold reset_timeout)
    start = unfold new in ground arith
