-- ===== src/TokenBucket/Admits.antt =====
-- How many requests the limiter lets through, and when a refused one may come again.
use native.Mathlib.Nat.{mul-le-mul_right, div-mul-le_self, lt-div-mul-add}
use native.Mathlib.Decide.{dec_lt}
use sms_gate.Prelude.{
  ◌⊎◌, ℕ, ◌+◌, ◌-◌, ◌*◌, ◌/◌, ◌≤◌, ◌<◌, ◌≡◌, refl, ◌≢◌, false, arith, Bool-cases, inl, inr, ltb,
  leb, if◌then◌else◌,
}
use sms_gate.TokenBucket.{Bucket, second, minute, new_bucket, refill, allow, wait_for_token}

-- A bucket of a limiter that lets `per_min` requests through in a minute.
pub record IsBucket (per_min : ℕ) (b : Bucket) : Type 0 where
  pub capped : b.tokens ≤ b.max_tokens
  pub full : b.max_tokens ≡ per_min * minute
  pub rate : b.refill_rate ≡ per_min

pub new_bucket-IsBucket : (per_min now : ℕ) → IsBucket per_min (new_bucket per_min now)
unfolding new_bucket
new_bucket-IsBucket per_min now = record { capped = omega arith; full = refl; rate = refl }

pub refill-IsBucket :
    (per_min now : ℕ) (b : Bucket) → IsBucket per_min b → IsBucket per_min (refill now b)
unfolding refill
refill-IsBucket per_min now b v = record { capped = omega arith; full = v.full; rate = v.rate }

pub allow-IsBucket :
    (per_min now : ℕ) (b : Bucket) → IsBucket per_min b → IsBucket per_min (allow now b).0
unfolding allow
allow-IsBucket per_min now b v = ground arith

-- What a bucket holds at a time no earlier than its last refill grows by the rate.
pub refill_later :
    (t now : ℕ) (b : Bucket)
    → t ≤ now
    → (refill now b).tokens ≤ (refill t b).tokens + (now - t) * b.refill_rate
unfolding refill
refill_later t now b h = omega (
  arith,
  mul-le-mul_right {m = now - b.last_refill} {n = t - b.last_refill + (now - t)} b.refill_rate
      (omega arith),
)

pub refilled_at : (now : ℕ) (b : Bucket) → (refill now b).last_refill ≡ now
unfolding refill
refilled_at now b = refl

-- A bucket that was refilled holds the same at once.
pub refill_now :
    (now : ℕ) (b : Bucket)
    → b.last_refill ≡ now
    → b.tokens ≤ b.max_tokens
    → (refill now b).tokens ≡ b.tokens
unfolding refill
refill_now now b e h =
    let none_passed : now - b.last_refill ≡ 0 = omega arith in rw none_passed (omega arith)

-- A call takes a token exactly if it is permitted.
pub allow-tokens :
    (now : ℕ) (b : Bucket)
    → (allow now b).0.tokens + (if (allow now b).1.ok then minute else 0) ≡ (refill now b).tokens
unfolding allow
allow-tokens now b = ground arith

-- A bucket that refused holds less than a token, and tells the time until it has one, or a second.
refused_bucket :
    (now : ℕ) (b : Bucket)
    → (allow now b).1.ok ≡ false
    → ((allow now b).0 ≡ refill now b)
      × ((refill now b).tokens < minute)
      × ((allow now b).1.retry_after ≡ wait_for_token (refill now b))
unfolding allow
refused_bucket now b e = elim (Bool-cases (leb minute (refill now b).tokens)) [
  | inl enough ↦ absurd (ground (arith, rw enough at e))
  | inr short ↦ rw short (refl, ground arith, refl)
]

-- With a capacity of a token or more, a bucket that was just refilled permits a request once its
-- rate has brought what is missing.
allow_after :
    (now d : ℕ) (b : Bucket)
    → b.last_refill ≡ now
    → minute ≤ b.max_tokens
    → (allow (now + d) b).1.ok ≡ leb minute (b.tokens + d * b.refill_rate)
unfolding allow refill
allow_after now d b e h =
    let passed : now + d - b.last_refill ≡ d = omega arith in rw passed (ground arith)

need-le : (need r w d : ℕ) → 0 < r → need / r ≤ w → w < d → need ≤ d * r
need-le need r w d h hw hd = omega (
  arith,
  lt-div-mul-add {a = need} {b = r} h,
  mul-le-mul_right {m = need / r + 1} {n = d} r (omega arith),
)

lt-need : (need r d : ℕ) → 0 < r → d < need / r → d * r < need
lt-need need r d h hd =
    omega
      (arith, div-mul-le_self need r, mul-le-mul_right {m = d + 1} {n = need / r} r (omega arith))

wait_lem :
    (b : Bucket) (d : ℕ)
    → 0 < b.refill_rate
    → b.tokens < minute
    → (second < wait_for_token b) ⊎ (wait_for_token b < d)
    → d ≢ wait_for_token b
    → (leb minute (b.tokens + d * b.refill_rate) ≡ ltb (wait_for_token b) d)
      × (second ≤ wait_for_token b)
unfolding wait_for_token
wait_lem b d h short late other =
    let need = minute - b.tokens in
    elim (dec_lt (wait_for_token b) d) [
      | yes passed ↦ (
        ground (arith, need-le need b.refill_rate (wait_for_token b) d h (ground arith) passed),
        ground arith,
      )
      | no early ↦ (ground (arith, lt-need need b.refill_rate d h (ground arith)), ground arith)
    ]

-- In a bucket with a limit above 0, a refused request is told to wait for a second or more. If it comes
-- again with no other in between, it is permitted when more than that wait has passed; before a wait
-- of more than a second has passed it is refused again.
pub allow-allow :
    (per_min now d : ℕ) (b : Bucket)
    → IsBucket per_min b
    → 0 < per_min
    → (allow now b).1.ok ≡ false
    → (second < (allow now b).1.retry_after) ⊎ ((allow now b).1.retry_after < d)
    → d ≢ (allow now b).1.retry_after
    → ((allow (now + d) (allow now b).0).1.ok ≡ ltb (allow now b).1.retry_after d)
      × (second ≤ (allow now b).1.retry_after)
allow-allow per_min now d b v h refused late other =
    let (after, short, wait) = refused_bucket now b refused in
    let v' = refill-IsBucket per_min now b v in
    let again = allow_after now d (refill now b) (refilled_at now b) (omega (arith, v'.full)) in
    let late' = (rw wait at late) in
    let other' = (rw wait at other) in
    rw (after, wait, again) (wait_lem (refill now b) d (omega (arith, v'.rate)) short late' other')
