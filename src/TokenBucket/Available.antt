-- ===== src/TokenBucket/Available.antt =====
-- What a limiter has left for an ICCID, and what one request takes of it.
use Prim.Native.String.{String}
use text.Mathlib.Text.{◌==◌ as str_eq}
use text.Mathlib.TextEquality.{eq_iff}
use sms_gate.Prelude.{
  Option-cases, ℕ, ◌+◌, ◌-◌, ◌*◌, ◌≤◌, ◌≡◌, refl, true, false, some, arith, Bool-cases, inl, inr,
  if◌then◌else◌,
}
use sms_gate.Prelude.Dict.{lookup, lookup-insert}
use sms_gate.TokenBucket.{
  Bucket, Limiter, minute, new_bucket, refill, allow, allow_iccid, bucket_or_new,
}
use sms_gate.TokenBucket.Admits.{
  IsBucket, new_bucket-IsBucket, refill-IsBucket, allow-IsBucket, refill_later, refill_now,
  allow-tokens,
}

unfoldable pub IsLimiter : Limiter → Type 0
IsLimiter l = (iccid : String) (b : Bucket) → lookup iccid l.buckets ≡ some b → IsBucket l.per_min b

bucket_at : String → ℕ → Limiter → Bucket
bucket_at iccid t l = bucket_or_new (lookup iccid l.buckets) l.per_min t

-- What is left for an ICCID at a time.
unfoldable pub available : String → ℕ → Limiter → ℕ
unfolding bucket_at
available iccid t l = (refill t (bucket_at iccid t l)).tokens

bucket_at-IsBucket :
    (iccid : String) (t : ℕ) (l : Limiter) → IsLimiter l → IsBucket l.per_min (bucket_at iccid t l)
unfolding bucket_at bucket_or_new IsLimiter
bucket_at-IsBucket iccid t l v = elim (Option-cases (lookup iccid l.buckets)) [
  | inl e ↦ rw e (new_bucket-IsBucket l.per_min t)
  | inr (b, e) ↦ rw e (v iccid b e)
]

pub available-le :
    (iccid : String) (t : ℕ) (l : Limiter) → IsLimiter l → available iccid t l ≤ l.per_min * minute
unfolding available
available-le iccid t l v =
    let r = refill-IsBucket l.per_min t (bucket_at iccid t l) (bucket_at-IsBucket iccid t l v) in
    omega (arith, r.capped, r.full)

pub available_later :
    (iccid : String) (t now : ℕ) (l : Limiter)
    → IsLimiter l
    → t ≤ now
    → available iccid now l ≤ available iccid t l + (now - t) * l.per_min
unfolding available bucket_at bucket_or_new IsLimiter refill new_bucket
available_later iccid t now l v h = elim (Option-cases (lookup iccid l.buckets)) [
  | inl e ↦ rw e (omega arith)
  | inr (b, e) ↦ let rate = (v iccid b e).rate in rw (e, ← rate) (refill_later t now b h)
]

some_eq : (a b : Bucket) → some a ≡ some b → a ≡ b
some_eq a b e = cc

pub allow_iccid-per_min :
    (iccid : String) (now : ℕ) (l : Limiter) → (allow_iccid iccid now l).0.per_min ≡ l.per_min
unfolding allow_iccid
allow_iccid-per_min iccid now l = refl

allow_at : (now : ℕ) (b : Bucket) → (allow now b).0.last_refill ≡ now
unfolding allow refill
allow_at now b = ground arith

allow_iccid-lookup :
    (iccid other : String) (now : ℕ) (l : Limiter)
    → lookup other (allow_iccid iccid now l).0.buckets ≡ (
        if str_eq iccid other
        then some (allow now (bucket_at iccid now l)).0
        else lookup other l.buckets)
unfolding allow_iccid bucket_at
allow_iccid-lookup iccid other now l =
    lookup-insert iccid other (allow now (bucket_or_new (lookup iccid l.buckets) l.per_min now)).0
      l.buckets

pub allow_iccid-IsLimiter :
    (iccid : String) (now : ℕ) (l : Limiter) → IsLimiter l → IsLimiter (allow_iccid iccid now l).0
unfolding IsLimiter
allow_iccid-IsLimiter iccid now l v other b e =
    let found = allow_iccid-lookup iccid other now l in
    elim (Bool-cases (str_eq iccid other)) [
      | inl same ↦
          let taken = some_eq _ _ (rw (found, same) at e) in
          rw (allow_iccid-per_min iccid now l, ← taken)
            (allow-IsBucket l.per_min now (bucket_at iccid now l)
              (bucket_at-IsBucket iccid now l v))
      | inr apart ↦
          let kept = (rw (found, apart) at e) in
          rw (allow_iccid-per_min iccid now l) (v other b kept)
    ]

bucket_at-allow_iccid :
    (iccid : String) (now : ℕ) (l : Limiter)
    → bucket_at iccid now (allow_iccid iccid now l).0 ≡ (allow now (bucket_at iccid now l)).0
unfolding bucket_at bucket_or_new
bucket_at-allow_iccid iccid now l =
    let found = allow_iccid-lookup iccid iccid now l in
    let me : str_eq iccid iccid ≡ true = (eq_iff iccid iccid).1 refl in simp (found, me)

bucket_at-other :
    (iccid other : String) (now : ℕ) (l : Limiter)
    → str_eq other iccid ≡ false
    → bucket_at iccid now (allow_iccid other now l).0 ≡ bucket_at iccid now l
unfolding bucket_at
bucket_at-other iccid other now l apart =
    let found = allow_iccid-lookup other iccid now l in
    simp (found, apart, allow_iccid-per_min other now l)

verdict_of :
    (iccid : String) (now : ℕ) (l : Limiter)
    → (allow_iccid iccid now l).1 ≡ (allow now (bucket_at iccid now l)).1
unfolding allow_iccid bucket_at
verdict_of iccid now l = refl

-- A request takes what it is permitted from its own ICCID, and nothing from another.
pub allow_iccid-same :
    (iccid : String) (now : ℕ) (l : Limiter)
    → IsLimiter l
    → available iccid now (allow_iccid iccid now l).0
        + (if (allow_iccid iccid now l).1.ok then minute else 0)
      ≡ available iccid now l
unfolding available refill allow
allow_iccid-same iccid now l v =
    let b = bucket_at iccid now l in
    let v' = allow-IsBucket l.per_min now b (bucket_at-IsBucket iccid now l v) in
    simp
      (
        bucket_at-allow_iccid iccid now l,
        verdict_of iccid now l,
        refill_now now (allow now b).0 (allow_at now b) v'.capped,
      )
      (allow-tokens now b)

pub allow_iccid-other :
    (iccid other : String) (now : ℕ) (l : Limiter)
    → str_eq other iccid ≡ false
    → available iccid now (allow_iccid other now l).0 ≡ available iccid now l
unfolding available refill
allow_iccid-other iccid other now l apart = rw (bucket_at-other iccid other now l apart)
