-- ===== src/TokenBucket/Registry.antt =====
-- The generic rate limiter (internal/ratelimit/registry.go), over any type of keys with a test for
-- equality: Go's `==` on a comparable type.
use Prim.Native.String.{String}
use text.Mathlib.Text.{◌==◌ as str_eq}
use sms_gate.Prelude.{ℕ, ◌≡◌, refl, Bool, Option, none, some, List, [], ◌∷◌, length, if◌then◌else◌}
use sms_gate.Prelude.Dict.{lookup, delete, insert}
use sms_gate.TokenBucket.{Bucket, Verdict, Limiter, allow, allow_iccid, bucket_or_new}

module _ {ℓ} {K : Type ℓ} (same : K → K → Bool) where
  -- The map of the registry, with one entry for each key.
  unfoldable pub find : K → List (K × Bucket) → Option Bucket
  find key [] = none
  find key ((other, b) ∷ buckets) =
      let rest = find key buckets in if same key other then some b else rest

  unfoldable pub remove : K → List (K × Bucket) → List (K × Bucket)
  remove key [] = []
  remove key ((other, b) ∷ buckets) =
      let rest = remove key buckets in if same key other then rest else (other, b) ∷ rest

  unfoldable pub put : K → Bucket → List (K × Bucket) → List (K × Bucket)
  unfolding remove
  put key b buckets = (key, b) ∷ remove key buckets

pub record Registry {ℓ} (K : Type ℓ) : Type ℓ where
  pub per_min : ℕ
  pub buckets : List (K × Bucket)

unfoldable pub new_registry {ℓ} : {K : Type ℓ} → ℕ → Registry K
new_registry per_min = record { per_min = per_min; buckets = [] }

unfoldable pub allow_key {ℓ} :
    {K : Type ℓ} → (K → K → Bool) → K → ℕ → Registry K → Registry K × Verdict
unfolding find put
allow_key same key now r =
    let (b, verdict) = allow now (bucket_or_new (find same key r.buckets) r.per_min now) in
    (record r { buckets = put same key b r.buckets }, verdict)

unfoldable pub len {ℓ} : {K : Type ℓ} → Registry K → ℕ
len r = length r.buckets

find_lem :
    (key : String) (buckets : List (String × Bucket)) → find str_eq key buckets ≡ lookup key buckets
unfolding find lookup
find_lem key [] = refl
find_lem key ((other, b) ∷ buckets) = rw (find_lem key buckets)

remove_lem :
    (key : String) (buckets : List (String × Bucket))
    → remove str_eq key buckets ≡ delete key buckets
unfolding remove delete
remove_lem key [] = refl
remove_lem key ((other, b) ∷ buckets) = rw (remove_lem key buckets)

-- The registry of a limiter's buckets.
abbrev pub as_registry : Limiter → Registry String
as_registry l = record { per_min = l.per_min; buckets = l.buckets }

-- Over ICCIDs the generic limiter is the limiter: from the same buckets it gives the same verdict and
-- has the same buckets after it.
pub allow_key-as_registry :
    (iccid : String) (now : ℕ) (l : Limiter)
    → allow_key str_eq iccid now (as_registry l)
      ≡ (as_registry (allow_iccid iccid now l).0, (allow_iccid iccid now l).1)
unfolding allow_key allow_iccid put insert
allow_key-as_registry iccid now l = simp (find_lem iccid l.buckets, remove_lem iccid l.buckets)
