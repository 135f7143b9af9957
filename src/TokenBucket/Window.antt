-- ===== src/TokenBucket/Window.antt =====
-- How many requests a limiter lets through in a span of time.
use Prim.Native.String.{String}
use text.Mathlib.Text.{◌==◌ as str_eq}
use text.Mathlib.TextEquality.{eq_iff}
use sms_gate.Prelude.{
  ℕ, suc, ◌+◌, ◌-◌, ◌*◌, ◌≤◌, ◌≡◌, refl, Bool, true, false, ◌&&◌, none, some, List, [], ◌∷◌, arith,
  Bool-cases, inl, inr, if◌then◌else◌,
}
use sms_gate.Prelude.Dict.{lookup}
use sms_gate.TokenBucket.{
  Bucket, Limiter, Response, served, too_many_requests, minute, new, allow_iccid, middleware, run,
}
use sms_gate.TokenBucket.Available.{
  IsLimiter, available, available-le, available_later, allow_iccid-per_min, allow_iccid-IsLimiter,
  allow_iccid-same, allow_iccid-other,
}

abbrev is_served : Response → Bool
is_served served = true
is_served (too_many_requests secs) = false

-- The requests for an ICCID that are served.
abbrev pub permitted : String → List (String × Response) → ℕ
permitted iccid [] = 0
permitted iccid ((other, response) ∷ responses) =
    let more = permitted iccid responses in
    if str_eq other iccid && is_served response then suc more else more

-- The requests come in the order of their times, from `t` on.
abbrev pub Follows : ℕ → List (String × ℕ) → Type 0
Follows t [] = Unit {0}
Follows t ((iccid, now) ∷ requests) = (t ≤ now) × Follows now requests

abbrev pub last_time : ℕ → List (String × ℕ) → ℕ
last_time t [] = t
last_time t ((iccid, now) ∷ requests) = last_time now requests

unnamed_apart :
    (other iccid : String)
    → str_eq other "" ≡ true
    → str_eq iccid "" ≡ false
    → str_eq other iccid ≡ false
unnamed_apart other iccid unnamed named =
    ground (arith, eq_iff other "", eq_iff other iccid, eq_iff iccid "")

-- One request, of any ICCID.
middleware_step :
    (iccid other : String) (t now : ℕ) (l : Limiter)
    → str_eq iccid "" ≡ false
    → IsLimiter l
    → t ≤ now
    → let r = middleware other now l in
      available iccid now r.0 + (if str_eq other iccid && is_served r.1 then minute else 0)
      ≤ available iccid t l + (now - t) * l.per_min
unfolding middleware
middleware_step iccid other t now l named v h =
    let grown = available_later iccid t now l v h in
    elim (Bool-cases (str_eq other "")) [
      | inl unnamed ↦
          let apart : str_eq other iccid ≡ false = unnamed_apart other iccid unnamed named in
          rw (unnamed, apart) (omega (arith, grown))
      | inr it ↦ elim (Bool-cases (str_eq other iccid)) [
        | inl same ↦
            let me : other ≡ iccid = (eq_iff other iccid).0 same in
            let taken = allow_iccid-same iccid now l v in
            rw (same, it, me) (ground (arith, grown, taken))
        | inr apart ↦
            rw (apart, it) (ground (arith, grown, allow_iccid-other iccid other now l apart))
      ]
    ]

middleware-IsLimiter :
    (iccid : String) (now : ℕ) (l : Limiter)
    → IsLimiter l
    → IsLimiter (middleware iccid now l).0 × ((middleware iccid now l).0.per_min ≡ l.per_min)
unfolding middleware
middleware-IsLimiter iccid now l v = elim (Bool-cases (str_eq iccid "")) [
  | inl unnamed ↦ rw unnamed (v, refl)
  | inr it ↦ elim (Bool-cases (allow_iccid iccid now l).1.ok) [
    | inl ok ↦ rw (it, ok) (allow_iccid-IsLimiter iccid now l v, allow_iccid-per_min iccid now l)
    | inr busy ↦
        rw (it, busy) (allow_iccid-IsLimiter iccid now l v, allow_iccid-per_min iccid now l)
  ]
]

run-IsLimiter :
    (requests : List (String × ℕ)) (l : Limiter)
    → IsLimiter l
    → IsLimiter (run requests l).0 × ((run requests l).0.per_min ≡ l.per_min)
unfolding run
run-IsLimiter [] l v = (v, refl)
run-IsLimiter ((iccid, now) ∷ requests) l v =
    let (v', same) = middleware-IsLimiter iccid now l v in
    let (v'', same') = run-IsLimiter requests (middleware iccid now l).0 v' in (v'', cc)

new-IsLimiter : (per_min : ℕ) → IsLimiter (new per_min)
unfolding IsLimiter new lookup
new-IsLimiter per_min iccid b e = absurd (none_some b e)
  where
    none_some : (b : Bucket) → none ≡ some b → ⊥
    none_some b e = cc

last_time-ge :
    (t : ℕ) (requests : List (String × ℕ)) → Follows t requests → t ≤ last_time t requests
last_time-ge t [] f = omega arith
last_time-ge t ((iccid, now) ∷ requests) (h, f) = omega (arith, last_time-ge now requests f)

span_mul :
    (t now last p : ℕ) → t ≤ now → now ≤ last → (last - t) * p ≡ (last - now) * p + (now - t) * p
span_mul t now last p h k =
    let e : last - t ≡ (last - now) + (now - t) = omega arith in rw e (omega arith)

run_window :
    (iccid : String) (t : ℕ) (requests : List (String × ℕ)) (l : Limiter)
    → str_eq iccid "" ≡ false
    → IsLimiter l
    → Follows t requests
    → permitted iccid (run requests l).1 * minute
        + available iccid (last_time t requests) (run requests l).0
      ≤ available iccid t l + (last_time t requests - t) * l.per_min
unfolding run
run_window iccid t [] l named v f = omega arith
run_window iccid t ((other, now) ∷ requests) l named v (h, f) =
    let (v', same) = middleware-IsLimiter other now l v in
    let step = middleware_step iccid other t now l named v h in
    let rest = run_window iccid now requests (middleware other now l).0 named v' f in
    let rest' = (rw same at rest) in
    let span = span_mul t now (last_time now requests) l.per_min h (last_time-ge now requests f) in
    elim (Bool-cases (str_eq other iccid && is_served (middleware other now l).1)) [
      | inl taken ↦ let step' = (rw taken at step) in rw taken (omega (arith, step', rest', span))
      | inr passed ↦
          let step' = (rw passed at step) in rw passed (omega (arith, step', rest', span))
    ]

-- In any span of time from a time on, after whatever requests came before, of requests in the order of
-- their times those for one ICCID, which is not empty, that are served are at most the limit for a
-- minute and what the limit brings in that span, whatever is asked for other ICCIDs meanwhile.
pub permitted-run :
    (per_min t : ℕ) (iccid : String) (before requests : List (String × ℕ))
    → str_eq iccid "" ≡ false
    → Follows t requests
    → permitted iccid (run requests (run before (new per_min)).0).1 * minute
      ≤ per_min * (minute + (last_time t requests - t))
unfolding new
permitted-run per_min t iccid before requests named f =
    let (v, same) = run-IsLimiter before (new per_min) (new-IsLimiter per_min) in
    let l = (run before (new per_min)).0 in
    let held = run_window iccid t requests l named v f in
    let full = available-le iccid t l v in
    let held' = (rw same at held) in let full' = (rw same at full) in omega (arith, held', full')
