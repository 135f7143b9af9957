-- ===== src/SimLimit.antt =====
-- The send limits of a SIM (internal/modem/ratelimit.go). Times are in nanoseconds. `t.After(cutoff)`
-- for `cutoff = now - duration` is `now < t + duration`, which needs no number below 0. A limit
-- below 0 refuses every send, as 0 does here. The calls for one SIM come from its worker alone, one
-- after another, so each is one function from state to state.
pub mod Sliding
pub mod AllOrNothing
pub mod Registry
mod Tests
use Prim.Native.String.{String}
use sms_gate.Prelude.{
  ℕ, suc, ◌+◌, ◌*◌, Bool, true, false, ◌&&◌, Option, none, some, List, [], ◌∷◌, ◌++◌, ltb, leb,
  length, if◌then◌else◌,
}
use sms_gate.Prelude.Dict.{Dict, lookup, insert}

pub record RateLimitConfig : Type 0 where
  pub per_min : ℕ
  pub per_hour : ℕ
  pub per_day : ℕ

pub record Window : Type 0 where
  pub limit : ℕ
  pub duration : ℕ
  pub events : List ℕ

abbrev pub new_window : ℕ → ℕ → Window
new_window limit dur = record { limit = limit; duration = dur; events = [] }

-- The events after the cutoff.
unfoldable pub evict : ℕ → ℕ → List ℕ → List ℕ
evict now duration [] = []
evict now duration (t ∷ events) =
    let rest = evict now duration events in if ltb now (t + duration) then t ∷ rest else rest

unfoldable pub allow : ℕ → Window → Window × Bool
unfolding evict
allow now w =
    let valid = evict now w.duration w.events in
    if leb w.limit (length valid)
    then (record w { events = valid }, false)
    else (record w { events = valid ++ now ∷ [] }, true)

unfoldable pub count_live : ℕ → ℕ → List ℕ → ℕ
count_live now duration [] = 0
count_live now duration (t ∷ events) =
    let rest = count_live now duration events in if ltb now (t + duration) then suc rest else rest

unfoldable pub would_allow : ℕ → Window → Bool
unfolding count_live
would_allow now w = ltb (count_live now w.duration w.events) w.limit

pub record SimRateLimiter : Type 0 where
  pub per_min : Window
  pub per_hour : Window
  pub per_day : Window

abbrev pub minute : ℕ
minute = 60 * 1_000_000_000

abbrev pub hour : ℕ
hour = 60 * minute

abbrev pub day : ℕ
day = 24 * hour

unfoldable pub new_sim_rate_limiter : RateLimitConfig → SimRateLimiter
new_sim_rate_limiter cfg = record {
  per_min = new_window cfg.per_min minute;
  per_hour = new_window cfg.per_hour hour;
  per_day = new_window cfg.per_day day;
}

-- The three calls of `Allow` in the chain of `&&`: one that refuses stops the chain.
unfoldable pub advance_day : ℕ → SimRateLimiter → SimRateLimiter × Bool
unfolding allow
advance_day now r = let (w, ok) = allow now r.per_day in (record r { per_day = w }, ok)

unfoldable pub advance_hour : ℕ → SimRateLimiter → SimRateLimiter × Bool
unfolding allow advance_day
advance_hour now r =
    let (w, ok) = allow now r.per_hour in
    if ok then advance_day now (record r { per_hour = w }) else (record r { per_hour = w }, false)

unfoldable pub advance_min : ℕ → SimRateLimiter → SimRateLimiter × Bool
unfolding allow advance_hour
advance_min now r =
    let (w, ok) = allow now r.per_min in
    if ok then advance_hour now (record r { per_min = w }) else (record r { per_min = w }, false)

unfoldable pub try_all : ℕ → SimRateLimiter → SimRateLimiter × Bool
unfolding would_allow advance_min
try_all now r =
    if would_allow now r.per_min && would_allow now r.per_hour && would_allow now r.per_day
    then advance_min now r
    else (r, false)

unfoldable pub allow_sim : ℕ → SimRateLimiter → SimRateLimiter × Bool
unfolding try_all
allow_sim now r = let (r', ok) = try_all now r in if ok then (r', true) else (r', false)

-- RateLimiterRegistry: the limiters by ICCID.
abbrev pub RateLimiterRegistry : Type 0
RateLimiterRegistry = Dict SimRateLimiter

unfoldable pub register : String → RateLimitConfig → RateLimiterRegistry → RateLimiterRegistry
unfolding new_sim_rate_limiter
register iccid cfg r = insert iccid (new_sim_rate_limiter cfg) r

allow_found : String → ℕ → RateLimiterRegistry → Option SimRateLimiter → RateLimiterRegistry × Bool
allow_found iccid now r none = (r, true)
allow_found iccid now r (some lim) = let (lim', ok) = allow_sim now lim in (insert iccid lim' r, ok)

unfoldable pub allow_iccid : String → ℕ → RateLimiterRegistry → RateLimiterRegistry × Bool
unfolding allow_sim allow_found
allow_iccid iccid now r = allow_found iccid now r (lookup iccid r)
