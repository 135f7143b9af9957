-- ===== src/SimLimit/AllOrNothing.antt =====
-- The three windows of a SIM together.
use sms_gate.Prelude.{
  ℕ, ◌≤◌, ◌≡◌, inl, inr, Bool, true, false, ◌&&◌, List, [], ◌∷◌, ◌++◌, arith, Bool-cases,
  if◌then◌else◌,
}
use sms_gate.SimLimit.{
  RateLimitConfig, SimRateLimiter, minute, hour, day, new_sim_rate_limiter, allow, would_allow,
  allow_sim,
}
use sms_gate.SimLimit.Sliding.{
  in_span, Tracks, new_window-Tracks, allow-would_allow, allow-Tracks, Tracks-later,
}

abbrev all_would : ℕ → SimRateLimiter → Bool
all_would now r =
    would_allow now r.per_min && would_allow now r.per_hour && would_allow now r.per_day

-- A send is admitted exactly when all three windows have room. If it is, every window has taken it,
-- and if it is not, no window has changed.
pub allow_sim_lem :
    (now : ℕ) (r : SimRateLimiter)
    → allow_sim now r ≡ (
        if would_allow now r.per_min && would_allow now r.per_hour && would_allow now r.per_day
        then (
          record {
            per_min = (allow now r.per_min).0;
            per_hour = (allow now r.per_hour).0;
            per_day = (allow now r.per_day).0;
          },
          true,
        )
        else (r, false))
unfolding allow_sim
allow_sim_lem now r = ground (
  arith,
  allow-would_allow now r.per_min,
  allow-would_allow now r.per_hour,
  allow-would_allow now r.per_day,
)

-- A sequence of calls at the given times: the limiter after them, and the times of the sends that
-- were admitted.
unfoldable pub run : List ℕ → SimRateLimiter → List ℕ → SimRateLimiter × List ℕ
run [] r log = (r, log)
run (now ∷ times) r log =
    let (r', ok) = allow_sim now r in run times r' (if ok then log ++ now ∷ [] else log)

-- The times do not fall, from `last` on.
abbrev pub Rising : ℕ → List ℕ → Type 0
Rising last [] = Unit {0}
Rising last (now ∷ times) = (last ≤ now) × Rising now times

record TracksAll (cfg : RateLimitConfig) (last : ℕ) (log : List ℕ) (r : SimRateLimiter)
    : Type 0 where
  per_min : Tracks cfg.per_min minute last log r.per_min
  per_hour : Tracks cfg.per_hour hour last log r.per_hour
  per_day : Tracks cfg.per_day day last log r.per_day

allow_sim-TracksAll :
    (cfg : RateLimitConfig) (last now : ℕ) (log : List ℕ) (r : SimRateLimiter)
    → last ≤ now
    → TracksAll cfg last log r
    → TracksAll cfg now (if (allow_sim now r).1 then log ++ now ∷ [] else log) (allow_sim now r).0
allow_sim-TracksAll cfg last now log r h t =
    rw (allow_sim_lem now r) (elim (Bool-cases (all_would now r)) [
      | inl admitted ↦ rw admitted (record {
        per_min = allow-Tracks _ _ last now log r.per_min h (ground arith) t.per_min;
        per_hour = allow-Tracks _ _ last now log r.per_hour h (ground arith) t.per_hour;
        per_day = allow-Tracks _ _ last now log r.per_day h (ground arith) t.per_day;
      })
      | inr refused ↦ rw refused (record {
        per_min = Tracks-later _ _ last now log r.per_min h t.per_min;
        per_hour = Tracks-later _ _ last now log r.per_hour h t.per_hour;
        per_day = Tracks-later _ _ last now log r.per_day h t.per_day;
      })
    ])

last_of : ℕ → List ℕ → ℕ
last_of last [] = last
last_of last (now ∷ times) = last_of now times

run-TracksAll :
    (cfg : RateLimitConfig) (times : List ℕ) (last : ℕ) (log : List ℕ) (r : SimRateLimiter)
    → Rising last times
    → TracksAll cfg last log r
    → TracksAll cfg (last_of last times) (run times r log).1 (run times r log).0
unfolding run last_of
run-TracksAll cfg [] last log r rise t = t
run-TracksAll cfg (now ∷ times) last log r (h, rise) t =
    run-TracksAll cfg times now _ (allow_sim now r).0 rise
      (allow_sim-TracksAll cfg last now log r h t)

-- A new limiter, called at times that do not fall, never admits more sends than the configuration
-- says: no minute, no hour and no day, wherever it ends, holds more than its limit.
pub run-in_span :
    (cfg : RateLimitConfig) (times : List ℕ) (x : ℕ)
    → Rising 0 times
    → (in_span x minute (run times (new_sim_rate_limiter cfg) []).1 ≤ cfg.per_min)
      × (in_span x hour (run times (new_sim_rate_limiter cfg) []).1 ≤ cfg.per_hour)
      × (in_span x day (run times (new_sim_rate_limiter cfg) []).1 ≤ cfg.per_day)
run-in_span cfg times x rise =
    let t = run-TracksAll cfg times 0 [] (new_sim_rate_limiter cfg) rise start in
    (t.per_min.bounded x, t.per_hour.bounded x, t.per_day.bounded x)
  where
    start : TracksAll cfg 0 [] (new_sim_rate_limiter cfg)
    start =
        unfold new_sim_rate_limiter in
        record {
          per_min = new_window-Tracks cfg.per_min minute;
          per_hour = new_window-Tracks cfg.per_hour hour;
          per_day = new_window-Tracks cfg.per_day day;
        }
