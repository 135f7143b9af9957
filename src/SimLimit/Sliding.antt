-- ===== src/SimLimit/Sliding.antt =====
-- One window: no span of its length holds more events than its limit.
use sms_gate.Prelude.{
  ℕ, suc, ◌+◌, ◌≤◌, ◌<◌, ◌≡◌, refl, sym, ap, ◌∙◌, true, ◌&&◌, List, [], ◌∷◌, ◌++◌, ltb, leb, length,
  arith, if◌then◌else◌,
}
use sms_gate.SimLimit.{Window, new_window, evict, allow, count_live, would_allow}

-- The events in the span of length `duration` that ends at `now`, both bounds tested.
unfoldable pub in_span : ℕ → ℕ → List ℕ → ℕ
in_span now duration [] = 0
in_span now duration (t ∷ log) =
    let rest = in_span now duration log in
    if leb t now && ltb now (t + duration) then suc rest else rest

-- The cutoff only moves forward, so what one eviction drops the next would drop.
evict-evict :
    (now later duration : ℕ) (events : List ℕ)
    → now ≤ later
    → evict later duration (evict now duration events) ≡ evict later duration events
unfolding evict
evict-evict now later duration [] h = refl
evict-evict now later duration (t ∷ events) h =
    ground (arith, evict-evict now later duration events h)

evict-append :
    (now duration : ℕ) (xs ys : List ℕ)
    → evict now duration (xs ++ ys) ≡ evict now duration xs ++ evict now duration ys
unfolding evict
evict-append now duration [] ys = refl
evict-append now duration (t ∷ xs) ys = ground (arith, evict-append now duration xs ys)

pub length-evict :
    (now duration : ℕ) (events : List ℕ)
    → length (evict now duration events) ≡ count_live now duration events
unfolding evict count_live
length-evict now duration [] = refl
length-evict now duration (t ∷ events) = ground (arith, length-evict now duration events)

in_span-append :
    (now duration t : ℕ) (log : List ℕ)
    → in_span now duration (log ++ t ∷ [])
      ≡ in_span now duration log + (if leb t now && ltb now (t + duration) then 1 else 0)
unfolding in_span
in_span-append now duration t [] = ground arith
in_span-append now duration t (u ∷ log) = ground (arith, in_span-append now duration t log)

-- A span that ends later than `now` holds no more of the old events than are live at `now`.
in_span-le-count_live :
    (now later duration : ℕ) (log : List ℕ)
    → now ≤ later
    → in_span later duration log ≤ count_live now duration log
unfolding in_span count_live
in_span-le-count_live now later duration [] h = omega arith
in_span-le-count_live now later duration (t ∷ log) h =
    ground (arith, in_span-le-count_live now later duration log h)

-- The window stands for the times `log` of the events admitted so far, the last call at `last`:
-- it agrees with the log on what is live, and no span holds too many.
pub record Tracks (limit duration last : ℕ) (log : List ℕ) (w : Window) : Type 0 where
  pub limit_kept : w.limit ≡ limit
  pub duration_kept : w.duration ≡ duration
  pub live : (now : ℕ) → last ≤ now → evict now duration w.events ≡ evict now duration log
  pub bounded : (now : ℕ) → in_span now duration log ≤ limit

pub new_window-Tracks :
    (limit duration : ℕ) → Tracks limit duration 0 [] (new_window limit duration)
unfolding in_span
new_window-Tracks limit duration = record {
  limit_kept = refl;
  duration_kept = refl;
  live = λ now h. refl;
  bounded = λ now. omega arith;
}

-- A send is admitted exactly when fewer events than the limit are live, and is then in the log.
pub allow-would_allow : (now : ℕ) (w : Window) → (allow now w).1 ≡ would_allow now w
unfolding allow would_allow
allow-would_allow now w = ground (arith, length-evict now w.duration w.events)

bounded_step :
    (limit duration now : ℕ) (log : List ℕ)
    → ((x : ℕ) → in_span x duration log ≤ limit)
    → count_live now duration log < limit
    → (x : ℕ) → in_span x duration (log ++ now ∷ []) ≤ limit
bounded_step limit duration now log h few x =
    ground (arith, h x, in_span-append x duration now log, in_span-le-count_live now x duration log)

allow_admitted :
    (now : ℕ) (w : Window)
    → would_allow now w ≡ true
    → (allow now w).0 ≡ record w { events = evict now w.duration w.events ++ now ∷ [] }
unfolding allow would_allow
allow_admitted now w h = ground (arith, length-evict now w.duration w.events)

live_step :
    (now later duration : ℕ) (events log : List ℕ)
    → now ≤ later
    → evict later duration events ≡ evict later duration log
    → evict later duration (evict now duration events ++ now ∷ [])
      ≡ evict later duration (log ++ now ∷ [])
live_step now later duration events log h e =
    simp (evict-append, evict-evict now later duration events h, e)

pub allow-Tracks :
    (limit duration last now : ℕ) (log : List ℕ) (w : Window)
    → last ≤ now
    → would_allow now w ≡ true
    → Tracks limit duration last log w
    → Tracks limit duration now (log ++ now ∷ []) (allow now w).0
allow-Tracks limit duration last now log w h few t = rw (allow_admitted now w few) (record {
  limit_kept = t.limit_kept;
  duration_kept = t.duration_kept;
  live = λ later h'.
      rw t.duration_kept
        (live_step now later duration w.events log h' (t.live later (omega arith)));
  bounded = bounded_step limit duration now log t.bounded room;
})
  where
    live_count : count_live now w.duration w.events ≡ count_live now duration log
    live_count =
        sym (length-evict now w.duration w.events)
        ∙ rw t.duration_kept (ap length (t.live now h) ∙ length-evict now duration log)

    room : count_live now duration log < limit
    room = unfold would_allow in ground (arith, live_count, t.limit_kept)

-- Time passes.
pub Tracks-later :
    (limit duration last now : ℕ) (log : List ℕ) (w : Window)
    → last ≤ now
    → Tracks limit duration last log w
    → Tracks limit duration now log w
Tracks-later limit duration last now log w h t = record {
  limit_kept = t.limit_kept;
  duration_kept = t.duration_kept;
  live = λ later h'. t.live later (omega arith);
  bounded = t.bounded;
}
