-- ===== src/Dedup/Window.antt =====
-- What the duplicate detector finds, and what it does not report.
use sms_gate.Prelude.{
  ℕ, suc, ◌+◌, ◌≤◌, ◌<◌, ◌≡◌, refl, ◌⊎◌, inl, inr, true, false, List, [], ◌∷◌, ◌++◌, length, drop,
  length-append, arith, leb, leb→le, Bool-cases,
}
use sms_gate.Prelude.Recent.{push_recent}
use sms_gate.Prelude.Text.{eq_bytes_refl}
use sms_gate.Dedup.{Entry, Dedup, any_live, check_key, is_duplicate, Message, key_of, handle, run}

-- `e` is in the list, with at most `n` elements behind it.
abbrev Near : ℕ → Entry → List Entry → Type 0
Near n e [] = ⊥
Near n e (x ∷ xs) = ((x ≡ e) × (length xs ≤ n)) ⊎ Near n e xs

Near-append : (n : ℕ) (e y : Entry) (xs : List Entry) → Near n e xs → Near (suc n) e (xs ++ y ∷ [])
Near-append n e y [] h = absurd h
Near-append n e y (x ∷ xs) (inl (p, q)) = inl (p, omega (arith, length-append xs (y ∷ [])))
Near-append n e y (x ∷ xs) (inr h) = inr (Near-append n e y xs h)

Near-append_self : (e : Entry) (xs : List Entry) → Near 0 e (xs ++ e ∷ [])
Near-append_self e [] = inl (refl, omega arith)
Near-append_self e (x ∷ xs) = inr (Near-append_self e xs)

Near-drop :
    (n max_size : ℕ) (e : Entry) (xs : List Entry)
    → suc n < max_size
    → max_size ≤ length xs
    → Near n e xs
    → Near n e (drop 1 xs)
Near-drop n max_size e [] lt full h = absurd h
Near-drop n max_size e (x ∷ xs) lt full (inl (p, q)) = absurd (omega arith)
Near-drop n max_size e (x ∷ xs) lt full (inr h) = h

Near-push_recent :
    (n max_size : ℕ) (e y : Entry) (xs : List Entry)
    → suc n < max_size
    → Near n e xs
    → Near (suc n) e (push_recent max_size xs y)
unfolding push_recent
Near-push_recent n max_size e y xs lt h = elim (Bool-cases (leb max_size (length xs))) [
  | inl full ↦
      rw full
        (Near-append n e y (drop 1 xs) (Near-drop n max_size e xs lt (leb→le max_size _ full) h))
  | inr room ↦ rw room (Near-append n e y xs h)
]

Near-suc : (n : ℕ) (e : Entry) (xs : List Entry) → Near n e xs → Near (suc n) e xs
Near-suc n e [] h = absurd h
Near-suc n e (x ∷ xs) (inl (p, q)) = inl (p, omega arith)
Near-suc n e (x ∷ xs) (inr h) = inr (Near-suc n e xs h)

any_live_of_Near :
    (n : ℕ) (e : Entry) (now window : ℕ) (xs : List Entry)
    → now < e.ts + window
    → Near n e xs
    → any_live e.key now window xs ≡ true
unfolding any_live
any_live_of_Near n e now window [] lt h = absurd h
any_live_of_Near n e now window (x ∷ xs) lt (inl (p, q)) =
    rw p (ground (arith, eq_bytes_refl e.key))
any_live_of_Near n e now window (x ∷ xs) lt (inr h) =
    ground (arith, any_live_of_Near n e now window xs lt h)

module _ (sha256 : List ℕ → List ℕ) where
  -- The message `e` is remembered behind at most `n` others.
  record Remembers (n max_size window : ℕ) (e : Entry) (d : Dedup) : Type 0 where
    bound : d.max_size ≡ max_size
    span : d.window ≡ window
    kept : Near n e d.entries

  check_key-Remembers :
      (n max_size window : ℕ) (e : Entry) (key : List ℕ) (now : ℕ) (d : Dedup)
      → suc n < max_size
      → Remembers n max_size window e d
      → Remembers (suc n) max_size window e (check_key key now d).0
  unfolding check_key
  check_key-Remembers n max_size window e key now d lt r =
      elim (Bool-cases (any_live key now d.window d.entries)) [
        | inl found ↦
            rw found
              (record { bound = r.bound; span = r.span; kept = Near-suc n e d.entries r.kept })
        | inr fresh ↦ rw fresh (record {
          bound = r.bound;
          span = r.span;
          kept =
              rw r.bound (
                Near-push_recent n max_size e (record { key = key; ts = now }) d.entries lt r.kept);
        })
      ]

  run-Remembers :
      (ms : List Message) (n max_size window : ℕ) (e : Entry) (d : Dedup)
      → n + length ms < max_size
      → Remembers n max_size window e d
      → Remembers (n + length ms) max_size window e (run sha256 ms d)
  unfolding run is_duplicate
  run-Remembers [] n max_size window e d lt r = let same : n + 0 ≡ n = omega arith in rw same r
  run-Remembers (m ∷ ms) n max_size window e d lt r =
      let shift : n + suc (length ms) ≡ suc n + length ms = omega arith in
      rw shift (
        run-Remembers ms (suc n) max_size window e (handle sha256 m d).0 (omega arith)
          (check_key-Remembers n max_size window e (key_of sha256 m) m.now d (omega arith) r))

  recorded :
      (key : List ℕ) (now : ℕ) (d : Dedup)
      → (check_key key now d).1 ≡ false
      → Remembers 0 d.max_size d.window (record { key = key; ts = now }) (check_key key now d).0
  unfolding check_key push_recent
  recorded key now d h = elim (Bool-cases (any_live key now d.window d.entries)) [
    | inl found ↦ absurd (ground arith)
    | inr fresh ↦ rw fresh (record { bound = refl; span = refl; kept = latest })
  ]
    where
      latest :
          Near 0
            (record { key = key; ts = now })
            (push_recent d.max_size d.entries (record { key = key; ts = now }))
      latest = elim (Bool-cases (leb d.max_size (length d.entries))) [
        | inl full ↦ rw full (Near-append_self _ (drop 1 d.entries))
        | inr room ↦ rw room (Near-append_self _ d.entries)
      ]

  check_key_live :
      (key : List ℕ) (now : ℕ) (d : Dedup)
      → any_live key now d.window d.entries ≡ true
      → (check_key key now d).1 ≡ true
  unfolding check_key
  check_key_live key now d h = ground arith

  -- A message that the detector did not report is reported when it is checked again at a time
  -- before the end of its window, if fewer than `max_size` other checks came in between, whatever
  -- those checks were.
  pub is_duplicate-run :
      (m : Message) (ms : List Message) (now : ℕ) (d : Dedup)
      → (handle sha256 m d).1 ≡ false
      → length ms < d.max_size
      → now < m.now + d.window
      → (handle sha256 (record m { now = now }) (run sha256 ms (handle sha256 m d).0)).1 ≡ true
  unfolding is_duplicate
  is_duplicate-run m ms now d fresh few early =
      let e : Entry = record { key = key_of sha256 m; ts = m.now } in
      let r =
        run-Remembers ms 0 d.max_size d.window e (handle sha256 m d).0 (omega arith)
          (recorded (key_of sha256 m) m.now d fresh) in
      check_key_live (key_of sha256 m) now (run sha256 ms (handle sha256 m d).0)
        (rw r.span (any_live_of_Near (0 + length ms) e now d.window _ early r.kept))
