-- ===== src/Dedup/Earlier.antt =====
-- A report of the duplicate detector has an earlier check behind it.
use sms_gate.Prelude.{
  ℕ, ◌+◌, ◌<◌, ◌≡◌, refl, ◌⊎◌, inl, inr, true, ◌||◌, List, [], ◌∷◌, ◌++◌, drop, ◌∙◌, arith,
  Bool-cases,
}
use mathlib.Core.List.{append_assoc}
use sms_gate.Prelude.Int.{ℤ}
use sms_gate.Prelude.Recent.{push_recent}
use sms_gate.Prelude.Text.{eq_bytes_iff}
use sms_gate.Dedup.{
  Entry, Dedup, new, is_live, any_live, check_key, fingerprint, is_duplicate, Message, key_of,
  handle, run,
}

any_live-append :
    (key : List ℕ) (now window : ℕ) (e : Entry) (xs : List Entry)
    → any_live key now window (xs ++ e ∷ [])
      ≡ (any_live key now window xs || is_live key now window e)
unfolding any_live
any_live-append key now window e [] = ground arith
any_live-append key now window e (x ∷ xs) = ground (arith, any_live-append key now window e xs)

any_live-drop :
    (key : List ℕ) (now window : ℕ) (xs : List Entry)
    → any_live key now window (drop 1 xs) ≡ true
    → any_live key now window xs ≡ true
unfolding any_live
any_live-drop key now window [] h = h
any_live-drop key now window (x ∷ xs) h = ground arith

-- What is live after a push was live before, or is the pushed entry.
any_live-push_recent :
    (key : List ℕ) (now window max_size : ℕ) (e : Entry) (xs : List Entry)
    → any_live key now window (push_recent max_size xs e) ≡ true
    → (any_live key now window xs ≡ true) ⊎ (is_live key now window e ≡ true)
unfolding push_recent
any_live-push_recent key now window max_size e xs h = ground (
  arith,
  any_live-append key now window e xs,
  any_live-append key now window e (drop 1 xs),
  any_live-drop key now window xs,
)

is_live→earlier :
    (key : List ℕ) (now window : ℕ) (e : Entry)
    → is_live key now window e ≡ true
    → (e.key ≡ key) × (now < e.ts + window)
unfolding is_live
is_live→earlier key now window e h = ground (arith, eq_bytes_iff e.key key)

module _ (sha256 : List ℕ → List ℕ) where
  -- One of the messages has the fingerprint `key`, and `now` is before the end of its window.
  abbrev pub Earlier : List ℕ → ℕ → ℕ → List Message → Type 0
  Earlier key now window [] = ⊥
  Earlier key now window (m ∷ ms) =
      ((key_of sha256 m ≡ key) × (now < m.now + window)) ⊎ Earlier key now window ms

  handle-any_live :
      (key : List ℕ) (now : ℕ) (m : Message) (d : Dedup)
      → any_live key now d.window (handle sha256 m d).0.entries ≡ true
      → (any_live key now d.window d.entries ≡ true)
        ⊎ ((key_of sha256 m ≡ key) × (now < m.now + d.window))
  unfolding is_duplicate check_key
  handle-any_live key now m d h =
      elim (Bool-cases (any_live (key_of sha256 m) m.now d.window d.entries)) [
        | inl found ↦ inl (rw found at h)
        | inr fresh ↦
            elim (any_live-push_recent key now d.window d.max_size _ d.entries (rw fresh at h)) [
              | inl old ↦ inl old
              | inr live ↦ inr (is_live→earlier key now d.window _ live)
            ]
      ]

  handle-window : (m : Message) (d : Dedup) → (handle sha256 m d).0.window ≡ d.window
  unfolding is_duplicate check_key
  handle-window m d = ground arith

  run-any_live :
      (key : List ℕ) (now window : ℕ) (ms : List Message) (d : Dedup)
      → d.window ≡ window
      → any_live key now window (run sha256 ms d).entries ≡ true
      → (any_live key now window d.entries ≡ true) ⊎ Earlier key now window ms
  unfolding run
  run-any_live key now window [] d w h = inl h
  run-any_live key now window (m ∷ ms) d w h =
      elim (run-any_live key now window ms (handle sha256 m d).0 (handle-window m d ∙ w) h) [
        | inr earlier ↦ inr (inr earlier)
        | inl live ↦ elim (handle-any_live key now m d (rw (← w) at live)) [
          | inl old ↦ inl (rw w at old)
          | inr this ↦ inr (inl (rw w at this))
        ]
      ]

  check_key-any_live :
      (key : List ℕ) (now : ℕ) (d : Dedup)
      → (check_key key now d).1 ≡ true
      → any_live key now d.window d.entries ≡ true
  unfolding check_key
  check_key-any_live key now d h = ground arith

  run-window : (ms : List Message) (d : Dedup) → (run sha256 ms d).window ≡ d.window
  unfolding run
  run-window [] d = refl
  run-window (m ∷ ms) d = run-window ms (handle sha256 m d).0 ∙ handle-window m d

  -- A report by a detector that began empty, after any checks, has behind it an earlier check whose
  -- message has the same fingerprint and whose window has not ended.
  pub is_duplicate→Earlier :
      (max_size : ℤ) (window : ℕ) (ms : List Message) (m : Message)
      → (handle sha256 m (run sha256 ms (new max_size window))).1 ≡ true
      → Earlier (key_of sha256 m) m.now window ms
  unfolding is_duplicate new any_live
  is_duplicate→Earlier max_size window ms m h =
      let live = check_key-any_live (key_of sha256 m) m.now _ h in
      elim (run-any_live (key_of sha256 m) m.now window ms (new max_size window) refl
        (rw (run-window ms (new max_size window)) at live)) [
          | inl empty ↦ absurd (ground arith)
          | inr earlier ↦ earlier
        ]

-- A zero byte separates the fields that are hashed and may also stand in them: moving it from one
-- field to the next changes the message and not its fingerprint, whatever the hash.
pub fingerprint_ambiguous :
    (sha256 : List ℕ → List ℕ) (xs ys zs body : List ℕ)
    → fingerprint sha256 (xs ++ 0 ∷ ys) zs body ≡ fingerprint sha256 xs (ys ++ 0 ∷ zs) body
unfolding fingerprint
fingerprint_ambiguous sha256 xs ys zs body = simp append_assoc
