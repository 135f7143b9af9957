-- ===== src/Dedup.antt =====
-- The duplicate detector (internal/dedup/dedup.go). `is_duplicate` runs under the mutex: it is one
-- function of the time `now` that it reads, in nanoseconds. SHA-256 is a parameter.
pub mod Window
pub mod Earlier
mod Tests
use sms_gate.Prelude.{
  ℕ, ◌+◌, ◌*◌, ◌≡◌, Bool, true, false, ◌&&◌, ◌||◌, List, [], ◌∷◌, ◌++◌, ltb, leb, take,
  if◌then◌else◌,
}
use sms_gate.Prelude.Int.{ℤ, pos, pos_part}
use sms_gate.Prelude.Recent.{push_recent}
use sms_gate.Prelude.Text.{eq_bytes, encode_hex}

abbrev pub default_max_size : ℕ
default_max_size = 100

-- time.Minute
abbrev pub default_window : ℕ
default_window = 60 * 1_000_000_000

pub record Entry : Type 0 where
  pub key : List ℕ
  pub ts : ℕ

pub record Dedup : Type 0 where
  pub entries : List Entry
  pub max_size : ℕ
  pub window : ℕ

pub new : ℤ → ℕ → Dedup
new max_size window = record {
  entries = [];
  max_size = if leb (pos_part max_size) 0 then default_max_size else pos_part max_size;
  window = window;
}

pub new_default : Dedup
unfolding new
new_default = new (pos default_max_size) default_window

-- The bytes that are hashed, and the first 128 bits of the hash in hexadecimal.
abbrev pub preimage : List ℕ → List ℕ → List ℕ → List ℕ
preimage iccid to body = iccid ++ 0 ∷ to ++ 0 ∷ body

pub fingerprint : (List ℕ → List ℕ) → List ℕ → List ℕ → List ℕ → List ℕ
fingerprint sha256 iccid to body = encode_hex (take 16 (sha256 (preimage iccid to body)))

-- `now.Sub(e.ts) < d.window`, for a clock that may also stand before `e.ts`.
pub is_live : List ℕ → ℕ → ℕ → Entry → Bool
is_live key now window e = eq_bytes e.key key && ltb now (e.ts + window)

pub any_live : List ℕ → ℕ → ℕ → List Entry → Bool
unfolding is_live
any_live key now window [] = false
any_live key now window (e ∷ entries) = is_live key now window e || any_live key now window entries

-- The body of `IsDuplicate` once the key is computed.
pub check_key : List ℕ → ℕ → Dedup → Dedup × Bool
unfolding any_live push_recent
check_key key now d = if any_live key now d.window d.entries then (d, true) else (
  record d { entries = push_recent d.max_size d.entries (record { key = key; ts = now }) },
  false,
)

pub is_duplicate : (List ℕ → List ℕ) → List ℕ → List ℕ → List ℕ → ℕ → Dedup → Dedup × Bool
unfolding check_key fingerprint
is_duplicate sha256 iccid to body now d = check_key (fingerprint sha256 iccid to body) now d

-- One call of `IsDuplicate`: its arguments and the time that it reads.
pub record Message : Type 0 where
  pub iccid : List ℕ
  pub to : List ℕ
  pub body : List ℕ
  pub now : ℕ

module _ (sha256 : List ℕ → List ℕ) where
  abbrev pub key_of : Message → List ℕ
  key_of m = fingerprint sha256 m.iccid m.to m.body

  abbrev pub handle : Message → Dedup → Dedup × Bool
  handle m d = is_duplicate sha256 m.iccid m.to m.body m.now d

  pub run : List Message → Dedup → Dedup
  run [] d = d
  run (m ∷ ms) d = run ms (handle m d).0
