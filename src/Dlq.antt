-- ===== src/Dlq.antt =====
-- The dead-letter queue (internal/dlq/dlq.go). Each method runs under the lock: it is one function
-- from the queue before to the queue after. Times are Unix nanoseconds.
pub mod Retention
mod Tests
use Prim.Native.String.{String}
use sms_gate.Prelude.{ℕ, ◌≡◌, List, [], ◌∷◌, leb, length, if◌then◌else◌}
use sms_gate.Prelude.Int.{ℤ, pos_part}
use sms_gate.Prelude.Recent.{push_recent}

abbrev pub default_max_size : ℕ
default_max_size = 1000

pub record Entry : Type 0 where
  pub id : String
  pub to : String
  pub body : String
  pub iccid : String
  pub reason : String
  pub created_at : ℕ
  pub retries : ℕ

pub record Queue : Type 0 where
  pub entries : List Entry
  pub max_size : ℕ

-- `maxSize <= 0`: the positive part of the argument is 0.
pub new : ℤ → Queue
new max_size = record {
  entries = [];
  max_size = if leb (pos_part max_size) 0 then default_max_size else pos_part max_size;
}

pub push : Entry → Queue → Queue
unfolding push_recent
push e q = record q { entries = push_recent q.max_size q.entries e }

-- The result is a copy, so that later pushes do not reach it.
pub drain : Queue → Queue × List Entry
drain q = (record q { entries = [] }, q.entries)

pub len : Queue → ℕ
len q = length q.entries

pub data Call : Type 0 where
  pushed : Entry → Call
  drained : Call

pub step : Call → Queue → Queue
step (pushed e) q = push e q
step drained q = (drain q).0

pub run : List Call → Queue → Queue
run [] q = q
run (c ∷ calls) q = run calls (step c q)
