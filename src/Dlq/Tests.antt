-- ===== src/Dlq/Tests.antt =====
-- Runs of the dead-letter queue, and the theorem at a concrete input.
use sms_gate.Prelude.{ℕ, ◌≤◌, ◌<◌, min, ◌≡◌, refl, List, [], ◌∷◌, map, length}
use sms_gate.Prelude.Int.{pos, negsuc}
use sms_gate.Prelude.Recent.{last_n}
use sms_gate.Dlq.{Entry, new, push, drain, len, Call, pushed, drained, step, run}
use sms_gate.Dlq.Retention.{since_drain, drain-run}

abbrev task : ℕ → Entry
task n = record {
  id = "task";
  to = "+491700000000";
  body = "hello";
  iccid = "8949020000123456789";
  reason = "SEND_FAILED";
  created_at = n;
  retries = 3;
}

abbrev calls : List Call
calls = pushed (task 1) ∷ drained ∷ pushed (task 2) ∷ pushed (task 3) ∷ pushed (task 4) ∷ []

oldest_evicted : map (λ e. e.created_at) (drain (run calls (new (pos 2)))).1 ≡ 3 ∷ 4 ∷ []
unfolding run step new push drain
oldest_evicted = refl

default_capacity : (new (negsuc 6)).max_size ≡ 1000
unfolding new
default_capacity = refl

drain-run_example :
    let q = run calls (new (pos 2)) in
    let capacity = (new (pos 2)).max_size in
    (0 < capacity)
    × ((drain q).1 ≡ last_n capacity (since_drain [] calls))
    × (len (drain q).0 ≡ 0)
    × (len q ≡ min capacity (length (since_drain [] calls)))
    × (len q ≤ capacity)
drain-run_example = drain-run (pos 2) calls
