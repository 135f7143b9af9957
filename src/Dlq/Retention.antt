-- ===== src/Dlq/Retention.antt =====
-- What the dead-letter queue keeps.
use sms_gate.Prelude.{ℕ, ◌≤◌, ◌<◌, ◌≡◌, refl, sym, ap, ◌∙◌, List, [], ◌∷◌, ◌++◌, length, min, arith}
use sms_gate.Prelude.Int.{ℤ}
use sms_gate.Prelude.Recent.{last_n, push_recent-last_n, length-last_n, last_n-nil}
use sms_gate.Dlq.{Entry, Queue, new, push, drain, len, Call, pushed, drained, step, run}

-- The entries pushed since the last drain, after `before`.
unfoldable pub since_drain : List Entry → List Call → List Entry
since_drain before [] = before
since_drain before (pushed e ∷ calls) = since_drain (before ++ e ∷ []) calls
since_drain before (drained ∷ calls) = since_drain [] calls

-- The queue stands for the entries `xs`: it holds the last of them that fit.
record Holds (capacity : ℕ) (xs : List Entry) (q : Queue) : Type 0 where
  bound : q.max_size ≡ capacity
  kept : q.entries ≡ last_n capacity xs

push-Holds :
    (capacity : ℕ) (xs : List Entry) (e : Entry) (q : Queue)
    → 0 < capacity
    → Holds capacity xs q
    → Holds capacity (xs ++ e ∷ []) (push e q)
unfolding push
push-Holds capacity xs e q h t = record {
  bound = t.bound;
  kept = rw (t.bound, t.kept) (push_recent-last_n capacity xs e h);
}

drain-Holds :
    (capacity : ℕ) (xs : List Entry) (q : Queue)
    → Holds capacity xs q
    → Holds capacity [] (drain q).0
unfolding drain
drain-Holds capacity xs q t = record { bound = t.bound; kept = sym (last_n-nil capacity) }

run-Holds :
    (calls : List Call) (capacity : ℕ) (xs : List Entry) (q : Queue)
    → 0 < capacity
    → Holds capacity xs q
    → Holds capacity (since_drain xs calls) (run calls q)
unfolding run step since_drain
run-Holds [] capacity xs q h t = t
run-Holds (pushed e ∷ calls) capacity xs q h t =
    run-Holds calls capacity (xs ++ e ∷ []) (push e q) h (push-Holds capacity xs e q h t)
run-Holds (drained ∷ calls) capacity xs q h t =
    run-Holds calls capacity [] (drain q).0 h (drain-Holds capacity xs q t)

new_capacity : (max_size : ℤ) → 0 < (new max_size).max_size
unfolding new
new_capacity max_size = ground arith

new-Holds : (max_size : ℤ) → Holds (new max_size).max_size [] (new max_size)
unfolding new
new-Holds max_size = record { bound = refl; kept = sym (last_n-nil (new max_size).max_size) }

-- For every argument of `New` and every sequence of pushes and drains: a further `Drain` returns,
-- in the order of the pushes, exactly the last entries pushed since the drain before it, as many
-- as the capacity holds, and leaves the queue empty; the capacity is positive, and `Len` is the
-- number of those entries and never above it.
pub drain-run :
    (max_size : ℤ) (calls : List Call)
    → let q = run calls (new max_size) in
      let capacity = (new max_size).max_size in
      (0 < capacity)
      × ((drain q).1 ≡ last_n capacity (since_drain [] calls))
      × (len (drain q).0 ≡ 0)
      × (len q ≡ min capacity (length (since_drain [] calls)))
      × (len q ≤ capacity)
unfolding drain len
drain-run max_size calls =
    let t =
      run-Holds calls (new max_size).max_size [] (new max_size) (new_capacity max_size)
        (new-Holds max_size) in
    let n = length-last_n (new max_size).max_size (since_drain [] calls) in
    (new_capacity max_size, t.kept, refl, ap length t.kept ∙ n, rw t.kept (omega (arith, n)))
