-- ===== src/Buffer/Order.antt =====
-- The order of the pending rows, which a flush sends.
use sms_gate.Prelude.{
  ℕ, ◌≡◌, refl, inl, inr, ◌⊎◌, Bool, true, List, [], ◌∷◌, leb, arith, Bool-cases,
}
use sms_gate.Buffer.{
  RowStatus, pending, delivered, is_pending, SmsRecord, Buffer, pending_only, insert_by_id,
  sort_by_id, pending_rows, Op, run,
}
use sms_gate.Buffer.Rows.{Between, Between-lower, IsTable, run-IsTable}

pub Between-pending_only :
    (low : ℕ) (rows : List SmsRecord) (high : ℕ)
    → Between low rows high
    → Between low (pending_only rows) high
unfolding Between pending_only
Between-pending_only low [] high between = between
Between-pending_only low (r ∷ rows) high (above, between) =
    let rest = Between-pending_only r.id rows high between in
    let rest' = Between-lower r.id low (pending_only rows) high (omega arith) rest in
    elim (Bool-cases (is_pending r.status)) [
      | inl wait ↦ rw wait (above, rest)
      | inr sent ↦ rw sent rest'
    ]

insert_by_id-first :
    (r : SmsRecord) (rows : List SmsRecord) (high : ℕ)
    → Between r.id rows high
    → insert_by_id r rows ≡ r ∷ rows
unfolding Between insert_by_id
insert_by_id-first r [] high between = refl
insert_by_id-first r (x ∷ rows) high (above, between) =
    let first : leb r.id x.id ≡ true = ground arith in rw first refl

pub sort_by_id-Between :
    (low : ℕ) (rows : List SmsRecord) (high : ℕ) → Between low rows high → sort_by_id rows ≡ rows
unfolding Between sort_by_id
sort_by_id-Between low [] high between = refl
sort_by_id-Between low (r ∷ rows) high (above, between) =
    rw (sort_by_id-Between r.id rows high between) (insert_by_id-first r rows high between)

pub pending_rows-run :
    (ops : List Op) (b : Buffer)
    → IsTable b
    → pending_rows (run ops b) ≡ pending_only (run ops b).rows
unfolding pending_rows
pending_rows-run ops b h =
    let table = run-IsTable ops b h in
    sort_by_id-Between 0 (pending_only (run ops b).rows) (run ops b).last_id
      (Between-pending_only 0 (run ops b).rows (run ops b).last_id table.ascending)

-- The second list has the rows of the first one whose status is pending, in their order.
pub data Selects : List SmsRecord → List SmsRecord → Type 0 where
  done : Selects [] []
  waits :
      (r : SmsRecord) (rows out : List SmsRecord)
      → r.status ≡ pending
      → Selects rows out
      → Selects (r ∷ rows) (r ∷ out)
  sent :
      (r : SmsRecord) (rows out : List SmsRecord)
      → r.status ≡ delivered
      → Selects rows out
      → Selects (r ∷ rows) out

status_cases : (s : RowStatus) → (s ≡ pending) ⊎ (s ≡ delivered)
status_cases pending = inl refl
status_cases delivered = inr refl

is_pending_of : {s t : RowStatus} {b : Bool} → s ≡ t → is_pending t ≡ b → is_pending s ≡ b
is_pending_of {b} e h = rw e h

pending_only-Selects : (rows : List SmsRecord) → Selects rows (pending_only rows)
unfolding pending_only is_pending
pending_only-Selects [] = done
pending_only-Selects (r ∷ rows) = elim (status_cases r.status) [
  | inl e ↦
      rw (is_pending_of e refl) (waits r rows (pending_only rows) e (pending_only-Selects rows))
  | inr e ↦
      rw (is_pending_of e refl) (sent r rows (pending_only rows) e (pending_only-Selects rows))
]

-- After any calls on a well-formed table, PendingRows gives the rows whose status is pending, all of them
-- and no others, with strictly ascending ids and so in the order in which they were inserted.
pub pending_rows-Selects :
    (ops : List Op) (b : Buffer)
    → IsTable b
    → Selects (run ops b).rows (pending_rows (run ops b))
      × Between 0 (pending_rows (run ops b)) (run ops b).last_id
pending_rows-Selects ops b h =
    let table : IsTable (run ops b) = run-IsTable ops b h in
    rw (pending_rows-run ops b h) (
      pending_only-Selects (run ops b).rows,
      Between-pending_only 0 (run ops b).rows (run ops b).last_id table.ascending,
    )
