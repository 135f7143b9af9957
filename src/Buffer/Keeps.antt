-- ===== src/Buffer/Keeps.antt =====
-- What an inserted message meets: it waits until its id is marked.
use sms_gate.Prelude.{
  All, ℕ, suc, ◌≡◌, refl, inl, inr, Bool, true, false, some, List, [], ◌∷◌, ◌++◌, ◌==◌, arith,
  Bool-cases, if◌then◌else◌,
}
use sms_gate.Prelude.Int.{ℤ}
use sms_gate.Worker.{Row}
use sms_gate.Buffer.{
  new_record, pending, is_pending, SmsRecord, Buffer, ltb_int, has_hash, insert_or_ignore, Fault,
  no_fault, exec_fails, last_id_fails, affected_fails, insert_valid, insert, valid_iccid,
  set_delivered, mark_delivered, pending_only, pending_rows, delete_delivered, purge, Op, inserts,
  marks, purges, step, run,
}
use sms_gate.Buffer.Rows.{IsTable}
use sms_gate.Buffer.Order.{pending_rows-run}

-- A pending row with this id and this message is among the rows.
pub data Waits (id : ℕ) (row : Row) : List SmsRecord → Type 0 where
  first :
      (r : SmsRecord) (rows : List SmsRecord)
      → r.id ≡ id
      → r.row ≡ row
      → r.status ≡ pending
      → Waits id row (r ∷ rows)
  later : (r : SmsRecord) (rows : List SmsRecord) → Waits id row rows → Waits id row (r ∷ rows)

-- Every call but MarkDelivered of this id.
unfoldable pub leaves : ℕ → Op → Bool
leaves id (inserts fault row now) = true
leaves id (marks exec_ok id' now) = if id' == id then false else true
leaves id (purges exec_ok affected_ok cutoff) = true

Waits-append :
    (id : ℕ) (row : Row) (rows more : List SmsRecord)
    → Waits id row rows
    → Waits id row (rows ++ more)
Waits-append id row [] more w = elim w [ ]
Waits-append id row (r ∷ rows) more (first _ _ same_id same_row same_status) =
    first r (rows ++ more) same_id same_row same_status
Waits-append id row (r ∷ rows) more (later _ _ w) =
    later r (rows ++ more) (Waits-append id row rows more w)

Waits-last :
    (id : ℕ) (rows : List SmsRecord) (r : SmsRecord)
    → r.id ≡ id
    → r.status ≡ pending
    → Waits id r.row (rows ++ r ∷ [])
Waits-last id [] r e wait = first r [] e refl wait
Waits-last id (x ∷ rows) r e wait = later x (rows ++ r ∷ []) (Waits-last id rows r e wait)

Waits-set_delivered :
    (id id' : ℕ) (row : Row) (now : ℤ) (rows : List SmsRecord)
    → (id' == id) ≡ false
    → Waits id row rows
    → Waits id row (set_delivered id' now rows)
unfolding set_delivered
Waits-set_delivered id id' row now [] ne w = elim w [ ]
Waits-set_delivered id id' row now (r ∷ rows) ne (first _ _ same_id same_row same_status) =
    let miss : (r.id == id') ≡ false = ground arith in
    rw miss (first r (set_delivered id' now rows) same_id same_row same_status)
Waits-set_delivered id id' row now (r ∷ rows) ne (later _ _ w) =
    let rest = Waits-set_delivered id id' row now rows ne w in
    elim (Bool-cases (r.id == id')) [
      | inl hit ↦ rw hit (later _ (set_delivered id' now rows) rest)
      | inr miss ↦ rw miss (later r (set_delivered id' now rows) rest)
    ]

Waits-delete_delivered :
    (id : ℕ) (row : Row) (cutoff : ℤ) (rows : List SmsRecord)
    → Waits id row rows
    → Waits id row (delete_delivered cutoff rows).0
unfolding delete_delivered is_pending
Waits-delete_delivered id row cutoff [] w = elim w [ ]
Waits-delete_delivered id row cutoff (r ∷ rows) (first _ _ same_id same_row same_status) =
    let wait : is_pending r.status ≡ true = rw same_status refl in
    rw wait (first r (delete_delivered cutoff rows).0 same_id same_row same_status)
Waits-delete_delivered id row cutoff (r ∷ rows) (later _ _ w) =
    let rest = Waits-delete_delivered id row cutoff rows w in
    elim (Bool-cases (is_pending r.status)) [
      | inl wait ↦ rw wait (later r (delete_delivered cutoff rows).0 rest)
      | inr sent ↦ elim (Bool-cases (ltb_int r.created_at cutoff)) [
        | inl old ↦ rw (sent, old) rest
        | inr new ↦ rw (sent, new) (later r (delete_delivered cutoff rows).0 rest)
      ]
    ]

Waits-insert_or_ignore :
    (id : ℕ) (row row' : Row) (now : ℤ) (b : Buffer)
    → Waits id row b.rows
    → Waits id row (insert_or_ignore row' now b).0.rows
unfolding insert_or_ignore
Waits-insert_or_ignore id row row' now b w = elim (Bool-cases (has_hash row'.pdu_hash b.rows)) [
  | inl there ↦ rw there w
  | inr fresh ↦ rw fresh (Waits-append id row b.rows _ w)
]

Waits-insert_valid :
    (fault : Fault) (id : ℕ) (row row' : Row) (now : ℤ) (b : Buffer)
    → Waits id row b.rows
    → Waits id row (insert_valid fault row' now b).0.rows
unfolding insert_valid
Waits-insert_valid no_fault id row row' now b w = Waits-insert_or_ignore id row row' now b w
Waits-insert_valid exec_fails id row row' now b w = w
Waits-insert_valid last_id_fails id row row' now b w = Waits-insert_or_ignore id row row' now b w
Waits-insert_valid affected_fails id row row' now b w = Waits-insert_or_ignore id row row' now b w

Waits-insert :
    (fault : Fault) (id : ℕ) (row row' : Row) (now : ℤ) (b : Buffer)
    → Waits id row b.rows
    → Waits id row (insert fault row' now b).0.rows
unfolding insert
Waits-insert fault id row row' now b w = elim (Bool-cases (valid_iccid row'.iccid)) [
  | inl valid ↦ rw valid (Waits-insert_valid fault id row row' now b w)
  | inr bad ↦ rw bad w
]

Waits-step :
    (id : ℕ) (row : Row) (o : Op) (b : Buffer)
    → leaves id o ≡ true
    → Waits id row b.rows
    → Waits id row (step o b).rows
unfolding step mark_delivered purge leaves
Waits-step id row (inserts fault row' now) b e w = Waits-insert fault id row row' now b w
Waits-step id row (marks true id' now) b e w =
    Waits-set_delivered id id' row now b.rows (ground arith) w
Waits-step id row (marks false id' now) b e w = w
Waits-step id row (purges true affected_ok cutoff) b e w =
    Waits-delete_delivered id row cutoff b.rows w
Waits-step id row (purges false affected_ok cutoff) b e w = w

pub Waits-run :
    (id : ℕ) (row : Row) (ops : List Op) (b : Buffer)
    → All (λ o. leaves id o ≡ true) ops
    → Waits id row b.rows
    → Waits id row (run ops b).rows
unfolding run
Waits-run id row [] b h w = w
Waits-run id row (o ∷ ops) b (e, h) w =
    Waits-run id row ops (step o b) h (Waits-step id row o b e w)

pub Waits-pending_only :
    (id : ℕ) (row : Row) (rows : List SmsRecord)
    → Waits id row rows
    → Waits id row (pending_only rows)
unfolding pending_only is_pending
Waits-pending_only id row [] w = elim w [ ]
Waits-pending_only id row (r ∷ rows) (first _ _ same_id same_row same_status) =
    let wait : is_pending r.status ≡ true = rw same_status refl in
    rw wait (first r (pending_only rows) same_id same_row same_status)
Waits-pending_only id row (r ∷ rows) (later _ _ w) =
    let rest = Waits-pending_only id row rows w in
    elim (Bool-cases (is_pending r.status)) [
      | inl wait ↦ rw wait (later r (pending_only rows) rest)
      | inr sent ↦ rw sent rest
    ]

insert_valid-Waits :
    (fault : Fault) (row : Row) (now : ℤ) (b : Buffer) (id : ℕ)
    → (insert_valid fault row now b).1 ≡ some (id, false)
    → Waits id row (insert_valid fault row now b).0.rows
unfolding insert_valid insert_or_ignore
insert_valid-Waits no_fault row now b id e = elim (Bool-cases (has_hash row.pdu_hash b.rows)) [
  | inl there ↦ absurd (ground (arith, rw there at e))
  | inr fresh ↦
      let same : suc b.last_id ≡ id = ground (arith, rw fresh at e) in
      rw fresh (Waits-last id b.rows (new_record row now b) same refl)
]
insert_valid-Waits exec_fails row now b id e = absurd (ground arith)
insert_valid-Waits last_id_fails row now b id e = absurd (ground arith)
insert_valid-Waits affected_fails row now b id e = absurd (ground arith)

-- Insert that reports a new row has put it there, pending.
insert-Waits :
    (fault : Fault) (row : Row) (now : ℤ) (b : Buffer) (id : ℕ)
    → (insert fault row now b).1 ≡ some (id, false)
    → Waits id row (insert fault row now b).0.rows
unfolding insert
insert-Waits fault row now b id e = elim (Bool-cases (valid_iccid row.iccid)) [
  | inl valid ↦ rw valid (insert_valid-Waits fault row now b id (rw valid at e))
  | inr bad ↦ absurd (ground (arith, rw bad at e))
]

-- A message that Insert has reported as new, with this id, is among the rows that the next flush reads,
-- whatever calls follow and whichever of them fail, as long as MarkDelivered is not called with its id.
pub pending_rows-insert :
    (fault : Fault) (row : Row) (now : ℤ) (b : Buffer) (id : ℕ) (ops : List Op)
    → IsTable b
    → (insert fault row now b).1 ≡ some (id, false)
    → All (λ o. leaves id o ≡ true) ops
    → Waits id row (pending_rows (run (inserts fault row now ∷ ops) b))
unfolding run step
pending_rows-insert fault row now b id ops table e h =
    rw (pending_rows-run (inserts fault row now ∷ ops) b table) (
      Waits-pending_only id row (run (inserts fault row now ∷ ops) b).rows
        (Waits-run id row ops (insert fault row now b).0 h (insert-Waits fault row now b id e)))
