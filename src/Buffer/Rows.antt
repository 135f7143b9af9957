-- ===== src/Buffer/Rows.antt =====
-- The table of the offline buffer after any calls: its ids ascend, its hashes differ.
use sms_gate.Prelude.{
  ℕ, suc, Bool, Option, ◌≤◌, ◌<◌, ◌≡◌, refl, sym, ◌∙◌, inl, inr, true, false, ◌||◌, List, [], ◌∷◌,
  ◌++◌, ◌==◌, arith, Bool-cases, none, some,
}
use sms_gate.Prelude.Int.{ℤ}
use sms_gate.Prelude.Text.{eq_bytes, eq_bytes_iff}
use sms_gate.Worker.{Row}
use sms_gate.Buffer.{
  is_pending, SmsRecord, Buffer, ltb_int, has_hash, insert_or_ignore, Fault, no_fault, exec_fails,
  last_id_fails, affected_fails, insert_valid, insert, valid_iccid, set_delivered, mark_delivered,
  delete_delivered, purge, Op, inserts, marks, purges, step, run,
}

-- The ids ascend strictly, from above `low` to `high` at most.
unfoldable pub Between : ℕ → List SmsRecord → ℕ → Type 0
Between low [] high = low ≤ high
Between low (r ∷ rows) high = (low < r.id) × Between r.id rows high

unfoldable pub Unique : List SmsRecord → Type 0
Unique [] = Unit
Unique (r ∷ rows) = (has_hash r.row.pdu_hash rows ≡ false) × Unique rows

-- Ids ascend up to the last one given, and no hash is there twice.
pub record IsTable (b : Buffer) : Type 0 where
  pub ascending : Between 0 b.rows b.last_id
  pub unique : Unique b.rows

pub Between-lower :
    (low low' : ℕ) (rows : List SmsRecord) (high : ℕ)
    → low' ≤ low
    → Between low rows high
    → Between low' rows high
unfolding Between
Between-lower low low' [] high h between = omega arith
Between-lower low low' (r ∷ rows) high h (above, between) = (omega arith, between)

Between-snoc :
    (low : ℕ) (rows : List SmsRecord) (high : ℕ) (r : SmsRecord)
    → r.id ≡ suc high
    → Between low rows high
    → Between low (rows ++ r ∷ []) (suc high)
unfolding Between
Between-snoc low [] high r e between = (omega arith, omega arith)
Between-snoc low (x ∷ rows) high r e (above, between) =
    (above, Between-snoc x.id rows high r e between)

-- Two byte strings in the other order.
eq_bytes-sym : (x y : List ℕ) → eq_bytes x y ≡ false → eq_bytes y x ≡ false
eq_bytes-sym x y e = elim (Bool-cases (eq_bytes y x)) [
  | inl same ↦
      let eq : eq_bytes x y ≡ true = (eq_bytes_iff x y).1 (sym ((eq_bytes_iff y x).0 same)) in
      absurd (ground arith)
  | inr other ↦ other
]

pub has_hash-snoc :
    (hash : List ℕ) (rows : List SmsRecord) (r : SmsRecord)
    → has_hash hash (rows ++ r ∷ []) ≡ (has_hash hash rows || eq_bytes r.row.pdu_hash hash)
unfolding has_hash
has_hash-snoc hash [] r = ground arith
has_hash-snoc hash (x ∷ rows) r = ground (arith, has_hash-snoc hash rows r)

Unique-snoc :
    (rows : List SmsRecord) (r : SmsRecord)
    → has_hash r.row.pdu_hash rows ≡ false
    → Unique rows
    → Unique (rows ++ r ∷ [])
unfolding Unique has_hash
Unique-snoc [] r e unique = (refl, tt)
Unique-snoc (x ∷ rows) r e (fresh, unique) =
    let apart : eq_bytes x.row.pdu_hash r.row.pdu_hash ≡ false = ground arith in
    let apart' = eq_bytes-sym x.row.pdu_hash r.row.pdu_hash apart in
    let later : has_hash r.row.pdu_hash rows ≡ false = ground arith in
    (has_hash-snoc x.row.pdu_hash rows r ∙ rw (fresh, apart') refl, Unique-snoc rows r later unique)

-- UPDATE leaves ids and hashes.
pub Between-set_delivered :
    (id : ℕ) (now : ℤ) (low : ℕ) (rows : List SmsRecord) (high : ℕ)
    → Between low rows high
    → Between low (set_delivered id now rows) high
unfolding Between set_delivered
Between-set_delivered id now low [] high between = between
Between-set_delivered id now low (r ∷ rows) high (above, between) =
    let rest = Between-set_delivered id now r.id rows high between in
    elim (Bool-cases (r.id == id)) [
      | inl hit ↦ rw hit (above, rest)
      | inr miss ↦ rw miss (above, rest)
    ]

pub has_hash-set_delivered :
    (hash : List ℕ) (id : ℕ) (now : ℤ) (rows : List SmsRecord)
    → has_hash hash (set_delivered id now rows) ≡ has_hash hash rows
unfolding has_hash set_delivered
has_hash-set_delivered hash id now [] = refl
has_hash-set_delivered hash id now (r ∷ rows) =
    ground (arith, has_hash-set_delivered hash id now rows)

Unique-set_delivered :
    (id : ℕ) (now : ℤ) (rows : List SmsRecord) → Unique rows → Unique (set_delivered id now rows)
unfolding Unique set_delivered
Unique-set_delivered id now [] unique = tt
Unique-set_delivered id now (r ∷ rows) (fresh, unique) =
    let rest = Unique-set_delivered id now rows unique in
    let fresh' = has_hash-set_delivered r.row.pdu_hash id now rows ∙ fresh in
    elim (Bool-cases (r.id == id)) [
      | inl hit ↦ rw hit (fresh', rest)
      | inr miss ↦ rw miss (fresh', rest)
    ]

-- DELETE.
Between-delete_delivered :
    (cutoff : ℤ) (low : ℕ) (rows : List SmsRecord) (high : ℕ)
    → Between low rows high
    → Between low (delete_delivered cutoff rows).0 high
unfolding Between delete_delivered
Between-delete_delivered cutoff low [] high between = between
Between-delete_delivered cutoff low (r ∷ rows) high (above, between) =
    let rest = Between-delete_delivered cutoff r.id rows high between in
    let rest' = Between-lower r.id low (delete_delivered cutoff rows).0 high (omega arith) rest in
    elim (Bool-cases (is_pending r.status)) [
      | inl wait ↦ rw wait (above, rest)
      | inr sent ↦ elim (Bool-cases (ltb_int r.created_at cutoff)) [
        | inl old ↦ rw (sent, old) rest'
        | inr new ↦ rw (sent, new) (above, rest)
      ]
    ]

pub has_hash-delete_delivered :
    (hash : List ℕ) (cutoff : ℤ) (rows : List SmsRecord)
    → has_hash hash rows ≡ false
    → has_hash hash (delete_delivered cutoff rows).0 ≡ false
unfolding has_hash delete_delivered
has_hash-delete_delivered hash cutoff [] e = refl
has_hash-delete_delivered hash cutoff (r ∷ rows) e =
    let later : has_hash hash rows ≡ false = ground arith in
    let rest = has_hash-delete_delivered hash cutoff rows later in ground arith

Unique-delete_delivered :
    (cutoff : ℤ) (rows : List SmsRecord) → Unique rows → Unique (delete_delivered cutoff rows).0
unfolding Unique delete_delivered
Unique-delete_delivered cutoff [] unique = tt
Unique-delete_delivered cutoff (r ∷ rows) (fresh, unique) =
    let rest = Unique-delete_delivered cutoff rows unique in
    let fresh' = has_hash-delete_delivered r.row.pdu_hash cutoff rows fresh in
    elim (Bool-cases (is_pending r.status)) [
      | inl wait ↦ rw wait (fresh', rest)
      | inr sent ↦ elim (Bool-cases (ltb_int r.created_at cutoff)) [
        | inl old ↦ rw (sent, old) rest
        | inr new ↦ rw (sent, new) (fresh', rest)
      ]
    ]

insert_or_ignore-IsTable :
    (row : Row) (now : ℤ) (b : Buffer) → IsTable b → IsTable (insert_or_ignore row now b).0
unfolding insert_or_ignore
insert_or_ignore-IsTable row now b h = elim (Bool-cases (has_hash row.pdu_hash b.rows)) [
  | inl there ↦ rw there h
  | inr fresh ↦ rw fresh (record {
    ascending = Between-snoc 0 b.rows b.last_id _ refl h.ascending;
    unique = Unique-snoc b.rows _ fresh h.unique;
  })
]

insert_valid-IsTable :
    (fault : Fault) (row : Row) (now : ℤ) (b : Buffer)
    → IsTable b
    → IsTable (insert_valid fault row now b).0
unfolding insert_valid
insert_valid-IsTable no_fault row now b h = insert_or_ignore-IsTable row now b h
insert_valid-IsTable exec_fails row now b h = h
insert_valid-IsTable last_id_fails row now b h = insert_or_ignore-IsTable row now b h
insert_valid-IsTable affected_fails row now b h = insert_or_ignore-IsTable row now b h

insert-IsTable :
    (fault : Fault) (row : Row) (now : ℤ) (b : Buffer)
    → IsTable b
    → IsTable (insert fault row now b).0
unfolding insert
insert-IsTable fault row now b h = elim (Bool-cases (valid_iccid row.iccid)) [
  | inl valid ↦ rw valid (insert_valid-IsTable fault row now b h)
  | inr bad ↦ rw bad h
]

step-IsTable : (o : Op) (b : Buffer) → IsTable b → IsTable (step o b)
unfolding step mark_delivered purge
step-IsTable (inserts fault row now) b h = insert-IsTable fault row now b h
step-IsTable (marks true id now) b h = record {
  ascending = Between-set_delivered id now 0 b.rows b.last_id h.ascending;
  unique = Unique-set_delivered id now b.rows h.unique;
}
step-IsTable (marks false id now) b h = h
step-IsTable (purges true affected_ok cutoff) b h = record {
  ascending = Between-delete_delivered cutoff 0 b.rows b.last_id h.ascending;
  unique = Unique-delete_delivered cutoff b.rows h.unique;
}
step-IsTable (purges false affected_ok cutoff) b h = h

pub run-IsTable : (ops : List Op) (b : Buffer) → IsTable b → IsTable (run ops b)
unfolding run
run-IsTable [] b h = h
run-IsTable (o ∷ ops) b h = run-IsTable ops (step o b) (step-IsTable o b h)

-- What Insert returns, against the last id given before: an error, that the message is there, or the
-- next id.
pub data IsFresh (last : ℕ) : Option (ℕ × Bool) → Type 0 where
  fails : IsFresh last none
  there : IsFresh last (some (0, true))
  added : IsFresh last (some (suc last, false))
