-- ===== src/Buffer.antt =====
-- The offline buffer of messages (internal/buffer/buffer.go). The table is a list of its rows; each SQL
-- statement of the source is a function on it, and an argument says which call of the database fails.
-- Text is its bytes, times are Unix milliseconds.
pub mod Rows
pub mod Order
pub mod Keeps
pub mod Serves
mod Tests
use sms_gate.Prelude.{
  ℕ, zero, suc, ◌+◌, Bool, true, false, ◌&&◌, ◌||◌, Option, none, some, List, [], ◌∷◌, ◌++◌, ltb,
  leb, ◌==◌, length, if◌then◌else◌,
}
use sms_gate.Prelude.Int.{ℤ, pos, negsuc}
use sms_gate.Prelude.Text.{eq_bytes}
use sms_gate.Prelude.Strings.{is_digit}
use sms_gate.Worker.{Row}

-- The column `status`.
pub data RowStatus : Type 0 where
  pending delivered : RowStatus

unfoldable pub is_pending : RowStatus → Bool
is_pending pending = true
is_pending delivered = false

pub record SmsRecord : Type 0 where
  pub id : ℕ
  pub row : Row
  pub status : RowStatus
  pub created_at : ℤ
  pub delivered_at : Option ℤ

-- The table, and the largest id that AUTOINCREMENT has given.
pub record Buffer : Type 0 where
  pub rows : List SmsRecord
  pub last_id : ℕ

abbrev pub schema_version : ℤ
schema_version = pos 1

-- Open: the calls that may fail, in their order, and the version that is read.
pub data OpenError : Type 0 where
  open_sqlite apply_schema query_version set_version : OpenError
  newer : ℤ → OpenError

abbrev pub ltb_int : ℤ → ℤ → Bool
ltb_int (pos m) (pos n) = ltb m n
ltb_int (pos m) (negsuc n) = false
ltb_int (negsuc m) (pos n) = true
ltb_int (negsuc m) (negsuc n) = ltb n m

-- With the version: stamped when it is 0, refused when it is newer.
unfoldable pub check_version : Bool → ℤ → Option OpenError
check_version set_ok (pos zero) = if set_ok then none else some set_version
check_version set_ok (pos (suc n)) =
    if ltb_int schema_version (pos (suc n)) then some (newer (pos (suc n))) else none
check_version set_ok (negsuc n) = none

abbrev pub read_version : Bool → Option ℤ → Option OpenError
read_version set_ok none = some query_version
read_version set_ok (some version) = check_version set_ok version

unfoldable pub open_error : Bool → Bool → Option ℤ → Bool → Option OpenError
unfolding check_version
open_error open_ok schema_ok version set_ok =
    if open_ok
    then (if schema_ok then read_version set_ok version else some apply_schema)
    else some open_sqlite

-- 19 or 20 digits.
unfoldable pub all_digits : List ℕ → Bool
all_digits [] = true
all_digits (c ∷ s) = is_digit c && all_digits s

unfoldable pub valid_iccid : List ℕ → Bool
unfolding all_digits
valid_iccid s = (length s == 19 || length s == 20) && all_digits s

-- The column pdu_hash is UNIQUE.
unfoldable pub has_hash : List ℕ → List SmsRecord → Bool
has_hash hash [] = false
has_hash hash (r ∷ rows) = eq_bytes r.row.pdu_hash hash || has_hash hash rows

-- The row with the columns' defaults.
abbrev pub new_record : Row → ℤ → Buffer → SmsRecord
new_record row now b = record {
  id = suc b.last_id;
  row = row;
  status = pending;
  created_at = now;
  delivered_at = none;
}

-- INSERT OR IGNORE, with the number of rows affected.
unfoldable pub insert_or_ignore : Row → ℤ → Buffer → Buffer × ℕ
unfolding has_hash
insert_or_ignore row now b =
    if has_hash row.pdu_hash b.rows
    then (b, 0)
    else (record b { rows = b.rows ++ new_record row now b ∷ []; last_id = suc b.last_id }, 1)

-- The call of Insert that fails, if one does.
pub data Fault : Type 0 where
  no_fault exec_fails last_id_fails affected_fails : Fault

-- Insert: the id and whether the row was there; `none` is an error.
abbrev pub inserted : ℕ → ℕ → Option (ℕ × Bool)
inserted id zero = some (0, true)
inserted id (suc n) = some (id, false)

unfoldable pub insert_valid : Fault → Row → ℤ → Buffer → Buffer × Option (ℕ × Bool)
unfolding insert_or_ignore
insert_valid no_fault row now b =
    let (b', affected) = insert_or_ignore row now b in (b', inserted b'.last_id affected)
insert_valid exec_fails row now b = (b, none)
insert_valid last_id_fails row now b = ((insert_or_ignore row now b).0, none)
insert_valid affected_fails row now b = ((insert_or_ignore row now b).0, none)

unfoldable pub insert : Fault → Row → ℤ → Buffer → Buffer × Option (ℕ × Bool)
unfolding insert_valid valid_iccid
insert fault row now b = if valid_iccid row.iccid then insert_valid fault row now b else (b, none)

-- UPDATE … SET status = 'DELIVERED', delivered_at = ? WHERE id = ?
unfoldable pub set_delivered : ℕ → ℤ → List SmsRecord → List SmsRecord
set_delivered id now [] = []
set_delivered id now (r ∷ rows) =
    let rest = set_delivered id now rows in
    if r.id == id then record r { status = delivered; delivered_at = some now } ∷ rest else r ∷ rest

unfoldable pub mark_delivered : Bool → ℕ → ℤ → Buffer → Buffer × Bool
unfolding set_delivered
mark_delivered exec_ok id now b =
    if exec_ok then (record b { rows = set_delivered id now b.rows }, true) else (b, false)

-- WHERE status = 'PENDING'
unfoldable pub pending_only : List SmsRecord → List SmsRecord
unfolding is_pending
pending_only [] = []
pending_only (r ∷ rows) =
    let rest = pending_only rows in if is_pending r.status then r ∷ rest else rest

unfoldable pub pending_count : Buffer → ℕ
unfolding pending_only
pending_count b = length (pending_only b.rows)

-- ORDER BY id ASC
unfoldable pub insert_by_id : SmsRecord → List SmsRecord → List SmsRecord
insert_by_id r [] = r ∷ []
insert_by_id r (x ∷ rows) =
    let rest = insert_by_id r rows in if leb r.id x.id then r ∷ x ∷ rows else x ∷ rest

unfoldable pub sort_by_id : List SmsRecord → List SmsRecord
unfolding insert_by_id
sort_by_id [] = []
sort_by_id (r ∷ rows) = insert_by_id r (sort_by_id rows)

unfoldable pub pending_rows : Buffer → List SmsRecord
unfolding pending_only sort_by_id
pending_rows b = sort_by_id (pending_only b.rows)

-- DELETE … WHERE status = 'DELIVERED' AND created_at < ?, with the number of rows deleted.
unfoldable pub delete_delivered : ℤ → List SmsRecord → List SmsRecord × ℕ
unfolding is_pending
delete_delivered cutoff [] = ([], 0)
delete_delivered cutoff (r ∷ rows) =
    let (rest, n) = delete_delivered cutoff rows in
    if is_pending r.status
    then (r ∷ rest, n)
    else (if ltb_int r.created_at cutoff then (rest, suc n) else (r ∷ rest, n))

-- Purge, with the moment that retentionDays before now is.
unfoldable pub purge : Bool → Bool → ℤ → Buffer → Buffer × Option ℕ
unfolding delete_delivered
purge exec_ok affected_ok cutoff b =
    let (rows, n) = delete_delivered cutoff b.rows in
    if exec_ok
    then (record b { rows = rows }, (if affected_ok then some n else none))
    else (b, none)

-- The operations that change the table.
pub data Op : Type 0 where
  inserts : Fault → Row → ℤ → Op
  marks : Bool → ℕ → ℤ → Op
  purges : Bool → Bool → ℤ → Op

unfoldable pub step : Op → Buffer → Buffer
unfolding insert mark_delivered purge
step (inserts fault row now) b = (insert fault row now b).0
step (marks exec_ok id now) b = (mark_delivered exec_ok id now b).0
step (purges exec_ok affected_ok cutoff) b = (purge exec_ok affected_ok cutoff b).0

unfoldable pub run : List Op → Buffer → Buffer
unfolding step
run [] b = b
run (o ∷ ops) b = run ops (step o b)

abbrev pub empty : Buffer
empty = record { rows = []; last_id = 0 }
