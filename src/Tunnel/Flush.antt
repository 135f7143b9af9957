-- ===== src/Tunnel/Flush.antt =====
-- flushBuffer of internal/tunnel/manager.go as steps, since acknowledgements arrive between them. The lock
-- flushMu is held while there is a flush.
use sms_gate.Prelude.{
  ℕ, Bool, false, ◌||◌, Option, none, some, List, [], ◌∷◌, leb, ◌==◌, length, if◌then◌else◌,
}
use sms_gate.Worker.{SmsReceivedEvent}
use sms_gate.Buffer.{SmsRecord, pending_rows}
use sms_gate.Tunnel.{Event, received, Manager, has_id, delete_id}

-- Where the loop is: at the next row, after a write, or waiting for the id with its channel closed or not.
pub data Phase : Type 0 where
  at_row : Phase
  wrote : ℕ → Phase
  waits : ℕ → Bool → Phase

-- The rows still to send. `live` ends with the session that the flush began in.
pub record Flush : Type 0 where
  pub left : List SmsRecord
  pub phase : Phase
  pub live : Bool

-- What is written to the connection.
pub data Message : Type 0 where
  hello : Message
  heartbeat : ℕ → Message
  event : Event → Message

abbrev pub max_pending_acks : ℕ
max_pending_acks = 1000

abbrev pub event_of : List ℕ → SmsRecord → SmsReceivedEvent
event_of gateway_id r = record {
  gateway_id = gateway_id;
  iccid = r.row.iccid;
  sender = r.row.sender;
  body = r.row.body;
  received_at = r.row.received_at;
  smsc = r.row.smsc;
  pdu_hash = r.row.pdu_hash;
  buffer_id = r.id;
}

-- The pending rows are read; without any, or on an error, it returns.
unfoldable pub begin_with : Bool → List SmsRecord → Option Flush
begin_with live [] = none
begin_with live (r ∷ rows) = some (record { left = r ∷ rows; phase = at_row; live = live })

unfoldable pub begin : Bool → Bool → Manager → Option Flush → Option Flush
unfolding begin_with
begin live query_ok m (some f) = some f
begin live query_ok m none = if query_ok then begin_with live (pending_rows m.buffer) else none

-- The pending map when an id is put into it.
unfoldable pub put_id : ℕ → List ℕ → List ℕ
unfolding delete_id
put_id id ids = id ∷ delete_id id ids

-- A step of the loop, with the result of the write if it writes: the ids, the flush, what was written.
unfoldable pub next_row :
    List ℕ → Bool → Flush → List ℕ → List SmsRecord → List ℕ × (Option Flush × List Message)
next_row gateway_id write_ok f ids [] = (ids, (none, []))
next_row gateway_id write_ok f ids (r ∷ rows) =
    if f.live
    then (if write_ok
        then (
          ids,
          (
            some (record f { left = rows; phase = wrote r.id }),
            event (received (event_of gateway_id r)) ∷ [],
          ),
        )
        else (ids, (none, [])))
    else (ids, (none, []))

unfoldable pub go_phase :
    List ℕ → Bool → Flush → List ℕ → Phase → List ℕ × (Option Flush × List Message)
unfolding next_row put_id
go_phase gateway_id write_ok f ids at_row = next_row gateway_id write_ok f ids f.left
go_phase gateway_id write_ok f ids (wrote id) =
    if leb max_pending_acks (length ids)
    then (ids, (some (record f { phase = at_row }), []))
    else (put_id id ids, (some (record f { phase = waits id false }), []))
go_phase gateway_id write_ok f ids (waits id closed) =
    (ids, (some (record f { phase = if closed then at_row else waits id closed }), []))

-- The timer of a wait, and the end of the session seen by it.
unfoldable pub expire : Flush → List ℕ → Phase → List ℕ × Flush
unfolding delete_id
expire f ids at_row = (ids, f)
expire f ids (wrote id) = (ids, f)
expire f ids (waits id closed) = (delete_id id ids, record f { phase = at_row })

unfoldable pub stop_wait : Flush → Phase → Option Flush
stop_wait f at_row = some f
stop_wait f (wrote id) = some f
stop_wait f (waits id closed) = if f.live then some f else none

-- The channel of an id is closed: by its acknowledgement, or by the drain at the end of a session.
unfoldable pub wake_phase : ℕ → Phase → Phase
wake_phase id at_row = at_row
wake_phase id (wrote k) = wrote k
wake_phase id (waits k closed) = waits k (closed || k == id)

unfoldable pub wake : ℕ → List ℕ → Option Flush → Option Flush
unfolding has_id wake_phase
wake id ids none = none
wake id ids (some f) =
    some (if has_id id ids then record f { phase = wake_phase id f.phase } else f)

unfoldable pub wake_all : List ℕ → Option Flush → Option Flush
unfolding wake_phase
wake_all [] flush = flush
wake_all (id ∷ ids) none = none
wake_all (id ∷ ids) (some f) = wake_all ids (some (record f { phase = wake_phase id f.phase }))
