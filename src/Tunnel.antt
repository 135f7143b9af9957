-- ===== src/Tunnel.antt =====
-- The tunnel manager (internal/tunnel/manager.go, with the messages of internal/tunnel/protocol.go): the
-- outbox, acknowledgements, inbound messages and the states of Run. JSON is left out: a message is what
-- it stands for. The envelope of an event is its type and, for an acknowledgement, the task's id.
pub mod Session
pub mod Flush
pub mod Bounds
pub mod Client
pub mod Kept
pub mod Delivers
pub mod Routed
pub mod Reconnects
mod Tests
use Prim.Native.String.{String}
use sms_gate.Prelude.{
  ℕ, ◌+◌, Bool, true, false, ◌||◌, Option, none, some, List, [], ◌∷◌, ◌++◌, ltb, ◌==◌, length,
  if◌then◌else◌,
}
use sms_gate.Prelude.Int.{ℤ}
use sms_gate.Worker.{SmsReceivedEvent}
use sms_gate.Buffer.{Buffer, mark_delivered}
use sms_gate.Router.{Task, Router, Answer, queued, not_routable, not_found, busy, dispatch}

pub data ErrorCode : Type 0 where
  modem_not_found modem_busy modem_unresponsive sim_banned sim_full send_failed rate_limited :
      ErrorCode
  invalid_payload unsupported_action : ErrorCode

pub data AckStatus : Type 0 where
  success failed : AckStatus

-- The message of an error is the answer of the router that it is the text of.
pub record TaskError : Type 0 where
  pub code : ErrorCode
  pub message : Answer

pub record TaskAckEvent : Type 0 where
  pub message_id : String
  pub status : AckStatus
  pub error : Option TaskError

pub data AlertCode : Type 0 where
  sim_banned_alert sim_full_alert modem_hang modem_removed signal_lost : AlertCode

-- What workers and the router push.
pub data Event : Type 0 where
  received : SmsReceivedEvent → Event
  task_ack : TaskAckEvent → Event
  modem_alert : String → AlertCode → Event

pub data TunnelState : Type 0 where
  disconnected connecting connected backing_off reconnecting : TunnelState

-- The manager. `pending` has the ids whose acknowledgement a flush waits for.
pub record Manager : Type 0 where
  pub state : TunnelState
  pub attempt : ℕ
  pub outbox : List Event
  pub pending : List ℕ
  pub buffer : Buffer

abbrev pub outbox_size : ℕ
outbox_size = 256

abbrev pub new_manager : Buffer → Manager
new_manager buffer = record {
  state = disconnected;
  attempt = 0;
  outbox = [];
  pending = [];
  buffer = buffer;
}

-- Push: a full outbox drops the event.
unfoldable pub push : Event → Manager → Manager
push e m = if ltb (length m.outbox) outbox_size then record m { outbox = m.outbox ++ e ∷ [] } else m

unfoldable pub outbox_len : Manager → ℕ
outbox_len m = length m.outbox

-- The map of pending acknowledgements, by its keys.
unfoldable pub has_id : ℕ → List ℕ → Bool
has_id id [] = false
has_id id (k ∷ ids) = k == id || has_id id ids

unfoldable pub delete_id : ℕ → List ℕ → List ℕ
delete_id id [] = []
delete_id id (k ∷ ids) = let rest = delete_id id ids in if k == id then rest else k ∷ rest

-- AckDelivered: the channel that it closes is at `wake` in Tunnel/Flush. The update may fail, which is
-- only logged.
unfoldable pub ack_delivered : Bool → ℕ → ℤ → Manager → Manager
unfolding delete_id
ack_delivered exec_ok id now m = record m {
  pending = delete_id id m.pending;
  buffer = (mark_delivered exec_ok id now m.buffer).0;
}

-- A routing error as an acknowledgement. The code is the same whatever the error is.
unfoldable pub make_error_ack : String → Answer → TaskAckEvent
make_error_ack task_id err = record {
  message_id = task_id;
  status = failed;
  error = some (record { code = modem_not_found; message = err });
}

-- What an inbound message is read as; the id of an acknowledgement is not negative.
pub data Inbound : Type 0 where
  malformed : Inbound
  sms_delivered_ack : ℕ → Inbound
  task : Task → Inbound
  unknown_type : String → Inbound

-- The task has been routed.
unfoldable pub after_routing : String → Manager → Router × Answer → Manager × Router
unfolding make_error_ack push
after_routing task_id m (r, queued) = (m, r)
after_routing task_id m (r, not_routable e) =
    (push (task_ack (make_error_ack task_id (not_routable e))) m, r)
after_routing task_id m (r, not_found) = (push (task_ack (make_error_ack task_id not_found)) m, r)
after_routing task_id m (r, busy) = (push (task_ack (make_error_ack task_id busy)) m, r)

-- handleInbound, with the router's Dispatch as InboundTaskFn.
unfoldable pub handle_inbound :
    (String → String → Option String) → Bool → ℤ → Inbound → Manager → Router → Manager × Router
unfolding ack_delivered after_routing
handle_inbound unmarshal exec_ok now malformed m r = (m, r)
handle_inbound unmarshal exec_ok now (sms_delivered_ack id) m r =
    (ack_delivered exec_ok id now m, r)
handle_inbound unmarshal exec_ok now (task t) m r =
    after_routing t.message_id m (dispatch unmarshal t r)
handle_inbound unmarshal exec_ok now (unknown_type name) m r = (m, r)

-- backOff, up to the wait: the attempt whose delay is waited for.
unfoldable pub back_off : Manager → Manager
back_off m = record m { attempt = m.attempt + 1; state = backing_off }

-- One round of the loop of Run: the dial fails, with the status of the response (0 if there is none),
-- or a session runs and changes the manager.
pub data Round : Type 0 where
  dial_fails : ℕ → Round
  session : (Manager → Manager) → Round

unfoldable pub connect : (Manager → Manager) → Manager → Manager
connect run_session m = record (run_session (record m { state = connected; attempt = 0 })) {
  state = reconnecting;
}

unfoldable pub run_round : Round → Manager → Manager
unfolding back_off connect
run_round (dial_fails code) m = back_off (record m { state = connecting })
run_round (session run_session) m = back_off (connect run_session (record m { state = connecting }))

-- Run: the rounds before the context is done.
unfoldable pub run_rounds : List Round → Manager → Manager
unfolding run_round
run_rounds [] m = record m { state = disconnected }
run_rounds (r ∷ rounds) m = run_rounds rounds (run_round r m)

unfoldable pub run_tunnel : List Round → Manager → Manager
unfolding run_rounds
run_tunnel rounds m = run_rounds rounds (record m { state = connecting })
