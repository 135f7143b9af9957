-- ===== src/Tunnel/Session.antt =====
-- Sessions of internal/tunnel/manager.go (runSession, writer, reader, sendHello, sendHeartbeat, flushBuffer)
-- beside the workers that push events and insert rows: the goroutines' steps in any order. An action has
-- the results of the calls it makes. After the end of a session its writer and reader may take one more
-- step each, since a select may find more than one case ready; here the number is not limited.
use Prim.Native.String.{String}
use sms_gate.Prelude.{
  ℕ, Bool, true, false, ◌&&◌, Option, none, some, List, [], ◌∷◌, ◌++◌, if◌then◌else◌,
}
use sms_gate.Prelude.Int.{ℤ}
use sms_gate.Worker.{Row}
use sms_gate.Buffer.{Buffer, Fault, insert, pending_count, purge}
use sms_gate.Router.{Router}
use sms_gate.Tunnel.{
  Event, Manager, push, Inbound, malformed, sms_delivered_ack, task, unknown_type, handle_inbound,
}
use sms_gate.Tunnel.Flush.{
  Flush, Message, hello, heartbeat, event, begin, go_phase, expire, stop_wait, wake, wake_all,
}

-- `live` until the context of the session is cancelled.
pub record Session : Type 0 where
  pub manager : Manager
  pub router : Router
  pub flush : Option Flush
  pub written : List Message
  pub live : Bool

-- A new session: its Purge and the write of its HELLO. The writer: an event, a ping, a heartbeat. The
-- reader: a message, or an error. A flush: it begins, takes a step, its timer fires, it sees the end.
-- The end of a session: the drain. A worker: a row, an event. The purge of the day.
pub data Action : Type 0 where
  starts : Bool → Bool → ℤ → Bool → Action
  writes_event : Bool → Action
  pings : Bool → Action
  beats : Bool → Bool → Action
  reads : Bool → ℤ → Inbound → Action
  read_fails : Action
  flush_begins : Bool → Action
  flush_goes : Bool → Action
  flush_expires flush_stops drains : Action
  inserts_row : Fault → Row → ℤ → Action
  pushes : Event → Action
  purges_rows : Bool → Bool → ℤ → Action

abbrev pub with_buffer : Buffer → Session → Session
with_buffer buffer s = record s { manager = record s.manager { buffer = buffer } }

-- runSession up to its goroutines. When HELLO cannot be written the session ends at once.
unfoldable pub start_session : Bool → Bool → ℤ → Bool → Session → Session
start_session exec_ok affected_ok cutoff hello_ok s =
    let s' = with_buffer (purge exec_ok affected_ok cutoff s.manager.buffer).0 s in
    if hello_ok then record s' { written = s.written ++ hello ∷ []; live = true } else s'

-- The writer takes an event, which is gone even if the write fails.
unfoldable pub write_event : Bool → Session → List Event → Session
write_event write_ok s [] = s
write_event write_ok s (e ∷ events) =
    let s' = record s { manager = record s.manager { outbox = events } } in
    if write_ok
    then record s' { written = s.written ++ event e ∷ [] }
    else record s' { live = false }

-- sendHeartbeat, with the result of its query and of its write.
unfoldable pub beat : Bool → Bool → Session → Session
beat count_ok write_ok s =
    if count_ok && write_ok
    then record s { written = s.written ++ heartbeat (pending_count s.manager.buffer) ∷ [] }
    else record s { live = false }

-- A message wakes the flush that waits for it.
unfoldable pub wake_by : Inbound → List ℕ → Option Flush → Option Flush
unfolding wake
wake_by malformed ids flush = flush
wake_by (sms_delivered_ack id) ids flush = wake id ids flush
wake_by (task t) ids flush = flush
wake_by (unknown_type name) ids flush = flush

unfoldable pub read : (String → String → Option String) → Bool → ℤ → Inbound → Session → Session
unfolding handle_inbound wake_by
read unmarshal exec_ok now msg s =
    let (m, r) = handle_inbound unmarshal exec_ok now msg s.manager s.router in
    record s { manager = m; router = r; flush = wake_by msg s.manager.pending s.flush }

unfoldable pub go_flush : List ℕ → Bool → Session → Option Flush → Session
unfolding go_phase
go_flush gateway_id write_ok s none = s
go_flush gateway_id write_ok s (some f) =
    let (ids, (flush, written)) = go_phase gateway_id write_ok f s.manager.pending f.phase in
    record s {
      manager = record s.manager { pending = ids };
      flush = flush;
      written = s.written ++ written;
    }

unfoldable pub expire_flush : Session → Option Flush → Session
unfolding expire
expire_flush s none = s
expire_flush s (some f) =
    let (ids, f') = expire f s.manager.pending f.phase in
    record s { manager = record s.manager { pending = ids }; flush = some f' }

unfoldable pub stop_flush : Option Flush → Option Flush
unfolding stop_wait
stop_flush none = none
stop_flush (some f) = stop_wait f f.phase

-- The context is cancelled, for the flush of this session too.
abbrev pub cancel_flush : Option Flush → Option Flush
cancel_flush none = none
cancel_flush (some f) = some (record f { live = false })

abbrev pub cancel : Session → Session
cancel s = record s { live = false; flush = cancel_flush s.flush }

-- An action that failed in the writer or the reader cancels.
unfoldable pub cancelled_if_dead : Session → Session
cancelled_if_dead s = if s.live then s else cancel s

-- The drain of runSession.
unfoldable pub drain : Session → Session
unfolding wake_all
drain s = record s {
  manager = record s.manager { pending = [] };
  flush = wake_all s.manager.pending s.flush;
}

module _ (gateway_id : List ℕ) (unmarshal : String → String → Option String) where
  unfoldable pub act : Action → Session → Session
  unfolding start_session write_event beat read go_flush expire_flush stop_flush cancelled_if_dead
      drain begin insert push purge
  act (starts exec_ok affected_ok cutoff hello_ok) s =
      start_session exec_ok affected_ok cutoff hello_ok s
  act (writes_event write_ok) s = cancelled_if_dead (write_event write_ok s s.manager.outbox)
  act (pings ok) s = if ok then s else cancel s
  act (beats count_ok write_ok) s = cancelled_if_dead (beat count_ok write_ok s)
  act (reads exec_ok now msg) s = read unmarshal exec_ok now msg s
  act read_fails s = cancel s
  act (flush_begins query_ok) s = record s { flush = begin s.live query_ok s.manager s.flush }
  act (flush_goes write_ok) s = go_flush gateway_id write_ok s s.flush
  act flush_expires s = expire_flush s s.flush
  act flush_stops s = record s { flush = stop_flush s.flush }
  act drains s = drain s
  act (inserts_row fault row now) s = with_buffer (insert fault row now s.manager.buffer).0 s
  act (pushes e) s = record s { manager = push e s.manager }
  act (purges_rows exec_ok affected_ok cutoff) s =
      with_buffer (purge exec_ok affected_ok cutoff s.manager.buffer).0 s

  unfoldable pub run : List Action → Session → Session
  unfolding act
  run [] s = s
  run (a ∷ actions) s = run actions (act a s)
