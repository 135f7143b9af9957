-- ===== src/Tunnel/Client.antt =====
-- The tunnel as a client of the buffer: which calls it makes.
use Prim.Native.String.{String}
use sms_gate.Prelude.{
  ℕ, ◌≡◌, refl, sym, ◌∙◌, Bool, true, false, Option, none, some, List, [], ◌∷◌, ◌++◌, arith,
}
use sms_gate.Prelude.Int.{ℤ}
use sms_gate.Buffer.{
  Buffer, mark_delivered, purge, insert, pending_rows, Op, inserts, marks, purges,
}
use sms_gate.Buffer as Table
use sms_gate.Router.{Router, Answer, queued, not_routable, not_found, busy, dispatch}
use sms_gate.Tunnel.{
  Event, Manager, push, ack_delivered, Inbound, malformed, sms_delivered_ack, task, unknown_type,
  after_routing, handle_inbound,
}
use sms_gate.Tunnel.Flush.{Flush}
use sms_gate.Tunnel.Session.{
  Session, Action, starts, writes_event, pings, beats, reads, read_fails, flush_begins, flush_goes,
  flush_expires, flush_stops, drains, inserts_row, pushes, purges_rows, start_session, write_event,
  beat, read, go_flush, expire_flush, cancelled_if_dead, drain, act, run,
}

-- The calls of the buffer that an action makes to change it.
unfoldable pub ops_of_message : Bool → ℤ → Inbound → List Op
ops_of_message exec_ok now malformed = []
ops_of_message exec_ok now (sms_delivered_ack id) = marks exec_ok id now ∷ []
ops_of_message exec_ok now (task t) = []
ops_of_message exec_ok now (unknown_type name) = []

unfoldable pub ops_of : Action → List Op
unfolding ops_of_message
ops_of (starts exec_ok affected_ok cutoff hello_ok) = purges exec_ok affected_ok cutoff ∷ []
ops_of (writes_event write_ok) = []
ops_of (pings ok) = []
ops_of (beats count_ok write_ok) = []
ops_of (reads exec_ok now msg) = ops_of_message exec_ok now msg
ops_of read_fails = []
ops_of (flush_begins query_ok) = []
ops_of (flush_goes write_ok) = []
ops_of flush_expires = []
ops_of flush_stops = []
ops_of drains = []
ops_of (inserts_row fault row now) = inserts fault row now ∷ []
ops_of (pushes e) = []
ops_of (purges_rows exec_ok affected_ok cutoff) = purges exec_ok affected_ok cutoff ∷ []

unfoldable pub all_ops : List Action → List Op
unfolding ops_of
all_ops [] = []
all_ops (a ∷ actions) = ops_of a ++ all_ops actions

buffer-after_routing :
    (id : String) (m : Manager) (r : Router) (answer : Answer)
    → (after_routing id m (r, answer)).0.buffer ≡ m.buffer
unfolding after_routing push
buffer-after_routing id m r queued = refl
buffer-after_routing id m r (not_routable e) = ground arith
buffer-after_routing id m r not_found = ground arith
buffer-after_routing id m r busy = ground arith

buffer-read :
    (unmarshal : String → String → Option String) (exec_ok : Bool) (now : ℤ) (msg : Inbound)
    (s : Session)
    → (read unmarshal exec_ok now msg s).manager.buffer
      ≡ Table.run (ops_of_message exec_ok now msg) s.manager.buffer
unfolding read handle_inbound ack_delivered ops_of_message Table.run Table.step
buffer-read unmarshal exec_ok now malformed s = refl
buffer-read unmarshal exec_ok now (sms_delivered_ack id) s = refl
buffer-read unmarshal exec_ok now (task t) s =
    let (r, answer) = dispatch unmarshal t s.router in
    buffer-after_routing t.message_id s.manager r answer
buffer-read unmarshal exec_ok now (unknown_type name) s = refl

buffer-cancelled_if_dead : (s : Session) → (cancelled_if_dead s).manager.buffer ≡ s.manager.buffer
unfolding cancelled_if_dead
buffer-cancelled_if_dead s = ground arith

buffer-write_event :
    (write_ok : Bool) (s : Session) (events : List Event)
    → (write_event write_ok s events).manager.buffer ≡ s.manager.buffer
unfolding write_event
buffer-write_event write_ok s [] = refl
buffer-write_event true s (e ∷ events) = refl
buffer-write_event false s (e ∷ events) = refl

buffer-go_flush :
    (gateway_id : List ℕ) (write_ok : Bool) (s : Session) (flush : Option Flush)
    → (go_flush gateway_id write_ok s flush).manager.buffer ≡ s.manager.buffer
unfolding go_flush
buffer-go_flush gateway_id write_ok s none = refl
buffer-go_flush gateway_id write_ok s (some f) = refl

buffer-expire_flush :
    (s : Session) (flush : Option Flush) → (expire_flush s flush).manager.buffer ≡ s.manager.buffer
unfolding expire_flush
buffer-expire_flush s none = refl
buffer-expire_flush s (some f) = refl

buffer-beat :
    (count_ok write_ok : Bool) (s : Session)
    → (beat count_ok write_ok s).manager.buffer ≡ s.manager.buffer
unfolding beat
buffer-beat count_ok write_ok s = ground arith

buffer-drain : (s : Session) → (drain s).manager.buffer ≡ s.manager.buffer
unfolding drain
buffer-drain s = refl

buffer-push : (e : Event) (m : Manager) → (push e m).buffer ≡ m.buffer
unfolding push
buffer-push e m = ground arith

module _ (gateway_id : List ℕ) (unmarshal : String → String → Option String) where
  buffer-act :
      (a : Action) (s : Session)
      → (act gateway_id unmarshal a s).manager.buffer ≡ Table.run (ops_of a) s.manager.buffer
  unfolding act ops_of start_session Table.run Table.step
  buffer-act (starts exec_ok affected_ok cutoff hello_ok) s = ground arith
  buffer-act (writes_event write_ok) s =
      buffer-cancelled_if_dead (write_event write_ok s s.manager.outbox)
      ∙ buffer-write_event write_ok s s.manager.outbox
  buffer-act (pings ok) s = ground arith
  buffer-act (beats count_ok write_ok) s =
      buffer-cancelled_if_dead (beat count_ok write_ok s) ∙ buffer-beat count_ok write_ok s
  buffer-act (reads exec_ok now msg) s = buffer-read unmarshal exec_ok now msg s
  buffer-act read_fails s = refl
  buffer-act (flush_begins query_ok) s = refl
  buffer-act (flush_goes write_ok) s = buffer-go_flush gateway_id write_ok s s.flush
  buffer-act flush_expires s = buffer-expire_flush s s.flush
  buffer-act flush_stops s = refl
  buffer-act drains s = buffer-drain s
  buffer-act (inserts_row fault row now) s = refl
  buffer-act (pushes e) s = buffer-push e s.manager
  buffer-act (purges_rows exec_ok affected_ok cutoff) s = refl

  run-append :
      (ops more : List Op) (b : Buffer)
      → Table.run (ops ++ more) b ≡ Table.run more (Table.run ops b)
  unfolding Table.run
  run-append [] more b = refl
  run-append (o ∷ ops) more b = run-append ops more (Table.step o b)

  -- The tunnel is a client of the buffer only: the buffer after any actions is that after the calls
  -- which these make, in their order.
  pub buffer-run :
      (actions : List Action) (s : Session)
      → (run gateway_id unmarshal actions s).manager.buffer
        ≡ Table.run (all_ops actions) s.manager.buffer
  unfolding run all_ops Table.run
  buffer-run [] s = refl
  buffer-run (a ∷ actions) s =
      rw (run-append (ops_of a) (all_ops actions) s.manager.buffer, sym (buffer-act a s))
        (buffer-run actions (act gateway_id unmarshal a s))
