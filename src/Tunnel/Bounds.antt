-- ===== src/Tunnel/Bounds.antt =====
-- The bounds of the outbox and of the map of pending acknowledgements.
use Prim.Native.String.{String}
use sms_gate.Prelude.{
  ℕ, ◌≤◌, ◌≡◌, refl, inl, inr, Bool, true, false, Option, none, some, List, [], ◌∷◌, ltb, length,
  length-append, arith, Bool-cases,
}
use sms_gate.Prelude.Int.{ℤ}
use sms_gate.Router.{Router, Answer, queued, not_routable, not_found, busy, dispatch}
use sms_gate.Tunnel.{
  Event, Manager, outbox_size, push, delete_id, ack_delivered, Inbound, malformed,
  sms_delivered_ack, task, unknown_type, after_routing, handle_inbound,
}
use sms_gate.Tunnel.Flush.{
  Flush, Phase, at_row, wrote, waits, max_pending_acks, put_id, next_row, go_phase, expire,
}
use sms_gate.Buffer.{SmsRecord}
use sms_gate.Tunnel.Session.{
  Session, Action, starts, writes_event, pings, beats, reads, read_fails, flush_begins, flush_goes,
  flush_expires, flush_stops, drains, inserts_row, pushes, purges_rows, start_session, write_event,
  beat, read, go_flush, expire_flush, cancelled_if_dead, act, run,
}

pub record IsBounded (m : Manager) : Type 0 where
  pub few_events : length m.outbox ≤ outbox_size
  pub few_ids : length m.pending ≤ max_pending_acks

length-delete_id : (id : ℕ) (ids : List ℕ) → length (delete_id id ids) ≤ length ids
unfolding delete_id
length-delete_id id [] = omega arith
length-delete_id id (k ∷ ids) = ground (arith, length-delete_id id ids)

push-IsBounded : (e : Event) (m : Manager) → IsBounded m → IsBounded (push e m)
unfolding push
push-IsBounded e m h = elim (Bool-cases (ltb (length m.outbox) outbox_size)) [
  | inl room ↦
      rw room (record {
        few_events = ground (arith, length-append m.outbox (e ∷ []));
        few_ids = h.few_ids;
      })
  | inr full ↦ rw full h
]

after_routing-IsBounded :
    (id : String) (m : Manager) (r : Router) (answer : Answer)
    → IsBounded m
    → IsBounded (after_routing id m (r, answer)).0
unfolding after_routing
after_routing-IsBounded id m r queued h = h
after_routing-IsBounded id m r (not_routable e) h = push-IsBounded _ m h
after_routing-IsBounded id m r not_found h = push-IsBounded _ m h
after_routing-IsBounded id m r busy h = push-IsBounded _ m h

read-IsBounded :
    (unmarshal : String → String → Option String) (exec_ok : Bool) (now : ℤ) (msg : Inbound)
    (s : Session)
    → IsBounded s.manager
    → IsBounded (read unmarshal exec_ok now msg s).manager
unfolding read handle_inbound ack_delivered
read-IsBounded unmarshal exec_ok now malformed s h = h
read-IsBounded unmarshal exec_ok now (sms_delivered_ack id) s h = record {
  few_events = h.few_events;
  few_ids = let fewer = length-delete_id id s.manager.pending in let old = h.few_ids in omega arith;
}
read-IsBounded unmarshal exec_ok now (task t) s h =
    let (r, answer) = dispatch unmarshal t s.router in
    after_routing-IsBounded t.message_id s.manager r answer h
read-IsBounded unmarshal exec_ok now (unknown_type name) s h = h

cancelled_if_dead-IsBounded :
    (s : Session) → IsBounded s.manager → IsBounded (cancelled_if_dead s).manager
unfolding cancelled_if_dead
cancelled_if_dead-IsBounded s h = elim (Bool-cases s.live) [
  | inl alive ↦ simp alive h
  | inr dead ↦ simp dead h
]

write_event-IsBounded :
    (write_ok : Bool) (s : Session) (events : List Event)
    → length events ≤ outbox_size
    → IsBounded s.manager
    → IsBounded (write_event write_ok s events).manager
unfolding write_event
write_event-IsBounded write_ok s [] few h = h
write_event-IsBounded true s (e ∷ events) few h = record {
  few_events = omega arith;
  few_ids = h.few_ids;
}
write_event-IsBounded false s (e ∷ events) few h = record {
  few_events = omega arith;
  few_ids = h.few_ids;
}

length-next_row :
    (gateway_id : List ℕ) (write_ok : Bool) (f : Flush) (ids : List ℕ) (rows : List SmsRecord)
    → (next_row gateway_id write_ok f ids rows).0 ≡ ids
unfolding next_row
length-next_row gateway_id write_ok f ids [] = refl
length-next_row gateway_id write_ok f ids (r ∷ rows) = ground arith

length-go_phase :
    (gateway_id : List ℕ) (write_ok : Bool) (f : Flush) (ids : List ℕ) (phase : Phase)
    → length ids ≤ max_pending_acks
    → length (go_phase gateway_id write_ok f ids phase).0 ≤ max_pending_acks
unfolding go_phase put_id
length-go_phase gateway_id write_ok f ids at_row h =
    rw (length-next_row gateway_id write_ok f ids f.left) h
length-go_phase gateway_id write_ok f ids (wrote id) h = ground (arith, length-delete_id id ids)
length-go_phase gateway_id write_ok f ids (waits id closed) h = h

go_flush-IsBounded :
    (gateway_id : List ℕ) (write_ok : Bool) (s : Session) (flush : Option Flush)
    → IsBounded s.manager
    → IsBounded (go_flush gateway_id write_ok s flush).manager
unfolding go_flush
go_flush-IsBounded gateway_id write_ok s none h = h
go_flush-IsBounded gateway_id write_ok s (some f) h = record {
  few_events = h.few_events;
  few_ids = length-go_phase gateway_id write_ok f s.manager.pending f.phase h.few_ids;
}

length-expire :
    (f : Flush) (ids : List ℕ) (phase : Phase) → length (expire f ids phase).0 ≤ length ids
unfolding expire
length-expire f ids at_row = omega arith
length-expire f ids (wrote id) = omega arith
length-expire f ids (waits id closed) = length-delete_id id ids

expire_flush-IsBounded :
    (s : Session) (flush : Option Flush)
    → IsBounded s.manager
    → IsBounded (expire_flush s flush).manager
unfolding expire_flush
expire_flush-IsBounded s none h = h
expire_flush-IsBounded s (some f) h = record {
  few_events = h.few_events;
  few_ids =
      let fewer = length-expire f s.manager.pending f.phase in let old = h.few_ids in omega arith;
}

beat-IsBounded :
    (count_ok write_ok : Bool) (s : Session)
    → IsBounded s.manager
    → IsBounded (beat count_ok write_ok s).manager
unfolding beat
beat-IsBounded true true s h = h
beat-IsBounded true false s h = h
beat-IsBounded false write_ok s h = h

start_session-IsBounded :
    (exec_ok affected_ok : Bool) (cutoff : ℤ) (hello_ok : Bool) (s : Session)
    → IsBounded s.manager
    → IsBounded (start_session exec_ok affected_ok cutoff hello_ok s).manager
unfolding start_session
start_session-IsBounded exec_ok affected_ok cutoff true s h = record {
  few_events = h.few_events;
  few_ids = h.few_ids;
}
start_session-IsBounded exec_ok affected_ok cutoff false s h = record {
  few_events = h.few_events;
  few_ids = h.few_ids;
}

module _ (gateway_id : List ℕ) (unmarshal : String → String → Option String) where
  act-IsBounded :
      (a : Action) (s : Session)
      → IsBounded s.manager
      → IsBounded (act gateway_id unmarshal a s).manager
  unfolding act
  act-IsBounded (starts exec_ok affected_ok cutoff hello_ok) s h =
      start_session-IsBounded exec_ok affected_ok cutoff hello_ok s h
  act-IsBounded (writes_event write_ok) s h =
      cancelled_if_dead-IsBounded (write_event write_ok s s.manager.outbox)
        (write_event-IsBounded write_ok s s.manager.outbox h.few_events h)
  act-IsBounded (pings true) s h = h
  act-IsBounded (pings false) s h = h
  act-IsBounded (beats count_ok write_ok) s h =
      cancelled_if_dead-IsBounded (beat count_ok write_ok s) (beat-IsBounded count_ok write_ok s h)
  act-IsBounded (reads exec_ok now msg) s h = read-IsBounded unmarshal exec_ok now msg s h
  act-IsBounded read_fails s h = h
  act-IsBounded (flush_begins query_ok) s h = h
  act-IsBounded (flush_goes write_ok) s h = go_flush-IsBounded gateway_id write_ok s s.flush h
  act-IsBounded flush_expires s h = expire_flush-IsBounded s s.flush h
  act-IsBounded flush_stops s h = h
  act-IsBounded drains s h = record { few_events = h.few_events; few_ids = omega arith }
  act-IsBounded (inserts_row fault row now) s h = record {
    few_events = h.few_events;
    few_ids = h.few_ids;
  }
  act-IsBounded (pushes e) s h = push-IsBounded e s.manager h
  act-IsBounded (purges_rows exec_ok affected_ok cutoff) s h = record {
    few_events = h.few_events;
    few_ids = h.few_ids;
  }

  -- In every order of the steps of workers, writer, reader, flush and sessions, the outbox never has more
  -- than 256 events, and the map of pending acknowledgements never more than 1000 ids.
  pub run-IsBounded :
      (actions : List Action) (s : Session)
      → IsBounded s.manager
      → IsBounded (run gateway_id unmarshal actions s).manager
  unfolding run
  run-IsBounded [] s h = h
  run-IsBounded (a ∷ actions) s h =
      run-IsBounded actions (act gateway_id unmarshal a s) (act-IsBounded a s h)
