-- ===== src/Tunnel/Kept.antt =====
-- Only an acknowledgement ends the wait of a message.
use Prim.Native.String.{String}
use sms_gate.Prelude.{
  All, ℕ, ◌≡◌, refl, Bool, true, false, Option, List, [], ◌∷◌, ◌++◌, ◌==◌, if◌then◌else◌,
}
use sms_gate.Prelude.Int.{ℤ}
use sms_gate.Worker.{Row}
use sms_gate.Buffer.{
  Buffer, mark_delivered, purge, insert, pending_rows, Op, inserts, marks, purges,
}
use sms_gate.Buffer as Table
use sms_gate.Buffer.Rows.{IsTable}
use sms_gate.Buffer.Keeps.{Waits, leaves, Waits-run, Waits-pending_only}
use sms_gate.Buffer.Order.{pending_rows-run}
use sms_gate.Tunnel.{Inbound, malformed, sms_delivered_ack, task, unknown_type}
use sms_gate.Tunnel.Session.{
  Session, Action, starts, writes_event, pings, beats, reads, read_fails, flush_begins, flush_goes,
  flush_expires, flush_stops, drains, inserts_row, pushes, purges_rows, run,
}
use sms_gate.Tunnel.Client.{ops_of_message, ops_of, all_ops, buffer-run}

-- No acknowledgement of this id is read.
abbrev pub not_acked_by : ℕ → Inbound → Bool
not_acked_by id malformed = true
not_acked_by id (sms_delivered_ack id') = if id' == id then false else true
not_acked_by id (task t) = true
not_acked_by id (unknown_type name) = true

unfoldable pub not_acked : ℕ → Action → Bool
not_acked id (starts exec_ok affected_ok cutoff hello_ok) = true
not_acked id (writes_event write_ok) = true
not_acked id (pings ok) = true
not_acked id (beats count_ok write_ok) = true
not_acked id (reads exec_ok now msg) = not_acked_by id msg
not_acked id read_fails = true
not_acked id (flush_begins query_ok) = true
not_acked id (flush_goes write_ok) = true
not_acked id flush_expires = true
not_acked id flush_stops = true
not_acked id drains = true
not_acked id (inserts_row fault row now) = true
not_acked id (pushes e) = true
not_acked id (purges_rows exec_ok affected_ok cutoff) = true

message-leaves :
    (id : ℕ) (exec_ok : Bool) (now : ℤ) (msg : Inbound)
    → not_acked_by id msg ≡ true
    → All (λ o. leaves id o ≡ true) (ops_of_message exec_ok now msg)
unfolding ops_of_message leaves
message-leaves id exec_ok now malformed e = tt
message-leaves id exec_ok now (sms_delivered_ack id') e = (e, tt)
message-leaves id exec_ok now (task t) e = tt
message-leaves id exec_ok now (unknown_type name) e = tt

action-leaves :
    (id : ℕ) (a : Action) → not_acked id a ≡ true → All (λ o. leaves id o ≡ true) (ops_of a)
unfolding ops_of leaves not_acked
action-leaves id (starts exec_ok affected_ok cutoff hello_ok) e = (refl, tt)
action-leaves id (writes_event write_ok) e = tt
action-leaves id (pings ok) e = tt
action-leaves id (beats count_ok write_ok) e = tt
action-leaves id (reads exec_ok now msg) e = message-leaves id exec_ok now msg e
action-leaves id read_fails e = tt
action-leaves id (flush_begins query_ok) e = tt
action-leaves id (flush_goes write_ok) e = tt
action-leaves id flush_expires e = tt
action-leaves id flush_stops e = tt
action-leaves id drains e = tt
action-leaves id (inserts_row fault row now) e = (refl, tt)
action-leaves id (pushes event') e = tt
action-leaves id (purges_rows exec_ok affected_ok cutoff) e = (refl, tt)

All-append :
    (id : ℕ) (ops more : List Op)
    → All (λ o. leaves id o ≡ true) ops
    → All (λ o. leaves id o ≡ true) more
    → All (λ o. leaves id o ≡ true) (ops ++ more)
All-append id [] more h h' = h'
All-append id (o ∷ ops) more (e, h) h' = (e, All-append id ops more h h')

all_ops-leaves :
    (id : ℕ) (actions : List Action)
    → All (λ a. not_acked id a ≡ true) actions
    → All (λ o. leaves id o ≡ true) (all_ops actions)
unfolding all_ops
all_ops-leaves id [] h = tt
all_ops-leaves id (a ∷ actions) (e, h) =
    All-append id (ops_of a) (all_ops actions) (action-leaves id a e) (all_ops-leaves id actions h)

module _ (gateway_id : List ℕ) (unmarshal : String → String → Option String) where
  -- A message that waits in the buffer is still among the rows that the next flush reads, after any steps
  -- of the tunnel and of the workers in any order and with any failures, through any number of sessions,
  -- as long as no acknowledgement with its id is read.
  pub pending_rows-run_tunnel :
      (id : ℕ) (row : Row) (actions : List Action) (s : Session)
      → IsTable s.manager.buffer
      → Waits id row s.manager.buffer.rows
      → All (λ a. not_acked id a ≡ true) actions
      → Waits id row (pending_rows (run gateway_id unmarshal actions s).manager.buffer)
  pending_rows-run_tunnel id row actions s table w h =
      let ops = all_ops actions in
      let b = s.manager.buffer in
      rw (buffer-run gateway_id unmarshal actions s, pending_rows-run ops b table)
        (Waits-pending_only id row (Table.run ops b).rows
          (Waits-run id row ops b (all_ops-leaves id actions h) w))
