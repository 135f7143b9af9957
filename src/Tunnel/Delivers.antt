-- ===== src/Tunnel/Delivers.antt =====
-- A flush that the cloud acknowledges.
use Prim.Native.String.{String}
use sms_gate.Prelude.{
  ℕ, ◌≤◌, ◌≡◌, refl, sym, ap, ◌∙◌, inl, inr, true, false, Option, none, some, List, [], ◌∷◌, ◌++◌,
  ◌==◌, arith, Bool-cases,
}
use sms_gate.Prelude.Int.{ℤ}
use sms_gate.Router.{Router}
use sms_gate.Buffer.{
  SmsRecord, Buffer, is_pending, set_delivered, mark_delivered, pending_only, pending_rows,
  sort_by_id,
}
use sms_gate.Buffer.Rows.{Between, IsTable, Between-set_delivered}
use sms_gate.Buffer.Order.{sort_by_id-Between, Between-pending_only}
use sms_gate.Tunnel.{
  Event, received, TunnelState, delete_id, has_id, ack_delivered, sms_delivered_ack, handle_inbound,
}
use sms_gate.Tunnel.Flush.{
  at_row, Message, event, event_of, begin, begin_with, next_row, go_phase, put_id, wake, wake_phase,
}
use sms_gate.Tunnel.Session.{
  Session, Action, reads, flush_begins, flush_goes, read, go_flush, wake_by, act, run,
}

-- Every row is written, registered, acknowledged and seen to be; then the flush ends.
unfoldable pub acked_steps : ℤ → List SmsRecord → List Action
acked_steps now [] = flush_goes true ∷ []
acked_steps now (r ∷ rows) =
    flush_goes true
    ∷ flush_goes true
    ∷ reads true now (sms_delivered_ack r.id)
    ∷ flush_goes true
    ∷ acked_steps now rows

unfoldable pub messages_of : List ℕ → List SmsRecord → List Message
messages_of gateway_id [] = []
messages_of gateway_id (r ∷ rows) =
    event (received (event_of gateway_id r)) ∷ messages_of gateway_id rows

-- Marking an id leaves rows with greater ids.
set_delivered-Between :
    (id : ℕ) (now : ℤ) (low : ℕ) (rows : List SmsRecord) (high : ℕ)
    → id ≤ low
    → Between low rows high
    → set_delivered id now rows ≡ rows
unfolding set_delivered Between
set_delivered-Between id now low [] high le between = refl
set_delivered-Between id now low (r ∷ rows) high le (above, between) =
    let miss : (r.id == id) ≡ false = ground arith in
    rw (miss, set_delivered-Between id now r.id rows high (omega arith) between) refl

-- Marking the first pending row leaves the others pending.
pending_only-set_delivered :
    (now : ℤ) (low : ℕ) (rows : List SmsRecord) (high : ℕ) (r : SmsRecord) (rest : List SmsRecord)
    → Between low rows high
    → pending_only rows ≡ r ∷ rest
    → pending_only (set_delivered r.id now rows) ≡ rest
unfolding set_delivered Between pending_only is_pending
pending_only-set_delivered now low [] high r rest between e = absurd (ground arith)
pending_only-set_delivered now low (x ∷ rows) high r rest (above, between) e =
    elim (Bool-cases (is_pending x.status)) [
      | inl wait ↦
          let same : x ≡ r = ground (arith, rw wait at e) in
          let others : pending_only rows ≡ rest = ground (arith, rw wait at e) in
          let same_id : x.id ≡ r.id = ap (λ q. q.id) same in
          let hit : (x.id == r.id) ≡ true = ground arith in
          rw (hit, set_delivered-Between r.id now x.id rows high (omega arith) between) others
      | inr sent ↦
          let later = pending_only-set_delivered now x.id rows high r rest between (rw sent at e) in
          elim (Bool-cases (x.id == r.id)) [
            | inl hit ↦ rw hit later
            | inr miss ↦ rw (miss, sent) later
          ]
    ]

-- A session with nothing pending whose flush is at these rows.
abbrev pub flushing :
    TunnelState → ℕ → List Event → Buffer → Router → List SmsRecord → List Message → Session
flushing state attempt outbox buffer router rows written = record {
  manager = record {
    state = state;
    attempt = attempt;
    outbox = outbox;
    pending = [];
    buffer = buffer;
  };
  router = router;
  flush = some (record { left = rows; phase = at_row; live = true });
  written = written;
  live = true;
}

-- The flush is over, nothing is pending, and these messages have been written.
pub record IsDelivered (messages : List Message) (s : Session) : Type 0 where
  pub nothing_waits : pending_rows s.manager.buffer ≡ []
  pub all_written : s.written ≡ messages
  pub returned : s.flush ≡ none

append_assoc : (xs ys zs : List Message) → (xs ++ ys) ++ zs ≡ xs ++ (ys ++ zs)
append_assoc [] ys zs = refl
append_assoc (x ∷ xs) ys zs = ap (◌∷◌ x) (append_assoc xs ys zs)

append-nil : (xs : List Message) → xs ++ [] ≡ xs
append-nil [] = refl
append-nil (x ∷ xs) = ap (◌∷◌ x) (append-nil xs)

pending_rows_lem : (b : Buffer) → IsTable b → pending_rows b ≡ pending_only b.rows
unfolding pending_rows
pending_rows_lem b table =
    sort_by_id-Between 0 (pending_only b.rows) b.last_id
      (Between-pending_only 0 b.rows b.last_id table.ascending)

module _ (gateway_id : List ℕ) (unmarshal : String → String → Option String) where
  -- One row is written, registered, acknowledged and seen to be.
  run_row :
      (now : ℤ) (r : SmsRecord) (rows : List SmsRecord) (state : TunnelState) (attempt : ℕ)
      (outbox : List Event) (buffer : Buffer) (router : Router) (written : List Message)
      → act gateway_id unmarshal (flush_goes true) (
          act gateway_id unmarshal (reads true now (sms_delivered_ack r.id)) (
            act gateway_id unmarshal (flush_goes true) (
              act gateway_id unmarshal
                (flush_goes true)
                (flushing state attempt outbox buffer router (r ∷ rows) written))))
        ≡ flushing state attempt outbox
            (mark_delivered true r.id now buffer).0
            router
            rows
            (written ++ event (received (event_of gateway_id r)) ∷ [])
  unfolding act go_flush go_phase next_row read handle_inbound ack_delivered wake_by wake wake_phase
      mark_delivered put_id delete_id has_id
  run_row now r rows state attempt outbox buffer router written =
      let hit : (r.id == r.id) ≡ true = ground arith in
      let first = event (received (event_of gateway_id r)) in
      rw hit (
        ap
          (λ w. flushing state attempt outbox (mark_delivered true r.id now buffer).0 router rows w)
          (append-nil ((written ++ first ∷ []) ++ []) ∙ append-nil (written ++ first ∷ [])))

  change-IsDelivered :
      {messages messages' : List Message} (actions : List Action) {s s' : Session}
      → s ≡ s'
      → messages ≡ messages'
      → IsDelivered messages (run gateway_id unmarshal actions s')
      → IsDelivered messages' (run gateway_id unmarshal actions s)
  change-IsDelivered actions e e' h = rw (e, sym e') h

  run-acked_steps :
      (now : ℤ) (rows : List SmsRecord) (state : TunnelState) (attempt : ℕ) (outbox : List Event)
      (buffer : Buffer) (router : Router) (written : List Message)
      → Between 0 buffer.rows buffer.last_id
      → pending_only buffer.rows ≡ rows
      → IsDelivered (written ++ messages_of gateway_id rows) (
          run gateway_id unmarshal
            (acked_steps now rows)
            (flushing state attempt outbox buffer router rows written))
  unfolding acked_steps messages_of run pending_rows sort_by_id mark_delivered
  run-acked_steps now [] state attempt outbox buffer router written between e = record {
    nothing_waits = rw e refl;
    all_written = refl;
    returned = refl;
  }
  run-acked_steps now (r ∷ rows) state attempt outbox buffer router written between e =
      let first = event (received (event_of gateway_id r)) in
      let rest = pending_only-set_delivered now 0 buffer.rows buffer.last_id r rows between e in
      let later =
        run-acked_steps now rows state attempt outbox (mark_delivered true r.id now buffer).0 router
          (written ++ first ∷ [])
          (Between-set_delivered r.id now 0 buffer.rows buffer.last_id between) rest in
      let row = run_row now r rows state attempt outbox buffer router written in
      let assoc = append_assoc written (first ∷ []) (messages_of gateway_id rows) in
      change-IsDelivered (acked_steps now rows) row assoc later

  begin-IsDelivered :
      (now : ℤ) (rows : List SmsRecord) (state : TunnelState) (attempt : ℕ) (outbox : List Event)
      (buffer : Buffer) (router : Router) (written : List Message)
      → Between 0 buffer.rows buffer.last_id
      → pending_only buffer.rows ≡ rows
      → IsDelivered (written ++ messages_of gateway_id rows) (
          run gateway_id unmarshal
            (acked_steps now rows)
            (record (flushing state attempt outbox buffer router rows written) {
              flush = begin_with true rows;
            }))
  unfolding begin_with acked_steps messages_of run act go_flush pending_rows sort_by_id
  begin-IsDelivered now [] state attempt outbox buffer router written between e = record {
    nothing_waits = rw e refl;
    all_written = sym (append-nil written);
    returned = refl;
  }
  begin-IsDelivered now (r ∷ rows) state attempt outbox buffer router written between e =
      run-acked_steps now (r ∷ rows) state attempt outbox buffer router written between e

  -- A flush begins when no other runs and no acknowledgement is pending. If then nothing else happens
  -- than that each pending row is written and registered without a failure and acknowledged by the cloud
  -- before the next one, then exactly the pending rows of a well-formed table are written, in the order of
  -- their insertion; at the end none is pending and the flush has returned.
  pub run-IsDelivered :
      (now : ℤ) (state : TunnelState) (attempt : ℕ) (outbox : List Event) (buffer : Buffer)
      (router : Router) (written : List Message)
      → IsTable buffer
      → IsDelivered (written ++ messages_of gateway_id (pending_only buffer.rows)) (
          run gateway_id unmarshal
            (flush_begins true ∷ acked_steps now (pending_only buffer.rows))
            (record (flushing state attempt outbox buffer router [] written) { flush = none }))
  unfolding run act begin
  run-IsDelivered now state attempt outbox buffer router written table =
      let at = flushing state attempt outbox buffer router [] written in
      change-IsDelivered (acked_steps now (pending_only buffer.rows))
        (ap (λ rows. record at { flush = begin_with true rows }) (pending_rows_lem buffer table))
        refl
        (begin-IsDelivered now (pending_only buffer.rows) state attempt outbox buffer router written
          table.ascending refl)
