-- ===== src/Tunnel/Routed.antt =====
-- What the cloud is told of a task that cannot be routed (handleInbound, makeErrorAck).
use Prim.Native.String.{String}
use sms_gate.Prelude.{
  ◌<◌, ◌≡◌, ◌≢◌, refl, Bool, true, Option, some, List, [], ◌∷◌, ◌++◌, ltb, length, arith,
}
use sms_gate.Prelude.Int.{ℤ}
use sms_gate.Router.{Task, Router, Answer, queued, not_routable, not_found, busy, dispatch}
use sms_gate.Tunnel.{
  Event, task_ack, Manager, outbox_size, push, failed, modem_not_found, make_error_ack, task,
  after_routing, handle_inbound,
}

-- The outbox after a task against the router's answer: nothing is told of a task that is queued. An error
-- is told at the end, with the task's id, and always as MODEM_NOT_FOUND.
pub data Told (t : Task) (before after : List Event) : Answer → Type 0 where
  silent : after ≡ before → Told t before after queued
  error :
      (err : Answer)
      → err ≢ queued
      → after
        ≡ before
          ++ task_ack (record {
            message_id = t.message_id;
            status = failed;
            error = some (record { code = modem_not_found; message = err });
          })
            ∷ []
      → Told t before after err

outbox-push :
    (e : Event) (m : Manager)
    → length m.outbox < outbox_size
    → (push e m).outbox ≡ m.outbox ++ e ∷ []
unfolding push
outbox-push e m room =
    let fits : ltb (length m.outbox) outbox_size ≡ true = ground arith in rw fits refl

after_routing-Told :
    (t : Task) (m : Manager) (r : Router) (answer : Answer)
    → length m.outbox < outbox_size
    → Told t m.outbox (after_routing t.message_id m (r, answer)).0.outbox answer
unfolding after_routing make_error_ack
after_routing-Told t m r queued room = silent refl
after_routing-Told t m r (not_routable e) room =
    error (not_routable e) (λ h. cc) (outbox-push _ m room)
after_routing-Told t m r not_found room = error not_found (λ h. cc) (outbox-push _ m room)
after_routing-Told t m r busy room = error busy (λ h. cc) (outbox-push _ m room)

-- With room in the outbox, the cloud is told of an inbound task exactly when the router has not queued it:
-- one FAILED acknowledgement with the task's id. Its code is MODEM_NOT_FOUND for every error, a busy modem
-- included.
pub handle_inbound-Told :
    (unmarshal : String → String → Option String) (exec_ok : Bool) (now : ℤ) (t : Task)
    (m : Manager) (r : Router)
    → length m.outbox < outbox_size
    → Told t m.outbox
        (handle_inbound unmarshal exec_ok now (task t) m r).0.outbox
        (dispatch unmarshal t r).1
unfolding handle_inbound
handle_inbound-Told unmarshal exec_ok now t m r room =
    let (r', answer) = dispatch unmarshal t r in after_routing-Told t m r' answer room
