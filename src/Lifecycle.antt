-- ===== src/Lifecycle.antt =====
-- The life of a worker (internal/modem/worker.go: runInitSequence, executeTask, doRebootModem, doDeleteAllSMS,
-- drainInboundCh, retryN and the loop of Run): which tasks are acknowledged. `W` is the state of the
-- modem and of the rest of the worker; SEND_SMS and CHECK_SIGNAL are functions on it, whose code is in
-- Tasks and Modem. What a command returns is an answer. json.Unmarshal is a parameter.
pub mod Acks
pub mod Init
pub mod Open
mod Tests
use Prim.Native.String.{String}
use text.Mathlib.Text.{◌==◌ as str_eq}
use sms_gate.Prelude.{
  ℕ, Bool, true, false, Option, none, some, List, [], ◌∷◌, ◌++◌, ltb, length, if◌then◌else◌,
}
use sms_gate.Router.{Task}
use sms_gate.Tunnel.{
  ErrorCode, modem_unresponsive, invalid_payload, send_failed, unsupported_action,
}

-- A TaskAckEvent: SUCCESS without an error, else FAILED.
pub record Ack : Type 0 where
  pub message_id : String
  pub error : Option ErrorCode

-- The commands of the serializer that these tasks use, and the two other tasks.
pub record Modem (W : Type 0) : Type 0 where
  pub hard_reset : W → W × Bool
  pub radio_off : W → W × Bool
  pub radio_on : W → W × Bool
  pub delete_all_sms : W → W × Bool
  pub send_sms : Task → W → W × Option ErrorCode
  pub check_signal : W → W × Option ErrorCode

-- A command that must succeed, with the error if it does not.
unfoldable pub must : {W : Type 0} → ErrorCode → W × Bool → W × Option ErrorCode
must code (w, true) = (w, none)
must code (w, false) = (w, some code)

unfoldable pub and_must :
    {W : Type 0} → W × Option ErrorCode → (W → W × Option ErrorCode) → W × Option ErrorCode
and_must (w, some code) next = (w, some code)
and_must (w, none) next = next w

-- One turn of the loop of Run: the router puts a task into the channel, if it has room; a task is taken;
-- another case of the select changes the state.
pub data Turn (W : Type 0) : Type 0 where
  dispatches : Task → Turn W
  takes_task : Turn W
  handles : (W → W) → Turn W

-- The worker: its channel, the acknowledgements sent, and the ids of the tasks that the channel has taken.
pub record Worker (W : Type 0) : Type 0 where
  pub world : W
  pub inbound : List Task
  pub acks : List Ack
  pub accepted : List String

-- The end of Run: at the end of its context, or in a terminal state.
pub data Exit : Type 0 where
  shut_down terminated : Exit

module _ {W : Type 0} (modem : Modem W) (unmarshal : String → Option Bool) where
  -- The payload's field `hard`.
  unfoldable pub reboot_with : W → Option Bool → W × Option ErrorCode
  unfolding must and_must
  reboot_with w none = (w, some invalid_payload)
  reboot_with w (some true) = must modem_unresponsive (modem.hard_reset w)
  reboot_with w (some false) =
      and_must (must modem_unresponsive (modem.radio_off w))
        (λ w'. must modem_unresponsive (modem.radio_on w'))

  unfoldable pub do_reboot_modem : Task → W → W × Option ErrorCode
  unfolding reboot_with
  do_reboot_modem task w = reboot_with w (unmarshal task.payload)

  unfoldable pub do_delete_all_sms : W → W × Option ErrorCode
  unfolding must
  do_delete_all_sms w = must send_failed (modem.delete_all_sms w)

  -- The switch of executeTask.
  unfoldable pub perform : Task → W → W × Option ErrorCode
  unfolding do_reboot_modem do_delete_all_sms
  perform task w =
      if str_eq task.action "SEND_SMS"
      then modem.send_sms task w
      else (if str_eq task.action "REBOOT_MODEM"
          then do_reboot_modem task w
          else (if str_eq task.action "CHECK_SIGNAL"
              then modem.check_signal w
              else (if str_eq task.action "DELETE_ALL_SMS"
                  then do_delete_all_sms w
                  else (w, some unsupported_action))))

  -- executeTask, without the states it stores (Modem has them).
  unfoldable pub execute : Task → Worker W → Worker W
  unfolding perform
  execute task v =
      let (w, error) = perform task v.world in
      record v {
        world = w;
        acks = v.acks ++ record { message_id = task.message_id; error = error } ∷ [];
      }

  unfoldable pub take : Worker W → List Task → Worker W
  unfolding execute
  take v [] = v
  take v (task ∷ inbound) = execute task (record v { inbound = inbound })

  -- Each task that is left is refused, so that the cloud may try again.
  unfoldable pub nacks : List Task → List Ack
  nacks [] = []
  nacks (task ∷ inbound) =
      record { message_id = task.message_id; error = some modem_unresponsive } ∷ nacks inbound

  unfoldable pub drain_inbound : Worker W → Worker W
  unfolding nacks
  drain_inbound v = record v { inbound = []; acks = v.acks ++ nacks v.inbound }

  module _ (capacity : ℕ) (terminal : W → Bool) where
    unfoldable pub turn : Turn W → Worker W → Worker W
    unfolding take
    turn (dispatches task) v =
        if ltb (length v.inbound) capacity
        then record v {
          inbound = v.inbound ++ task ∷ [];
          accepted = v.accepted ++ task.message_id ∷ [];
        }
        else v
    turn takes_task v = take v v.inbound
    turn (handles f) v = record v { world = f v.world }

    -- The loop; at the end of the turns the context is done.
    unfoldable pub run : List (Turn W) → Worker W → Worker W × Exit
    unfolding turn drain_inbound
    run [] v = (drain_inbound v, shut_down)
    run (t ∷ turns) v =
        let v' = turn t v in
        let rest = run turns v' in if terminal v'.world then (v', terminated) else rest
