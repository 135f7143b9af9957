-- ===== src/Router.antt =====
-- The way of a task to its worker (internal/router/router.go: Dispatch, extractICCID;
-- internal/modem/registry.go: Register, Deregister, Lookup, Dispatch, TotalQueueDepth). A worker is its
-- task channel, a queue with a capacity. The callbacks that the router adds to a task are left out.
-- json.Unmarshal is a parameter: the iccid field of a payload for an action, if it parses.
pub mod Queues
mod Tests
use Prim.Native.String.{String}
use text.Mathlib.Text.{◌==◌ as str_eq}
use sms_gate.Prelude.{
  ℕ, ◌+◌, Bool, ◌||◌, Option, none, some, List, [], ◌∷◌, ◌++◌, ltb, length, if◌then◌else◌,
}
use sms_gate.Prelude.Dict.{Dict, lookup, insert, delete}

pub record Task : Type 0 where
  pub message_id : String
  pub action : String
  pub payload : String

-- inboundCh: the tasks that wait in it, the oldest first.
pub record Channel : Type 0 where
  pub tasks : List Task
  pub capacity : ℕ

abbrev pub Registry : Type 0
Registry = Dict Channel

unfoldable pub deregister : String → Registry → Registry
deregister iccid r = delete iccid r

unfoldable pub register : String → Channel → Registry → Registry
register iccid w r = insert iccid w r

pub data DispatchError : Type 0 where
  modem_not_found modem_busy : DispatchError

-- The select with a default: a full channel takes nothing.
unfoldable pub dispatch_found :
    String → Task → Registry → Option Channel → Registry × Option DispatchError
dispatch_found iccid task r none = (r, some modem_not_found)
dispatch_found iccid task r (some w) =
    if ltb (length w.tasks) w.capacity
    then (insert iccid (record w { tasks = w.tasks ++ task ∷ [] }) r, none)
    else (r, some modem_busy)

unfoldable pub dispatch_to : String → Task → Registry → Registry × Option DispatchError
unfolding dispatch_found
dispatch_to iccid task r = dispatch_found iccid task r (lookup iccid r)

unfoldable pub total_queue_depth : Registry → ℕ
total_queue_depth [] = 0
total_queue_depth ((iccid, w) ∷ r) = length w.tasks + total_queue_depth r

pub data ExtractError : Type 0 where
  parse_failed iccid_required : ExtractError
  unsupported_action : String → ExtractError

pub data Extracted : Type 0 where
  iccid_of : String → Extracted
  no_iccid : ExtractError → Extracted

unfoldable pub from_payload : Option String → Extracted
from_payload none = no_iccid parse_failed
from_payload (some iccid) = if str_eq iccid "" then no_iccid iccid_required else iccid_of iccid

-- The router's state is the registry and the ICCIDs whose `TasksDropped` was incremented.
pub record Router : Type 0 where
  pub registry : Registry
  pub dropped : List String

-- What `Dispatch` returns.
pub data Answer : Type 0 where
  queued : Answer
  not_routable : ExtractError → Answer
  not_found busy : Answer

unfoldable pub answer : String → Router → Registry × Option DispatchError → Router × Answer
answer iccid r (registry, none) = (record r { registry = registry }, queued)
answer iccid r (registry, some modem_not_found) = (record r { registry = registry }, not_found)
answer iccid r (registry, some modem_busy) =
    (record r { registry = registry; dropped = r.dropped ++ iccid ∷ [] }, busy)

unfoldable pub dispatch_extracted : Task → Router → Extracted → Router × Answer
unfolding answer dispatch_to
dispatch_extracted task r (no_iccid err) = (r, not_routable err)
dispatch_extracted task r (iccid_of iccid) = answer iccid r (dispatch_to iccid task r.registry)

module _ (unmarshal : String → String → Option String) where
  -- The four cases of the switch do the same with their own payload type.
  unfoldable pub extract_iccid : Task → Extracted
  unfolding from_payload
  extract_iccid task =
      if str_eq task.action "SEND_SMS"
        || str_eq task.action "REBOOT_MODEM"
        || str_eq task.action "CHECK_SIGNAL"
        || str_eq task.action "DELETE_ALL_SMS"
      then from_payload (unmarshal task.action task.payload)
      else no_iccid (unsupported_action task.action)

  unfoldable pub dispatch : Task → Router → Router × Answer
  unfolding dispatch_extracted extract_iccid
  dispatch task r = dispatch_extracted task r (extract_iccid task)

  unfoldable pub dispatch_all : List Task → Router → Router
  dispatch_all [] r = r
  dispatch_all (task ∷ tasks) r = dispatch_all tasks (dispatch task r).0
