-- ===== src/Router/Tests.antt =====
-- Runs of the router, and the theorem at a concrete input.
use Prim.Native.String.{String}
use text.Mathlib.Text.{◌==◌ as str_eq}
use sms_gate.Prelude.{
  ◌≡◌, refl, Option, none, some, List, [], ◌∷◌, ◌++◌, take, arith, if◌then◌else◌,
}
use sms_gate.Prelude.Dict.{lookup, insert, delete}
use sms_gate.Router.{
  Task, Router, not_routable, not_found, busy, iccid_required, dispatch, dispatch_all,
  total_queue_depth, deregister,
}
use sms_gate.Router.Queues.{tasks_for, lookup-dispatch_all}

-- The payloads here are the ICCID itself.
abbrev unmarshal : String → String → Option String
unmarshal action payload = if str_eq payload "?" then none else some payload

abbrev send : String → String → Task
send id iccid = record { message_id = id; action = "SEND_SMS"; payload = iccid }

abbrev router : Router
router = record {
  registry = ("89", record { tasks = send "0" "89" ∷ []; capacity = 2 }) ∷ [];
  dropped = [];
}

full : (dispatch unmarshal (send "2" "89") (dispatch unmarshal (send "1" "89") router).0).1 ≡ busy
unfolding dispatch lookup insert
full = refl

counted :
    (dispatch unmarshal (send "2" "89") (dispatch unmarshal (send "1" "89") router).0).0.dropped
    ≡ "89" ∷ []
unfolding dispatch lookup insert
counted = refl

unknown : (dispatch unmarshal (send "1" "90") router).1 ≡ not_found
unfolding dispatch lookup
unknown = refl

nameless : (dispatch unmarshal (send "1" "") router).1 ≡ not_routable iccid_required
unfolding dispatch
nameless = refl

gone : total_queue_depth (deregister "89" router.registry) ≡ 0
unfolding total_queue_depth deregister delete
gone = refl

abbrev three_tasks : List Task
three_tasks = send "1" "90" ∷ send "2" "89" ∷ send "3" "89" ∷ []

lookup-dispatch_all_example :
    lookup "89" (dispatch_all unmarshal three_tasks router).registry
    ≡ some (record {
      tasks = take 2 (send "0" "89" ∷ [] ++ tasks_for unmarshal "89" three_tasks);
      capacity = 2;
    })
unfolding lookup
lookup-dispatch_all_example =
    lookup-dispatch_all unmarshal "89" three_tasks router
      (record { tasks = send "0" "89" ∷ []; capacity = 2 }) refl (omega arith)
