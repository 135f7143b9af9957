-- ===== src/Gateway.antt =====
-- The HTTP endpoints and the statuses of the gateway (internal/gateway/gateway.go: modemStatuses,
-- healthHandler, modemsHandler, modemResetHandler), with what they read: Snapshot and PoolCounts of
-- internal/modem/registry.go, Status and RequestReset of internal/modem/worker.go, and the names of the
-- states. json.Marshal is a parameter. A body is a text, or the record that it is the JSON of. The
-- order of Go's maps is that of the association list here, and no part of the meaning.
pub mod Reset
pub mod Counts
mod Tests
use Prim.Native.String.{String, ◌++◌ as ◌<>◌}
use text.Mathlib.Text.{◌==◌ as str_eq}
use sms_gate.Prelude.{
  ℕ, suc, ◌+◌, ◌/◌, Bool, true, false, Option, none, some, List, [], ◌∷◌, length, map, ◌==◌,
  if◌then◌else◌,
}
use sms_gate.Prelude.Int.{ℤ, pos, negsuc}
use sms_gate.Prelude.Dict.{Dict, lookup, insert}
use sms_gate.Modem.{State}
use sms_gate.Tunnel.{TunnelState, connected, disconnected, connecting, backing_off, reconnecting}

-- State.String
unfoldable pub state_string : State → String
state_string State.initializing = "INITIALIZING"
state_string State.active = "ACTIVE"
state_string State.executing = "EXECUTING"
state_string State.recovering = "RECOVERING"
state_string State.resetting = "RESETTING"
state_string State.banned = "BANNED"
state_string State.failed = "FAILED"

-- RegStatusString
unfoldable pub reg_status_string : ℕ → String
reg_status_string stat =
    if stat == 0
    then "NOT_REGISTERED"
    else if stat == 1
    then "REGISTERED_HOME"
    else if stat == 2
    then "SEARCHING"
    else if stat == 3
    then "REGISTRATION_DENIED"
    else if stat == 5
    then "REGISTERED_ROAMING"
    else "UNKNOWN"

unfoldable pub tunnel_state_string : TunnelState → String
tunnel_state_string disconnected = "DISCONNECTED"
tunnel_state_string connecting = "CONNECTING"
tunnel_state_string connected = "CONNECTED"
tunnel_state_string backing_off = "BACKING_OFF"
tunnel_state_string reconnecting = "RECONNECTING"

-- The fields of a worker that a status shows, and whether its reset channel, of capacity 1, is full.
pub record Worker : Type 0 where
  pub iccid : String
  pub port : String
  pub state : State
  pub imsi : String
  pub operator : String
  pub signal_rssi : ℤ
  pub reg_stat : ℕ
  pub sent_1h : ℕ
  pub recv_1h : ℕ
  pub last_activity_ns : ℕ
  pub reset_pending : Bool

abbrev pub Registry : Type 0
Registry = Dict Worker

pub record WorkerStatus : Type 0 where
  pub iccid : String
  pub port : String
  pub state : String
  pub imsi : String
  pub operator : String
  pub signal_rssi : ℤ
  pub reg_status : String
  pub sent_1h : ℕ
  pub recv_1h : ℕ
  pub last_activity : ℕ

unfoldable pub status : Worker → WorkerStatus
unfolding state_string reg_status_string
status w = record {
  iccid = w.iccid;
  port = w.port;
  state = state_string w.state;
  imsi = w.imsi;
  operator = w.operator;
  signal_rssi = w.signal_rssi;
  reg_status = reg_status_string w.reg_stat;
  sent_1h = w.sent_1h;
  recv_1h = w.recv_1h;
  last_activity = w.last_activity_ns / 1_000_000;
}

unfoldable pub snapshot : Registry → Dict WorkerStatus
unfolding status
snapshot [] = []
snapshot ((iccid, w) ∷ r) = (iccid, status w) ∷ snapshot r

pub record PoolCounts : Type 0 where
  pub total : ℕ
  pub active : ℕ
  pub banned : ℕ

count_state : State → PoolCounts → PoolCounts
count_state State.active c = record c { active = suc c.active }
count_state State.executing c = record c { active = suc c.active }
count_state State.banned c = record c { banned = suc c.banned }
count_state _ c = c

count_states : Registry → PoolCounts → PoolCounts
unfolding count_state
count_states [] c = c
count_states ((iccid, w) ∷ r) c = count_states r (count_state w.state c)

unfoldable pub pool_counts : Registry → PoolCounts
unfolding count_states
pool_counts r = count_states r (record { total = length r; active = 0; banned = 0 })

-- A reset that is pending takes the request in.
unfoldable pub request_reset : Worker → Worker
request_reset w = record w { reset_pending = true }

-- tunnel.ModemStatus, as modemStatuses fills it.
pub record ModemStatus : Type 0 where
  pub iccid : String
  pub port : String
  pub state : String
  pub imsi : String
  pub operator : String
  pub signal_rssi : ℤ
  pub reg_status : String
  pub sent_1h : ℕ
  pub recv_1h : ℕ

modem_status : WorkerStatus → ModemStatus
modem_status s = record {
  iccid = s.iccid;
  port = s.port;
  state = s.state;
  imsi = s.imsi;
  operator = s.operator;
  signal_rssi = s.signal_rssi;
  reg_status = s.reg_status;
  sent_1h = s.sent_1h;
  recv_1h = s.recv_1h;
}

statuses_of : Dict WorkerStatus → List WorkerStatus
statuses_of [] = []
statuses_of ((iccid, s) ∷ dict) = s ∷ statuses_of dict

unfoldable pub modem_statuses : Registry → List ModemStatus
unfolding modem_status statuses_of snapshot
modem_statuses r = map modem_status (statuses_of (snapshot r))

pub record BuildMeta : Type 0 where
  pub commit : String
  pub build_time : String
  pub go_version : String

pub record HealthResponse : Type 0 where
  pub status : String
  pub version : String
  pub build : BuildMeta
  pub uptime : String

-- The code of the answer and its body.
pub record Response : Type 0 where
  pub code : ℕ
  pub body : String

abbrev pub agent_version : String
agent_version = "2.0.0"

abbrev pub method_not_allowed : Response
method_not_allowed = record { code = 405; body = "method not allowed" }

answer : ℕ → Option String → Response
answer code none = record { code = 500; body = "{\"error\":\"internal server error\"}" }
answer code (some body) = record { code = code; body = body }

is_connected : TunnelState → Bool
is_connected connected = true
is_connected _ = false

unfoldable pub health_handler :
    (HealthResponse → Option String) → String → TunnelState → BuildMeta → String → Response
unfolding answer is_connected
health_handler marshal method state build uptime =
    let up = is_connected state in
    let resp : HealthResponse = record {
      status = if up then "ok" else "degraded";
      version = agent_version;
      build = build;
      uptime = uptime;
    } in
    if str_eq method "GET"
    then answer (if up then 200 else 503) (marshal resp)
    else method_not_allowed

unfoldable pub modems_handler : (List WorkerStatus → Option String) → String → Registry → Response
unfolding answer statuses_of snapshot
modems_handler marshal method r =
    if str_eq method "GET"
    then answer 200 (marshal (statuses_of (snapshot r)))
    else method_not_allowed

reset_found : String → Option Worker → Registry → Registry × Response
unfolding request_reset
reset_found iccid none r = (r, record { code = 404; body = "{\"error\":\"modem not found\"}" })
reset_found iccid (some w) r = (
  insert iccid (request_reset w) r,
  record { code = 202; body = "{\"status\":\"reset requested\",\"iccid\":\"" <> (iccid <> "\"}") },
)

-- `iccid` is the query parameter, empty if it is absent.
unfoldable pub modem_reset_handler : String → String → Registry → Registry × Response
unfolding reset_found
modem_reset_handler method iccid r =
    if str_eq method "POST"
    then (if str_eq iccid ""
        then (r, record { code = 400; body = "{\"error\":\"missing iccid query parameter\"}" })
        else reset_found iccid (lookup iccid r) r)
    else (r, method_not_allowed)
