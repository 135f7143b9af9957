-- ===== src/Gateway/Tests.antt =====
-- Runs of the endpoints, and the theorems at concrete inputs.
use Prim.Native.String.{String}
use sms_gate.Prelude.{◌+◌, ◌≡◌, refl, true, false, Option, some, [], ◌∷◌, length}
use sms_gate.Prelude.Int.{pos}
use sms_gate.Prelude.Dict.{lookup, insert}
use sms_gate.Modem.{State}
use sms_gate.Tunnel.{connected, backing_off}
use sms_gate.Gateway.{
  Worker, Registry, HealthResponse, BuildMeta, health_handler, modem_reset_handler, modem_statuses,
  pool_counts, reg_status_string, tunnel_state_string,
}
use sms_gate.Gateway.Reset.{IsReset, modem_reset_handler-IsReset}
use sms_gate.Gateway.Counts.{named, pool_counts-modem_statuses}

abbrev worker : String → State → Worker
worker iccid state = record {
  iccid = iccid;
  port = "/dev/ttyUSB0";
  state = state;
  imsi = "262";
  operator = "op";
  signal_rssi = pos 20;
  reg_stat = 1;
  sent_1h = 0;
  recv_1h = 0;
  last_activity_ns = 0;
  reset_pending = false;
}

abbrev two : Registry
two = ("A", worker "A" State.executing) ∷ ("B", worker "B" State.banned) ∷ []

abbrev build : BuildMeta
build = record { commit = "c"; build_time = "t"; go_version = "go" }

abbrev health_json : HealthResponse → Option String
health_json h = some h.status

health_runs :
    (health_handler health_json "GET" connected build "1s" ≡ record { code = 200; body = "ok" })
    × (health_handler health_json "GET" backing_off build "1s"
        ≡ record { code = 503; body = "degraded" })
    × ((health_handler health_json "POST" connected build "1s").code ≡ 405)
unfolding health_handler
health_runs = (refl, refl, refl)

reset_runs :
    (lookup "B" (modem_reset_handler "POST" "B" two).0
      ≡ some (record (worker "B" State.banned) { reset_pending = true }))
    × ((modem_reset_handler "POST" "C" two).1.code ≡ 404)
    × ((modem_reset_handler "GET" "B" two).1.code ≡ 405)
unfolding modem_reset_handler lookup insert
reset_runs = (refl, refl, refl)

names :
    (reg_status_string 5 ≡ "REGISTERED_ROAMING") × (tunnel_state_string backing_off ≡ "BACKING_OFF")
unfolding reg_status_string tunnel_state_string
names = (refl, refl)

modem_reset_handler-IsReset_example : IsReset "POST" "B" two (modem_reset_handler "POST" "B" two)
modem_reset_handler-IsReset_example = modem_reset_handler-IsReset "POST" "B" two

pool_of_two :
    ((pool_counts two).total ≡ length (modem_statuses two))
    × ((pool_counts two).active
        ≡ named "ACTIVE" (modem_statuses two) + named "EXECUTING" (modem_statuses two))
    × ((pool_counts two).banned ≡ named "BANNED" (modem_statuses two))
pool_of_two = pool_counts-modem_statuses two
