-- ===== src/Config/Tests.antt =====
-- Runs on a small configuration, and the theorems at concrete inputs.
use sms_gate.Prelude.Strings.{has_prefix}
use sms_gate.Prelude.{◌≡◌, refl, Option, none, some, [], ◌∷◌, if◌then◌else◌}
use sms_gate.Prelude.Int.{pos}
use sms_gate.Prelude.Text.{codes, eq_bytes}
use sms_gate.Config.{
  Text, Environment, expand_env, ModemConfig, GatewayConfig, defaults, apply_env_overrides, loaded,
  unset_variable, load,
}
use sms_gate.Config.Usable.{IsUsable, load-IsUsable}

abbrev secrets : Environment
secrets name = if eq_bytes name (codes "TOKEN") then some (codes "a$b") else none

no_name : (expand_env secrets (codes "${}$${TOKEN}")).text ≡ codes "${}$a$b"
unfolding expand_env eq_bytes
no_name = refl

abbrev modem : ModemConfig
modem = record {
  port = codes "/dev/ttyUSB0";
  baud = pos 0;
  rate_limit = record { per_min = pos 0; per_hour = pos 0; per_day = pos 5 };
  expected_iccid = [];
}

abbrev small : GatewayConfig
small = record {
  gateway = record { id = codes "gw"; log_level = codes "INFO"; log_format = [] };
  tunnel = record {
    url = codes "wss://cloud";
    token = codes "t";
    ping_interval_s = pos 0;
    ping_timeout_s = pos 0;
    heartbeat_interval_s = pos 0;
    ack_timeout_s = pos 0;
    reconnect_base_s = pos 0;
    reconnect_max_s = pos 0;
    handshake_timeout_s = pos 0;
  };
  buffer = record { db_path = []; retention_days = pos 0; flush_interval_m = pos 0 };
  modems = modem ∷ [];
  health = record {
    keepalive_interval_s = pos 0;
    sim_capacity_warn_pct = pos 0;
    sim_capacity_purge_pct = pos 0;
    signal_poll_interval_s = pos 0;
  };
  metrics = [];
}

abbrev decode : Text → Option GatewayConfig
decode s = some small

small_loads :
    load decode secrets (codes "x") ≡ loaded (apply_env_overrides secrets (defaults small))
unfolding load eq_bytes has_prefix
small_loads = refl

unset : load decode secrets (codes "${NONE}") ≡ unset_variable (codes "NONE")
unfolding load eq_bytes
unset = refl

load-IsUsable_example : IsUsable (apply_env_overrides secrets (defaults small))
load-IsUsable_example =
    load-IsUsable decode secrets (codes "x") (apply_env_overrides secrets (defaults small))
      small_loads
