-- ===== src/Config.antt =====
-- The configuration (internal/config/config.go: expandEnv, defaults, applyEnvOverrides, validate and Load
-- around them). Text is its bytes. The YAML decoder is a parameter, the environment a function: `none` is
-- an unset variable.
pub mod Expands
pub mod Usable
mod Tests
use sms_gate.Prelude.{
  ℕ, zero, suc, ◌+◌, Bool, true, false, ◌&&◌, ◌||◌, not, Option, none, some, List, [], ◌∷◌, ◌++◌,
  map, ltb, leb, ◌==◌, length, if◌then◌else◌,
}
use sms_gate.Prelude.Int.{ℤ, pos, negsuc}
use sms_gate.Prelude.Text.{codes, eq_bytes}
use sms_gate.Prelude.Strings.{has_prefix, atoi, is_digit}

abbrev pub Text : Type 0
Text = List ℕ

abbrev pub Environment : Type 0
Environment = Text → Option Text

-- envVarRe, `\$\{([A-Z0-9_]+)\}`, as an automaton: outside a match, after `$`, after `${` and some name.
pub data Place : Type 0 where
  outside after_dollar : Place
  in_name : Text → Place

abbrev pub is_name_char : ℕ → Bool
is_name_char c = (leb b'A' c && leb c b'Z') || is_digit c || c == b'_'

-- The text so far, and the last variable that was not set.
pub record Expanded : Type 0 where
  pub text : Text
  pub unset : Option Text

abbrev pub emit : Text → Expanded → Expanded
emit s e = record e { text = s ++ e.text }

-- The name that is recorded is that of the last match.
abbrev pub or_name : Option Text → Text → Option Text
or_name none name = some name
or_name (some last) name = some last

unfoldable pub substitute : Option Text → Text → Expanded → Expanded
substitute none name e = record {
  text = (codes "${" ++ (name ++ codes "}")) ++ e.text;
  unset = or_name e.unset name;
}
substitute (some value) name e = emit value e

module _ (env : Environment) where
  unfoldable pub expand_from : Place → Text → Expanded
  unfolding substitute
  expand_from outside [] = record { text = []; unset = none }
  expand_from after_dollar [] = record { text = codes "$"; unset = none }
  expand_from (in_name name) [] = record { text = codes "${" ++ name; unset = none }
  expand_from outside (c ∷ s) =
      let here = emit (c ∷ []) (expand_from outside s) in
      let later = expand_from after_dollar s in if c == b'$' then later else here
  expand_from after_dollar (c ∷ s) =
      let plain = emit (b'$' ∷ c ∷ []) (expand_from outside s) in
      let again = emit (b'$' ∷ []) (expand_from after_dollar s) in
      let name = expand_from (in_name []) s in
      if c == b'{' then name else (if c == b'$' then again else plain)
  expand_from (in_name name) (c ∷ s) =
      let longer = expand_from (in_name (name ++ c ∷ [])) s in
      let matched = substitute (env name) name (expand_from outside s) in
      let plain = emit (codes "${" ++ (name ++ c ∷ [])) (expand_from outside s) in
      let again = emit (codes "${" ++ name) (expand_from after_dollar s) in
      if is_name_char c
      then longer
      else (if c == b'}' && ltb 0 (length name)
          then matched
          else (if c == b'$' then again else plain))

  unfoldable pub expand_env : Text → Expanded
  unfolding expand_from
  expand_env s = expand_from outside s

pub record GatewaySection : Type 0 where
  pub id : Text
  pub log_level : Text
  pub log_format : Text

pub record TunnelSection : Type 0 where
  pub url : Text
  pub token : Text
  pub ping_interval_s : ℤ
  pub ping_timeout_s : ℤ
  pub heartbeat_interval_s : ℤ
  pub ack_timeout_s : ℤ
  pub reconnect_base_s : ℤ
  pub reconnect_max_s : ℤ
  pub handshake_timeout_s : ℤ

pub record BufferSection : Type 0 where
  pub db_path : Text
  pub retention_days : ℤ
  pub flush_interval_m : ℤ

pub record RateLimit : Type 0 where
  pub per_min : ℤ
  pub per_hour : ℤ
  pub per_day : ℤ

pub record ModemConfig : Type 0 where
  pub port : Text
  pub baud : ℤ
  pub rate_limit : RateLimit
  pub expected_iccid : Text

pub record HealthSection : Type 0 where
  pub keepalive_interval_s : ℤ
  pub sim_capacity_warn_pct : ℤ
  pub sim_capacity_purge_pct : ℤ
  pub signal_poll_interval_s : ℤ

-- `metrics` is the address of that section.
pub record GatewayConfig : Type 0 where
  pub gateway : GatewaySection
  pub tunnel : TunnelSection
  pub buffer : BufferSection
  pub modems : List ModemConfig
  pub health : HealthSection
  pub metrics : Text

-- A zero value and its default.
abbrev pub int_or : ℕ → ℤ → ℤ
int_or d (pos zero) = pos d
int_or d (pos (suc n)) = pos (suc n)
int_or d (negsuc n) = negsuc n

abbrev pub text_or : Text → Text → Text
text_or d [] = d
text_or d (c ∷ s) = c ∷ s

abbrev pub modem_defaults : ModemConfig → ModemConfig
modem_defaults m = record m {
  baud = int_or 115200 m.baud;
  rate_limit = record {
    per_min = int_or 3 m.rate_limit.per_min;
    per_hour = int_or 30 m.rate_limit.per_hour;
    per_day = int_or 200 m.rate_limit.per_day;
  };
}

unfoldable pub all_modem_defaults : List ModemConfig → List ModemConfig
all_modem_defaults [] = []
all_modem_defaults (m ∷ modems) = modem_defaults m ∷ all_modem_defaults modems

unfoldable pub defaults : GatewayConfig → GatewayConfig
unfolding all_modem_defaults
defaults cfg = record {
  gateway = record cfg.gateway {
    log_level = text_or (codes "info") cfg.gateway.log_level;
    log_format = text_or (codes "text") cfg.gateway.log_format;
  };
  tunnel = record cfg.tunnel {
    ping_interval_s = int_or 30 cfg.tunnel.ping_interval_s;
    ping_timeout_s = int_or 10 cfg.tunnel.ping_timeout_s;
    heartbeat_interval_s = int_or 60 cfg.tunnel.heartbeat_interval_s;
    ack_timeout_s = int_or 10 cfg.tunnel.ack_timeout_s;
    reconnect_base_s = int_or 1 cfg.tunnel.reconnect_base_s;
    reconnect_max_s = int_or 300 cfg.tunnel.reconnect_max_s;
    handshake_timeout_s = int_or 15 cfg.tunnel.handshake_timeout_s;
  };
  buffer = record {
    db_path = text_or (codes "./sms.db") cfg.buffer.db_path;
    retention_days = int_or 7 cfg.buffer.retention_days;
    flush_interval_m = int_or 10 cfg.buffer.flush_interval_m;
  };
  modems = all_modem_defaults cfg.modems;
  health = record {
    keepalive_interval_s = int_or 60 cfg.health.keepalive_interval_s;
    sim_capacity_warn_pct = int_or 80 cfg.health.sim_capacity_warn_pct;
    sim_capacity_purge_pct = int_or 95 cfg.health.sim_capacity_purge_pct;
    signal_poll_interval_s = int_or 30 cfg.health.signal_poll_interval_s;
  };
  metrics = text_or (codes ":9200") cfg.metrics;
}

-- os.Getenv: an unset variable is the empty text, which overrides nothing.
abbrev pub getenv_or : Option Text → Text → Text
getenv_or none old = old
getenv_or (some v) old = text_or old v

abbrev pub positive_or : Option ℤ → ℤ → ℤ
positive_or none old = old
positive_or (some (pos zero)) old = old
positive_or (some (pos (suc n))) old = pos (suc n)
positive_or (some (negsuc n)) old = old

abbrev pub poll_or : Option Text → ℤ → ℤ
poll_or none old = old
poll_or (some v) old = if length v == 0 then old else positive_or (atoi v) old

unfoldable pub apply_env_overrides : Environment → GatewayConfig → GatewayConfig
apply_env_overrides env cfg = record cfg {
  gateway = record {
    id = getenv_or (env (codes "GATEWAY_ID")) cfg.gateway.id;
    log_level = getenv_or (env (codes "LOG_LEVEL")) cfg.gateway.log_level;
    log_format = getenv_or (env (codes "LOG_FORMAT")) cfg.gateway.log_format;
  };
  tunnel = record cfg.tunnel {
    url = getenv_or (env (codes "TUNNEL_URL")) cfg.tunnel.url;
    token = getenv_or (env (codes "TUNNEL_TOKEN")) cfg.tunnel.token;
  };
  metrics = getenv_or (env (codes "METRICS_ADDR")) cfg.metrics;
  health = record cfg.health {
    signal_poll_interval_s =
        poll_or (env (codes "SIGNAL_POLL_INTERVAL")) cfg.health.signal_poll_interval_s;
  };
}

-- What validate returns, `none` for no error; a modem is named by its place.
pub data Invalid : Type 0 where
  no_id bad_log_level no_url bad_url no_token no_modem : Invalid
  no_port bad_port : ℕ → Invalid

abbrev pub lower : ℕ → ℕ
lower c = if leb b'A' c && leb c b'Z' then c + 32 else c

unfoldable pub to_lower : Text → Text
to_lower [] = []
to_lower (c ∷ s) = lower c ∷ to_lower s

unfoldable pub is_log_level : Text → Bool
is_log_level s =
    eq_bytes s (codes "debug")
    || eq_bytes s (codes "info")
    || eq_bytes s (codes "warn")
    || eq_bytes s (codes "error")

unfoldable pub validate_ports : ℕ → List ModemConfig → Option Invalid
validate_ports i [] = none
validate_ports i (m ∷ modems) =
    let rest = validate_ports (suc i) modems in
    if length m.port == 0
    then some (no_port i)
    else (if has_prefix (codes "/dev/") m.port || has_prefix (codes "/tmp/") m.port
        then rest
        else some (bad_port i))

unfoldable pub validate : GatewayConfig → Option Invalid
unfolding validate_ports is_log_level to_lower
validate cfg =
    if length cfg.gateway.id == 0
    then some no_id
    else (if not (is_log_level (to_lower cfg.gateway.log_level))
        then some bad_log_level
        else (if length cfg.tunnel.url == 0
            then some no_url
            else (if not (
                  has_prefix (codes "ws://") cfg.tunnel.url
                  || has_prefix (codes "wss://") cfg.tunnel.url)
                then some bad_url
                else (if length cfg.tunnel.token == 0
                    then some no_token
                    else (if length cfg.modems == 0
                        then some no_modem
                        else validate_ports 0 cfg.modems)))))

pub data Loaded : Type 0 where
  loaded : GatewayConfig → Loaded
  unset_variable : Text → Loaded
  not_parsed : Loaded
  invalid : Invalid → Loaded

unfoldable pub checked : GatewayConfig → Option Invalid → Loaded
checked cfg none = loaded cfg
checked cfg (some e) = invalid e

unfoldable pub after_decoding : Environment → Option GatewayConfig → Loaded
unfolding defaults apply_env_overrides validate checked
after_decoding env none = not_parsed
after_decoding env (some cfg) =
    let cfg' = apply_env_overrides env (defaults cfg) in checked cfg' (validate cfg')

unfoldable pub after_unset :
    (Text → Option GatewayConfig) → Environment → Text → Option Text → Loaded
unfolding after_decoding
after_unset decode env s none = after_decoding env (decode s)
after_unset decode env s (some name) = unset_variable name

unfoldable pub after_expansion : (Text → Option GatewayConfig) → Environment → Expanded → Loaded
unfolding after_unset
after_expansion decode env e = after_unset decode env e.text e.unset

-- Load, with the file's text.
unfoldable pub load : (Text → Option GatewayConfig) → Environment → Text → Loaded
unfolding after_expansion expand_env
load decode env raw = after_expansion decode env (expand_env env raw)
