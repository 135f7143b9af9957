-- ===== src/Config/Usable.antt =====
-- What a configuration that has been loaded satisfies.
use sms_gate.Prelude.{
  All, ℕ, zero, suc, ◌≡◌, ◌<◌, refl, sym, inl, inr, Bool, true, false, ◌||◌, Option, none, some,
  List, [], ◌∷◌, ◌==◌, length, arith, Bool-cases,
}
use sms_gate.Prelude.Int.{ℤ, pos, negsuc}
use sms_gate.Prelude.Text.{codes}
use sms_gate.Prelude.Strings.{has_prefix, atoi}
use sms_gate.Config.{
  Text, Environment, ModemConfig, GatewayConfig, int_or, positive_or, poll_or, defaults,
  apply_env_overrides, is_log_level, to_lower, validate_ports, validate, Invalid, loaded, checked,
  after_decoding, after_unset, after_expansion, expand_env, load,
}

abbrev pub is_zero : ℤ → Bool
is_zero (pos zero) = true
is_zero (pos (suc n)) = false
is_zero (negsuc n) = false

-- The times and percentages of the configuration.
abbrev pub settings : GatewayConfig → List ℤ
settings cfg =
    cfg.tunnel.ping_interval_s ∷ cfg.tunnel.ping_timeout_s ∷ cfg.tunnel.heartbeat_interval_s
    ∷ cfg.tunnel.ack_timeout_s ∷ cfg.tunnel.reconnect_base_s ∷ cfg.tunnel.reconnect_max_s
    ∷ cfg.tunnel.handshake_timeout_s ∷ cfg.buffer.retention_days ∷ cfg.buffer.flush_interval_m
    ∷ cfg.health.keepalive_interval_s ∷ cfg.health.sim_capacity_warn_pct
    ∷ cfg.health.sim_capacity_purge_pct ∷ cfg.health.signal_poll_interval_s ∷ []

abbrev pub is_port : ModemConfig → Bool
is_port m = has_prefix (codes "/dev/") m.port || has_prefix (codes "/tmp/") m.port

abbrev pub is_web_socket_url : Text → Bool
is_web_socket_url url = has_prefix (codes "ws://") url || has_prefix (codes "wss://") url

pub record IsUsable (cfg : GatewayConfig) : Type 0 where
  pub has_id : 0 < length cfg.gateway.id
  pub has_log_level : is_log_level (to_lower cfg.gateway.log_level) ≡ true
  pub is_web_socket : is_web_socket_url cfg.tunnel.url ≡ true
  pub has_token : 0 < length cfg.tunnel.token
  pub has_modem : 0 < length cfg.modems
  pub has_ports : All (λ m. is_port m ≡ true) cfg.modems
  pub no_zeros : All (λ n. is_zero n ≡ false) (settings cfg)

int_or-is_zero : (d : ℕ) (n : ℤ) → is_zero (int_or (suc d) n) ≡ false
int_or-is_zero d (pos zero) = refl
int_or-is_zero d (pos (suc n)) = refl
int_or-is_zero d (negsuc n) = refl

positive_or-is_zero : (q : Option ℤ) (n : ℤ) → is_zero n ≡ false → is_zero (positive_or q n) ≡ false
positive_or-is_zero none n e = e
positive_or-is_zero (some (pos zero)) n e = e
positive_or-is_zero (some (pos (suc k))) n e = refl
positive_or-is_zero (some (negsuc k)) n e = e

poll_or-is_zero : (q : Option Text) (n : ℤ) → is_zero n ≡ false → is_zero (poll_or q n) ≡ false
poll_or-is_zero none n e = e
poll_or-is_zero (some v) n e = elim (Bool-cases (length v == 0)) [
  | inl empty ↦ rw empty e
  | inr full ↦ rw full (positive_or-is_zero (atoi v) n e)
]

settings-overridden :
    (env : Environment) (cfg : GatewayConfig)
    → All (λ n. is_zero n ≡ false) (settings (apply_env_overrides env (defaults cfg)))
unfolding apply_env_overrides defaults
settings-overridden env cfg = (
  int_or-is_zero 29 cfg.tunnel.ping_interval_s,
  (
    int_or-is_zero 9 cfg.tunnel.ping_timeout_s,
    (
      int_or-is_zero 59 cfg.tunnel.heartbeat_interval_s,
      (
        int_or-is_zero 9 cfg.tunnel.ack_timeout_s,
        (
          int_or-is_zero 0 cfg.tunnel.reconnect_base_s,
          (
            int_or-is_zero 299 cfg.tunnel.reconnect_max_s,
            (
              int_or-is_zero 14 cfg.tunnel.handshake_timeout_s,
              (
                int_or-is_zero 6 cfg.buffer.retention_days,
                (
                  int_or-is_zero 9 cfg.buffer.flush_interval_m,
                  (
                    int_or-is_zero 59 cfg.health.keepalive_interval_s,
                    (
                      int_or-is_zero 79 cfg.health.sim_capacity_warn_pct,
                      (
                        int_or-is_zero 94 cfg.health.sim_capacity_purge_pct,
                        (
                          poll_or-is_zero (env (codes "SIGNAL_POLL_INTERVAL"))
                              (int_or 30 cfg.health.signal_poll_interval_s)
                              (int_or-is_zero 29 cfg.health.signal_poll_interval_s),
                          tt,
                        ),
                      ),
                    ),
                  ),
                ),
              ),
            ),
          ),
        ),
      ),
    ),
  ),
)

validate_ports-All :
    (i : ℕ) (modems : List ModemConfig)
    → validate_ports i modems ≡ none
    → All (λ m. is_port m ≡ true) modems
unfolding validate_ports
validate_ports-All i [] e = tt
validate_ports-All i (m ∷ modems) e = elim (Bool-cases (length m.port == 0)) [
  | inl empty ↦ absurd (ground (arith, rw empty at e))
  | inr full ↦ elim (Bool-cases (is_port m)) [
    | inl good ↦ (good, validate_ports-All (suc i) modems (rw (full, good) at e))
    | inr bad ↦ absurd (ground (arith, rw (full, bad) at e))
  ]
]

-- What validate accepts.
validate-IsUsable :
    (cfg : GatewayConfig)
    → All (λ n. is_zero n ≡ false) (settings cfg)
    → validate cfg ≡ none
    → IsUsable cfg
unfolding validate
validate-IsUsable cfg zeros e = elim (Bool-cases (length cfg.gateway.id == 0)) [
  | inl bad ↦ absurd (ground (arith, rw bad at e))
  | inr id ↦ elim (Bool-cases (is_log_level (to_lower cfg.gateway.log_level))) [
    | inr bad ↦ absurd (ground (arith, rw (id, bad) at e))
    | inl level ↦ elim (Bool-cases (length cfg.tunnel.url == 0)) [
      | inl bad ↦ absurd (ground (arith, rw (id, level, bad) at e))
      | inr url ↦ elim (Bool-cases (is_web_socket_url cfg.tunnel.url)) [
        | inr bad ↦ absurd (ground (arith, rw (id, level, url, bad) at e))
        | inl web ↦ elim (Bool-cases (length cfg.tunnel.token == 0)) [
          | inl bad ↦ absurd (ground (arith, rw (id, level, url, web, bad) at e))
          | inr token ↦ elim (Bool-cases (length cfg.modems == 0)) [
            | inl bad ↦ absurd (ground (arith, rw (id, level, url, web, token, bad) at e))
            | inr modem ↦ record {
              has_id = ground arith;
              has_log_level = level;
              is_web_socket = web;
              has_token = ground arith;
              has_modem = ground arith;
              has_ports =
                  validate_ports-All 0 cfg.modems (rw (id, level, url, web, token, modem) at e);
              no_zeros = zeros;
            }
          ]
        ]
      ]
    ]
  ]
]

checked-IsUsable :
    (cfg cfg' : GatewayConfig) (q : Option Invalid)
    → validate cfg ≡ q
    → All (λ n. is_zero n ≡ false) (settings cfg)
    → checked cfg q ≡ loaded cfg'
    → IsUsable cfg'
unfolding checked
checked-IsUsable cfg cfg' none accepted zeros e =
    let same : cfg ≡ cfg' = ground arith in rw (sym same) (validate-IsUsable cfg zeros accepted)
checked-IsUsable cfg cfg' (some err) accepted zeros e = absurd (ground arith)

after_decoding-IsUsable :
    (env : Environment) (decoded : Option GatewayConfig) (cfg : GatewayConfig)
    → after_decoding env decoded ≡ loaded cfg
    → IsUsable cfg
unfolding after_decoding
after_decoding-IsUsable env none cfg e = absurd (ground arith)
after_decoding-IsUsable env (some raw) cfg e =
    let cfg' = apply_env_overrides env (defaults raw) in
    checked-IsUsable cfg' cfg (validate cfg') refl (settings-overridden env raw) e

after_unset-IsUsable :
    (decode : Text → Option GatewayConfig) (env : Environment) (s : Text) (unset : Option Text)
    (cfg : GatewayConfig)
    → after_unset decode env s unset ≡ loaded cfg
    → IsUsable cfg
unfolding after_unset
after_unset-IsUsable decode env s none cfg e = after_decoding-IsUsable env (decode s) cfg e
after_unset-IsUsable decode env s (some name) cfg e = absurd (ground arith)

-- A configuration that Load returns, whatever the decoder and the environment, has an id, a known log level,
-- a WebSocket URL, a token and at least one modem, all its ports begin with /dev/ or /tmp/, and none of its
-- times and percentages is zero. So Load refuses a modem with a TCP address, which config.full.yaml offers as
-- a port and openPort would dial.
pub load-IsUsable :
    (decode : Text → Option GatewayConfig) (env : Environment) (raw : Text) (cfg : GatewayConfig)
    → load decode env raw ≡ loaded cfg
    → IsUsable cfg
unfolding load after_expansion
load-IsUsable decode env raw cfg e =
    after_unset-IsUsable decode env (expand_env env raw).text (expand_env env raw).unset cfg e
