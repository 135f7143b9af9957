-- ===== src/Serializer/Commands.antt =====
-- The methods of internal/at/serializer.go that send a fixed command, or one with an index, and ignore
-- the lines of the response, over Execute. Durations are in nanoseconds.
use sms_gate.Prelude.{ℕ, ◌*◌, Option, none, some, List, ◌++◌}
use sms_gate.Prelude.Text.{codes}
use sms_gate.Prelude.Strings.{itoa}
use sms_gate.Serializer.{Line, AtError, Result, ok, err}

abbrev pub second : ℕ
second = 1_000_000_000

abbrev pub timeout_ping : ℕ
timeout_ping = 2 * second

abbrev pub timeout_std : ℕ
timeout_std = 5 * second

abbrev pub timeout_send : ℕ
timeout_send = 60 * second

abbrev pub timeout_reset : ℕ
timeout_reset = 30 * second

abbrev pub timeout_radio : ℕ
timeout_radio = 15 * second

-- `_, err := s.Execute(...)`
abbrev pub error_of : {S : Type 0} → S × Result (List Line) → S × Option AtError
error_of (s, ok lines) = (s, none)
error_of (s, err e) = (s, some e)

-- Execute, from a state of the port and the modem to the next.
module _ {S : Type 0} (execute : Line → ℕ → S → S × Result (List Line)) where
  unfoldable pub ping : S → S × Option AtError
  ping s = error_of (execute (codes "AT") timeout_ping s)

  unfoldable pub disable_echo : S → S × Option AtError
  disable_echo s = error_of (execute (codes "ATE0") timeout_ping s)

  unfoldable pub set_pdu_mode : S → S × Option AtError
  set_pdu_mode s = error_of (execute (codes "AT+CMGF=0") timeout_ping s)

  unfoldable pub enable_cmti_urcs : S → S × Option AtError
  enable_cmti_urcs s = error_of (execute (codes "AT+CNMI=2,1,0,0,0") timeout_ping s)

  unfoldable pub delete_sms : ℕ → S → S × Option AtError
  unfolding itoa
  delete_sms index s = error_of (execute (codes "AT+CMGD=" ++ itoa index) timeout_std s)

  unfoldable pub delete_all_sms : S → S × Option AtError
  delete_all_sms s = error_of (execute (codes "AT+CMGD=1,4") timeout_std s)

  unfoldable pub radio_off : S → S × Option AtError
  radio_off s = error_of (execute (codes "AT+CFUN=0") (timeout_std * 2) s)

  unfoldable pub radio_on : S → S × Option AtError
  radio_on s = error_of (execute (codes "AT+CFUN=1") timeout_radio s)

  unfoldable pub hard_reset : S → S × Option AtError
  hard_reset s = error_of (execute (codes "AT+CFUN=1,1") timeout_reset s)
