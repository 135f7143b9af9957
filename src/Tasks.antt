-- ===== src/Tasks.antt =====
-- SEND_SMS tasks (internal/modem/worker.go: doSendSMS, validE164). A payload is what json.Unmarshal
-- gives, `none` for an error. The texts of errors and the JSON of results are left out, and marshalling
-- succeeds. `send` is ExecuteSend, whose answer depends on the part.
pub mod Sending
mod Tests
use Prim.Native.String.{String}
use text.Mathlib.Text.{◌==◌ as str_eq}
use sms_gate.Prelude.{
  ℕ, ◌+◌, ◌++◌, Bool, true, false, ◌&&◌, ◌||◌, not, Option, none, some, List, [], ◌∷◌, ltb, leb,
  ◌==◌, length, if◌then◌else◌,
}
use sms_gate.Prelude.Strings.{is_digit}
use sms_gate.SimLimit.{RateLimiterRegistry, allow_iccid}
use sms_gate.Pdu.Submit.{EncodedPdu, Encoded, ok, unsupported, encode_pdu}

pub data ErrorCode : Type 0 where
  invalid_payload rate_limited send_failed : ErrorCode

-- The status of an acknowledgement, with the number of parts of a message that was sent.
pub data Ack : Type 0 where
  success : ℕ → Ack
  failed : ErrorCode → Ack

pub record SendPayload : Type 0 where
  pub iccid : String
  pub to : List ℕ
  pub body : List ℕ
  pub encoding : String

abbrev pub all_digits : List ℕ → Bool
all_digits [] = true
all_digits (c ∷ s) = is_digit c && all_digits s

-- `^\+[1-9]\d{6,14}$`
unfoldable pub valid_e164 : List ℕ → Bool
valid_e164 [] = false
valid_e164 (c ∷ []) = false
valid_e164 (c ∷ d ∷ s) =
    c == b'+' && leb b'1' d && leb d b'9' && all_digits s && leb 6 (length s) && leb (length s) 14

-- The bytes of a rune in UTF-8, which `len(p.Body)` counts.
abbrev pub rune_len : ℕ → ℕ
rune_len r = if ltb r 0x80 then 1 else (if ltb r 0x800 then 2 else (if ltb r 0x10000 then 3 else 4))

unfoldable pub byte_len : List ℕ → ℕ
byte_len [] = 0
byte_len (r ∷ s) = rune_len r + byte_len s

abbrev pub max_sms_body : ℕ
max_sms_body = 10000

-- The worker's state here: the limiters, sent1H, and the parts that were given to the modem.
pub record Sender : Type 0 where
  pub limiter : RateLimiterRegistry
  pub sent_1h : ℕ
  pub given : List EncodedPdu

abbrev pub is_empty : List ℕ → Bool
is_empty [] = true
is_empty (r ∷ s) = false

-- The checks of the payload, all of which give the same error code.
unfoldable pub rejected : SendPayload → Bool
unfolding valid_e164 byte_len
rejected p =
    str_eq p.iccid ""
    || is_empty p.to
    || is_empty p.body
    || not (valid_e164 p.to)
    || ltb max_sms_body (byte_len p.body)

module _ (send : EncodedPdu → Bool) where
  -- The loop over the parts, which ends at the first that fails: the parts that were tried, and whether
  -- all were sent.
  unfoldable pub send_parts : List EncodedPdu → List EncodedPdu × Bool
  send_parts [] = ([], true)
  send_parts (part ∷ parts) =
      let rest = send_parts parts in
      if send part then (part ∷ rest.0, rest.1) else (part ∷ [], false)

  unfoldable pub after_parts : ℕ → Sender → List EncodedPdu × Bool → Sender × Ack
  after_parts n st (tried, true) =
      (record st { given = st.given ++ tried; sent_1h = st.sent_1h + 1 }, success n)
  after_parts n st (tried, false) = (record st { given = st.given ++ tried }, failed send_failed)

  unfoldable pub after_encode : Sender → Encoded → Sender × Ack
  unfolding after_parts send_parts
  after_encode st (ok parts) = after_parts (length parts) st (send_parts parts)
  after_encode st (unsupported encoding) = (st, failed send_failed)

  unfoldable pub after_allow : SendPayload → Sender → RateLimiterRegistry × Bool → Sender × Ack
  unfolding after_encode
  after_allow p st (limiter, true) =
      after_encode (record st { limiter = limiter }) (encode_pdu p.to p.body p.encoding)
  after_allow p st (limiter, false) = (record st { limiter = limiter }, failed rate_limited)

  -- The limiter is asked for the worker's own ICCID.
  unfoldable pub do_send_sms : String → ℕ → Option SendPayload → Sender → Sender × Ack
  unfolding after_allow rejected
  do_send_sms iccid now none st = (st, failed invalid_payload)
  do_send_sms iccid now (some p) st =
      if rejected p
      then (st, failed invalid_payload)
      else after_allow p st (allow_iccid iccid now st.limiter)
