-- ===== src/Pdu/Deliver.antt =====
-- Incoming messages (internal/at/pdu.go: DecodePDU). The hexadecimal text is given as its bytes; the
-- body is a list of runes, and of bytes where the message has 8-bit data. An index or a slice that is
-- out of range panics in Go: `at`, `between` and `from` say so, and take what is to be done with the
-- value; `value` passes on a panic of decodeSMSC, decodeBCDAddress and unpackGSM7. SHA-256 is a parameter.
pub mod Slices
pub mod Safety
pub mod RoundTrip
pub mod Header
mod Tests
use Prim.Native.Nat.{bit_and}
use sms_gate.Prelude.{
  ℕ, suc, ◌+◌, ◌-◌, ◌*◌, ◌/◌, ◌%◌, Bool, true, false, ◌&&◌, ◌||◌, Option, none, some, List, [], ◌∷◌,
  ◌++◌, map, ltb, leb, ◌==◌, length, get_or, take, drop, if◌then◌else◌,
}
use sms_gate.Prelude.Text.{codes, encode_hex}
use sms_gate.Prelude.Strings.{trim_space}
use sms_gate.Pdu.Septets.{shr8}
use sms_gate.Pdu.Septets.Indexed.{try_unpack_gsm7}
use sms_gate.Pdu.Alphabet.{decode_gsm7_text}
use sms_gate.Pdu.Address.{Encoding, gsm7, eight_bit, ucs2, Stamp, decode_scts, dcs_encoding}
use sms_gate.Pdu.Address.Indexed.{decode_smsc, try_decode_bcd_address}
use sms_gate.Pdu.Ucs2.{decode_ucs2}
use sms_gate.Pdu.Submit.{to_upper}

pub record DecodedSms : Type 0 where
  pub smsc : List ℕ
  pub sender : List ℕ
  pub body : List ℕ
  pub timestamp : Stamp
  pub pdu_hash : List ℕ

-- The errors of `DecodePDU`, in the order of the code.
pub data DecodeError : Type 0 where
  invalid_hex truncated_after_smsc : DecodeError
  not_sms_deliver : ℕ → DecodeError
  truncated_at_oa truncated_at_oa_digits truncated_at_pid truncated_at_dcs : DecodeError
  truncated_at_scts truncated_at_udl udhi_without_ud : DecodeError
  invalid_udh : ℕ → ℕ → DecodeError

pub data Outcome (A : Type 0) : Type 0 where
  decoded : A → Outcome A
  failed : DecodeError → Outcome A
  panic : Outcome A

-- `raw[i]`
unfoldable pub at : {A : Type 0} → List ℕ → ℕ → (ℕ → Outcome A) → Outcome A
at raw i k = if ltb i (length raw) then k (get_or raw i 0) else panic

-- `raw[lo:hi]`
unfoldable pub between : {A : Type 0} → List ℕ → ℕ → ℕ → (List ℕ → Outcome A) → Outcome A
between raw lo hi k =
    if leb lo hi && leb hi (length raw) then k (take (hi - lo) (drop lo raw)) else panic

-- `raw[lo:]`
unfoldable pub from : {A : Type 0} → List ℕ → ℕ → (List ℕ → Outcome A) → Outcome A
from raw lo k = if leb lo (length raw) then k (drop lo raw) else panic

-- The result of a function that panics with `none`.
unfoldable pub value {ℓ} : {A : Type 0} {B : Type ℓ} → Option B → (B → Outcome A) → Outcome A
value none k = panic
value (some x) k = k x

-- `if c { return nil, err }`
unfoldable pub stop_if : {A : Type 0} → Bool → DecodeError → Outcome A → Outcome A
stop_if c err rest = if c then failed err else rest

-- The body from the user data and its length.
unfoldable pub decode_body : {A : Type 0} → Encoding → List ℕ → ℕ → (List ℕ → Outcome A) → Outcome A
unfolding between value
decode_body gsm7 ud udl k = value (try_unpack_gsm7 ud udl) (λ septets. k (decode_gsm7_text septets))
decode_body ucs2 ud udl k =
    let ucs2_bytes = if ltb (length ud) (udl * 2) then length ud else udl * 2 in
    between ud 0 ucs2_bytes (λ octets. k (decode_ucs2 octets))
decode_body eight_bit ud udl k = between ud 0 (if ltb (length ud) udl then length ud else udl) k

-- `udl` without the header of `udh_len` octets.
unfoldable pub udl_after : Encoding → ℕ → ℕ → ℕ
udl_after gsm7 udh_len udl =
    let udh_septets = (udh_len * 8 + 6) / 7 in if leb udl udh_septets then 0 else udl - udh_septets
udl_after eight_bit udh_len udl = udl - udh_len
udl_after ucs2 udh_len udl = udl - udh_len

-- The user data header, when the type says that there is one.
unfoldable pub without_header :
    {A : Type 0} → Encoding → Bool → List ℕ → ℕ → (List ℕ → ℕ → Outcome A) → Outcome A
unfolding udl_after at from stop_if
without_header enc udhi ud udl k =
    if udhi
    then stop_if (length ud == 0) udhi_without_ud (
        at ud 0 (λ first.
          let udh_len = first + 1 in
          stop_if (ltb (length ud) udh_len) (invalid_udh udh_len (length ud))
            (from ud udh_len (λ ud'. k ud' (udl_after enc udh_len udl)))))
    else k ud udl

-- From the PID on, at `pos`.
unfoldable pub decode_from_pid :
    List ℕ → ℕ → Bool → (Stamp → List ℕ → DecodedSms) → Outcome DecodedSms
unfolding decode_body without_header at between from stop_if
decode_from_pid raw pos udhi done = stop_if (leb (length raw) pos) truncated_at_pid (
    stop_if (leb (length raw) (pos + 1)) truncated_at_dcs (
      at raw (pos + 1) (λ dcs. stop_if (ltb (length raw) (pos + 2 + 7)) truncated_at_scts (
        between raw (pos + 2) (pos + 2 + 7) (λ ts.
          stop_if (leb (length raw) (pos + 9)) truncated_at_udl (
            at raw (pos + 9) (λ udl. from raw (pos + 10) (λ ud.
              without_header (dcs_encoding dcs) udhi ud udl (λ ud' udl'.
                decode_body (dcs_encoding dcs) ud' udl'
                  (λ body. decoded (done (decode_scts ts) body)))))))))))

-- The originating address, at `pos`, and what follows.
unfoldable pub decode_from_oa :
    List ℕ → ℕ → Bool → (List ℕ → Stamp → List ℕ → DecodedSms) → Outcome DecodedSms
unfolding decode_from_pid value
decode_from_oa raw pos udhi done = stop_if (ltb (length raw) (pos + 2)) truncated_at_oa (
    at raw pos (λ oa_num_digits. at raw (pos + 1) (λ oa_type.
      let oa_bytes = (oa_num_digits + 1) / 2 in
      stop_if (ltb (length raw) (pos + 2 + oa_bytes)) truncated_at_oa_digits (
        between raw (pos + 2) (pos + 2 + oa_bytes) (λ oa.
          value (try_decode_bcd_address oa oa_num_digits oa_type)
            (λ sender. decode_from_pid raw (pos + 2 + oa_bytes) udhi (done sender)))))))

unfoldable pub decode_raw : List ℕ → List ℕ → Outcome DecodedSms
unfolding decode_from_oa value
decode_raw pdu_hash raw = value (decode_smsc raw) (λ (smsc, pos).
    stop_if (leb (length raw) pos) truncated_after_smsc (
      at raw pos (λ pdu_type.
        let mti = bit_and pdu_type 0x03 in
        stop_if (if mti == 0 then false else true) (not_sms_deliver mti) (
          decode_from_oa raw (pos + 1) (bit_and (shr8 pdu_type 6) 0x01 == 1)
            (λ sender timestamp body. record {
              smsc = smsc;
              sender = sender;
              body = body;
              timestamp = timestamp;
              pdu_hash = pdu_hash;
            })))))

-- hex.DecodeString: an odd length and what is no digit are errors.
unfoldable pub hex_value : ℕ → Option ℕ
hex_value c =
    if leb b'0' c && leb c b'9'
    then some (c - b'0')
    else (if leb b'A' c && leb c b'F'
        then some (c - b'A' + 10)
        else (if leb b'a' c && leb c b'f' then some (c - b'a' + 10) else none))

unfoldable pub pair_of : Option ℕ → Option ℕ → Option (List ℕ) → Option (List ℕ)
pair_of (some hi) (some lo) (some rest) = some ((hi * 16 + lo) ∷ rest)
pair_of (some hi) (some lo) none = none
pair_of (some hi) none rest = none
pair_of none lo rest = none

unfoldable pub decode_hex : List ℕ → Option (List ℕ)
unfolding hex_value pair_of
decode_hex [] = some []
decode_hex (c ∷ []) = none
decode_hex (hi ∷ lo ∷ s) = pair_of (hex_value hi) (hex_value lo) (decode_hex s)

unfoldable pub decode_with : (List ℕ → List ℕ) → List ℕ → Option (List ℕ) → Outcome DecodedSms
unfolding decode_raw
decode_with sha256 hex_str none = failed invalid_hex
decode_with sha256 hex_str (some raw) =
    decode_raw (codes "sha256:" ++ encode_hex (sha256 hex_str)) raw

unfoldable pub decode_pdu : (List ℕ → List ℕ) → List ℕ → Outcome DecodedSms
unfolding decode_with trim_space decode_hex
decode_pdu sha256 hex_str =
    let trimmed = trim_space (map to_upper hex_str) in
    decode_with sha256 trimmed (decode_hex trimmed)
