-- ===== src/Pdu/Deliver/Safety.antt =====
-- No input makes `DecodePDU` panic.
use Prim.Native.Nat.{bit_and}
use sms_gate.Prelude.{
  ℕ, ◌+◌, ◌-◌, ◌*◌, ◌/◌, ◌≡◌, refl, Bool, true, false, Option, none, some, List, ◌==◌, length, take,
  drop, get_or, arith,
}
use sms_gate.Pdu.Septets.{shr8}
use sms_gate.Pdu.Septets.Indexed.{try_unpack_gsm7_lem}
use sms_gate.Pdu.Address.Indexed.{try_decode_bcd_address_lem, decode_smsc_lem}
use sms_gate.Pdu.Address.{
  decode_bcd_address, decode_scts, Encoding, gsm7, eight_bit, ucs2, Stamp, dcs_encoding,
}
use sms_gate.Pdu.Ucs2.{decode_ucs2}
use sms_gate.Pdu.Deliver.{
  DecodedSms, Outcome, decoded, failed, panic, at, between, from, stop_if, value, decode_body,
  without_header, decode_from_pid, decode_from_oa, decode_raw, decode_with, decode_pdu, udl_after,
}

abbrev pub is_panic : {A : Type 0} → Outcome A → Bool
is_panic (decoded x) = false
is_panic (failed err) = false
is_panic panic = true

decode_body-is_panic :
    {A : Type 0} (enc : Encoding) (ud : List ℕ) (udl : ℕ) (k : List ℕ → Outcome A)
    → ((body : List ℕ) → is_panic (k body) ≡ false)
    → is_panic (decode_body enc ud udl k) ≡ false
unfolding decode_body between value
decode_body-is_panic gsm7 ud udl k safe = rw (try_unpack_gsm7_lem ud udl) (safe _)
decode_body-is_panic ucs2 ud udl k safe =
    ground (arith, safe (decode_ucs2 (take (length ud) ud)), safe (decode_ucs2 (take (udl * 2) ud)))
decode_body-is_panic eight_bit ud udl k safe =
    ground (arith, safe (take (length ud) ud), safe (take udl ud))

without_header-is_panic :
    {A : Type 0} (enc : Encoding) (udhi : Bool) (ud : List ℕ) (udl : ℕ) (k : List ℕ → ℕ → Outcome A)
    → ((ud' : List ℕ) (udl' : ℕ) → is_panic (k ud' udl') ≡ false)
    → is_panic (without_header enc udhi ud udl k) ≡ false
unfolding without_header at from stop_if
without_header-is_panic enc false ud udl k safe = safe ud udl
without_header-is_panic enc true ud udl k safe =
    let udh_len = get_or ud 0 0 + 1 in
    ground (arith, safe (drop udh_len ud) (udl_after enc udh_len udl))

decode_from_pid-is_panic :
    (raw : List ℕ) (pos : ℕ) (udhi : Bool) (done : Stamp → List ℕ → DecodedSms)
    → is_panic (decode_from_pid raw pos udhi done) ≡ false
unfolding decode_from_pid at from between stop_if
decode_from_pid-is_panic raw pos udhi done =
    let enc = dcs_encoding (get_or raw (pos + 1) 0) in
    let ts = decode_scts (take (pos + 2 + 7 - (pos + 2)) (drop (pos + 2) raw)) in
    ground (
      arith,
      without_header-is_panic enc udhi (drop (pos + 10) raw) (get_or raw (pos + 9) 0)
          (λ ud udl. decode_body enc ud udl (λ body. decoded (done ts body)))
          (λ ud udl.
            decode_body-is_panic enc ud udl (λ body. decoded (done ts body)) (λ body. refl)),
    )

decode_from_oa-is_panic :
    (raw : List ℕ) (pos : ℕ) (udhi : Bool) (done : List ℕ → Stamp → List ℕ → DecodedSms)
    → is_panic (decode_from_oa raw pos udhi done) ≡ false
unfolding decode_from_oa at between stop_if value
decode_from_oa-is_panic raw pos udhi done =
    let n = get_or raw pos 0 in
    let end = pos + 2 + (n + 1) / 2 in
    ground (
      arith,
      try_decode_bcd_address_lem (take (end - (pos + 2)) (drop (pos + 2) raw)) n
          (get_or raw (pos + 1) 0),
      decode_from_pid-is_panic raw end udhi (
          done (
            decode_bcd_address (take (end - (pos + 2)) (drop (pos + 2) raw)) n
              (get_or raw (pos + 1) 0))),
    )

decode_raw-is_panic : (pdu_hash raw : List ℕ) → is_panic (decode_raw pdu_hash raw) ≡ false
unfolding decode_raw at stop_if value
decode_raw-is_panic pdu_hash raw =
    let ((smsc, pos), read) = decode_smsc_lem raw in
    let b = get_or raw pos 0 in
    rw read (
      ground (
        arith,
        decode_from_oa-is_panic raw (pos + 1) (bit_and (shr8 b 6) 0x01 == 1)
            (λ sender timestamp body. record {
              smsc = smsc;
              sender = sender;
              body = body;
              timestamp = timestamp;
              pdu_hash = pdu_hash;
            }),
      ))

decode_with-is_panic :
    (sha256 : List ℕ → List ℕ) (hex_str : List ℕ) (raw : Option (List ℕ))
    → is_panic (decode_with sha256 hex_str raw) ≡ false
unfolding decode_with
decode_with-is_panic sha256 hex_str none = refl
decode_with-is_panic sha256 hex_str (some raw) = decode_raw-is_panic _ raw

-- Whatever text is given, `DecodePDU` returns a message or an error: no index and no slice that it,
-- decodeSMSC, decodeBCDAddress or unpackGSM7 takes of the PDU is out of range, whatever lengths the PDU
-- gives for the service centre, the sender, the header and the user data.
pub decode_pdu-is_panic :
    (sha256 : List ℕ → List ℕ) (hex_str : List ℕ) → is_panic (decode_pdu sha256 hex_str) ≡ false
unfolding decode_pdu
decode_pdu-is_panic sha256 hex_str = decode_with-is_panic sha256 _ _
