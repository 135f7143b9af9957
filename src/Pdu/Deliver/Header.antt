-- ===== src/Pdu/Deliver/Header.antt =====
-- Parts of a concatenated message in the default alphabet (internal/at/pdu.go: DecodePDU).
use Prim.Native.Nat.{bit_and}
use sms_gate.Prelude.{
  true, false, ◌-◌, ℕ, ◌+◌, ◌<◌, ◌≡◌, ◌≢◌, refl, sym, ◌∙◌, List, ◌∷◌, length, take_all, All, leb,
  ltb, ◌==◌, arith, if◌then◌else◌,
}
use sms_gate.Pdu.Septets.{shr8, unpack_gsm7, repack_with_fill}
use sms_gate.Pdu.Septets.Indexed.{try_unpack_gsm7_lem}
use sms_gate.Pdu.Septets.Pack.{IsSeptet}
use sms_gate.Pdu.Septets.RoundTrip.{unpack_gsm7-repack_with_fill}
use sms_gate.Pdu.Alphabet.{decode_gsm7_text}
use sms_gate.Pdu.Address.{encode_bcd_address, dcs_encoding}
use sms_gate.Pdu.Address.RoundTrip.{IsDigit, decoded-encode_bcd_address}
use sms_gate.Pdu.Deliver.{
  decoded, value, at, from, stop_if, decode_body, udl_after, without_header, decode_raw,
}
use sms_gate.Pdu.Deliver.RoundTrip.{
  Frame, deliver, message, decode_raw-deliver, length-encode_bcd_address,
}

-- The first octet is that of an SMS-DELIVER with a user data header; its other bits are free.
pub record HasHeader (f : Frame) : Type 0 where
  pub mti : bit_and f.first 0x03 ≡ 0
  pub with_header : bit_and (shr8 f.first 6) 0x01 ≡ 1

-- The user data of a part: the header of six octets and the septets behind one fill bit, as
-- `buildGSM7PDU` lays them out.
abbrev pub part_data : ℕ → ℕ → ℕ → List ℕ → List ℕ
part_data ref total seq codes = 0x05 ∷ 0x00 ∷ 0x03 ∷ ref ∷ total ∷ seq ∷ repack_with_fill codes 1

read_part :
    (pdu_hash sent : List ℕ) (f : Frame) (ref total seq : ℕ) (codes : List ℕ)
    → without_header
        (dcs_encoding 0x00)
        true
        (part_data ref total seq codes)
        (length codes + 7)
        (λ ud udl.
          decode_body (dcs_encoding 0x00) ud udl (λ body. decoded (message pdu_hash f sent body)))
      ≡ decoded (
          message pdu_hash f sent
            (decode_gsm7_text (unpack_gsm7 (repack_with_fill codes 1) (length codes))))
unfolding dcs_encoding without_header udl_after decode_body value at from stop_if
read_part pdu_hash sent f ref total seq codes =
    let packed = repack_with_fill codes 1 in
    let some_data : (length (part_data ref total seq codes) == 0) ≡ false = ground arith in
    let whole : ltb (length (part_data ref total seq codes)) 6 ≡ false = ground arith in
    let first_in : ltb 0 (length (part_data ref total seq codes)) ≡ true = ground arith in
    let rest_in : leb 6 (length (part_data ref total seq codes)) ≡ true = ground arith in
    let udl : (if leb (length codes + 7) 7 then 0 else length codes + 7 - 7) ≡ length codes =
      ground arith in
    rw (some_data, first_in, whole, rest_in, udl, try_unpack_gsm7_lem packed (length codes)) refl

-- A part of a concatenated message in the default alphabet, with a header of six octets and its septets
-- behind one fill bit: `DecodePDU` drops the header and unpacks the rest from bit 0, so that its body is
-- the text of what is unpacked there, and whenever the first septet is not 0, that differs from what was
-- packed.
pub decode_raw-part :
    (pdu_hash sender : List ℕ) (f : Frame) (ref total seq c : ℕ) (cs : List ℕ)
    → HasHeader f
    → All IsDigit sender
    → All IsSeptet (c ∷ cs)
    → 0 < c
    → let unpacked = unpack_gsm7 (repack_with_fill (c ∷ cs) 1) (length (c ∷ cs)) in
      (decode_raw pdu_hash (
          deliver f
            (encode_bcd_address sender)
            0x00
            (length (c ∷ cs) + 7)
            (part_data ref total seq (c ∷ cs)))
        ≡ decoded (message pdu_hash f sender (decode_gsm7_text unpacked)))
      × (unpacked ≢ c ∷ cs)
decode_raw-part pdu_hash sender f ref total seq c cs d digits septets first =
    let from = decoded-encode_bcd_address sender digits in
    let header = d.with_header in
    let same = take_all (length (c ∷ cs)) (c ∷ cs) (omega arith) in
    (
      decode_raw-deliver pdu_hash f (encode_bcd_address sender) 0x00 _ _ d.mti
            (length-encode_bcd_address sender)
          ∙ rw (header, from.0) (read_part pdu_hash sender f ref total seq (c ∷ cs)),
      λ e. unpack_gsm7-repack_with_fill c cs (length cs) septets first (e ∙ sym same),
    )
