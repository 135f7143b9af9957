-- ===== src/Pdu/Submit.antt =====
-- Outgoing messages (internal/at/pdu.go: EncodePDU and what it calls). `byte(n)` keeps `n % 256`. The
-- text of a message is the list of its runes.
pub mod Segments
pub mod Sizes
mod Tests
use Prim.Native.Nat.{bit_or}
use Prim.Native.String.{String}
use text.Mathlib.Text.{◌==◌ as str_eq}
use sms_gate.Prelude.{
  ℕ, zero, suc, ◌+◌, ◌-◌, ◌*◌, ◌/◌, ◌%◌, Bool, ◌&&◌, List, [], ◌∷◌, ◌++◌, map, ltb, leb, length,
  take, drop, if◌then◌else◌,
}
use sms_gate.Prelude.Text.{encode_hex}
use sms_gate.Pdu.Septets.{pack_gsm7, repack_with_fill}
use sms_gate.Pdu.Alphabet.{is_gsm7, encode_gsm7_text}
use sms_gate.Pdu.Address.{Address, encode_bcd_address}
use sms_gate.Pdu.Ucs2.{encode_ucs2}

pub record EncodedPdu : Type 0 where
  pub hex_str : List ℕ
  pub length : ℕ
  pub num_parts : ℕ

abbrev pub max_gsm7_chars : ℕ
max_gsm7_chars = 160

abbrev pub max_ucs2_chars : ℕ
max_ucs2_chars = 70

abbrev pub max_gsm7_concat_chars : ℕ
max_gsm7_concat_chars = 153

abbrev pub max_ucs2_concat_chars : ℕ
max_ucs2_concat_chars = 67

-- ref, total and partNum, and the header that carries them.
pub record Part : Type 0 where
  pub ref : ℕ
  pub total : ℕ
  pub part_num : ℕ

abbrev pub single : Part
single = record { ref = 0; total = 0; part_num = 0 }

abbrev pub header : Part → List ℕ
header p = 0x05 ∷ 0x00 ∷ 0x03 ∷ p.ref ∷ p.total ∷ p.part_num ∷ []

-- The user data with its length field, before that is cut to a byte.
pub record UserData : Type 0 where
  pub udl : ℕ
  pub octets : List ℕ

unfoldable pub gsm7_user_data : List ℕ → Part → UserData
gsm7_user_data chars p =
    if ltb 0 p.total
    then record { udl = length chars + 7; octets = header p ++ repack_with_fill chars 1 }
    else record { udl = length chars; octets = pack_gsm7 chars }

unfoldable pub ucs2_user_data : List ℕ → Part → UserData
ucs2_user_data runes p =
    let udh = if ltb 0 p.total then header p else [] in
    let body = encode_ucs2 runes in record { udl = length body + length udh; octets = udh ++ body }

-- The octets of an SMS-SUBMIT: no service centre, the type, the reference, the destination, PID, DCS,
-- four days of validity, and the user data.
unfoldable pub submit_octets : List ℕ → ℕ → Part → UserData → List ℕ
submit_octets to dcs p ud =
    let da = encode_bcd_address to in
    let pdu_type = if ltb 0 p.total then bit_or 0x11 0x40 else 0x11 in
    0x00
    ∷ pdu_type
    ∷ 0x00
    ∷ (da.num_digits % 256)
    ∷ da.addr_type
    ∷ (da.octets ++ 0x00 ∷ dcs ∷ 0xaa ∷ (ud.udl % 256) ∷ ud.octets)

-- strings.ToUpper, on the digits that hex.EncodeToString writes.
unfoldable pub to_upper : ℕ → ℕ
to_upper c = if leb b'a' c && leb c b'z' then c - 32 else c

unfoldable pub encoded : List ℕ → Part → EncodedPdu
unfolding to_upper
encoded pdu p = record {
  hex_str = map to_upper (encode_hex pdu);
  length = length pdu - 1;
  num_parts = p.total;
}

unfoldable pub build_gsm7_pdu : List ℕ → List ℕ → Part → EncodedPdu
unfolding encoded submit_octets gsm7_user_data
build_gsm7_pdu to chars p = encoded (submit_octets to 0x00 p (gsm7_user_data chars p)) p

unfoldable pub build_ucs2_pdu : List ℕ → List ℕ → Part → EncodedPdu
unfolding encoded submit_octets ucs2_user_data
build_ucs2_pdu to runes p = encoded (submit_octets to 0x08 p (ucs2_user_data runes p)) p

-- `chars[start:end]`
abbrev pub slice : List ℕ → ℕ → ℕ → List ℕ
slice chars start end = take (end - start) (drop start chars)

-- The loop over the parts, which both encodings have, from part `i` with `n` rounds left.
unfoldable pub parts_from : (List ℕ → Part → EncodedPdu) → ℕ → List ℕ → ℕ → ℕ → ℕ → List EncodedPdu
parts_from build limit chars n_parts i zero = []
parts_from build limit chars n_parts i (suc n) =
    let start = i * limit in
    let end = if ltb (length chars) (start + limit) then length chars else start + limit in
    build (slice chars start end)
      (record { ref = 0x42; total = n_parts % 256; part_num = (i + 1) % 256 })
    ∷ parts_from build limit chars n_parts (i + 1) n

unfoldable pub encode_parts : (List ℕ → Part → EncodedPdu) → ℕ → ℕ → List ℕ → List EncodedPdu
encode_parts build max limit chars =
    let n_parts = (length chars + limit - 1) / limit in
    if leb (length chars) max
    then build chars single ∷ []
    else parts_from build limit chars n_parts 0 n_parts

unfoldable pub encode_gsm7_pdus : List ℕ → List ℕ → List EncodedPdu
encode_gsm7_pdus to body =
    encode_parts (build_gsm7_pdu to) max_gsm7_chars max_gsm7_concat_chars (encode_gsm7_text body)

unfoldable pub encode_ucs2_pdus : List ℕ → List ℕ → List EncodedPdu
encode_ucs2_pdus to body =
    encode_parts (build_ucs2_pdu to) max_ucs2_chars max_ucs2_concat_chars body

pub data Encoded : Type 0 where
  ok : List EncodedPdu → Encoded
  unsupported : String → Encoded

unfoldable pub encode_as : List ℕ → List ℕ → String → Encoded
encode_as to body encoding =
    if str_eq encoding "GSM7"
    then ok (encode_gsm7_pdus to body)
    else (if str_eq encoding "UCS2" then ok (encode_ucs2_pdus to body) else unsupported encoding)

-- An empty encoding is chosen by the text.
unfoldable pub encode_pdu : List ℕ → List ℕ → String → Encoded
encode_pdu to body encoding =
    encode_as to body
      (if str_eq encoding "" then (if is_gsm7 body then "GSM7" else "UCS2") else encoding)
