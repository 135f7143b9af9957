-- ===== src/Pdu/Deliver/Tests.antt =====
-- Runs of DecodePDU, and the theorems at concrete inputs.
use sms_gate.Prelude.{ℕ, ◌≡◌, refl, inl, inr, true, false, List, [], ◌∷◌, ◌++◌, length, arith}
use sms_gate.Prelude.Text.{codes}
use sms_gate.Prelude.{◌≢◌, ◌+◌}
use sms_gate.Pdu.Deliver.Header.{part_data, decode_raw-part}
use sms_gate.Pdu.Septets.{pack_gsm7, unpack_gsm7, repack_with_fill}
use sms_gate.Pdu.Alphabet.{decode_gsm7_text, is_gsm7, encode_gsm7_text, rune_to_gsm7, code_of}
use sms_gate.Pdu.Address.{encode_bcd_address}
use sms_gate.Pdu.Address.Indexed.{decode_smsc}
use sms_gate.Pdu.Submit.{to_upper}
use sms_gate.Pdu.Address.SemiOctets.{Fields}
use sms_gate.Pdu.Ucs2.{encode_ucs2, utf16_units}
use sms_gate.Pdu.Deliver.{
  decoded, failed, invalid_hex, invalid_udh, not_sms_deliver, decode_raw, decode_pdu,
}
use sms_gate.Pdu.Deliver.Safety.{is_panic, decode_pdu-is_panic}
use sms_gate.Pdu.Deliver.RoundTrip.{
  Frame, IsDeliver, Counts, deliver, message, decode_raw-deliver_gsm7, decode_raw-deliver_ucs2,
}

abbrev no_hash : List ℕ → List ℕ
no_hash s = []

-- An odd number of digits, and a message that is none of a service centre's.
odd : decode_pdu no_hash (codes "000") ≡ failed invalid_hex
unfolding decode_pdu to_upper decode_smsc
odd = refl

submit : decode_pdu no_hash (codes " 0011\n") ≡ failed (not_sms_deliver 1)
unfolding decode_pdu to_upper decode_smsc
submit = refl

-- A header that is longer than the user data.
long_header :
    decode_raw [] (0x00 ∷ 0x44 ∷ 0x00 ∷ 0x81 ∷ 0 ∷ 0 ∷ 0 ∷ 0 ∷ 0 ∷ 0 ∷ 0 ∷ 0 ∷ 0 ∷ 9 ∷ 200 ∷ 1 ∷ [])
    ≡ failed (invalid_udh 201 2)
unfolding decode_raw decode_smsc
long_header = refl

decode_pdu-is_panic_example : is_panic (decode_pdu no_hash (codes "00440081")) ≡ false
decode_pdu-is_panic_example = decode_pdu-is_panic no_hash (codes "00440081")

abbrev noon : Fields
noon = record {
  year = 26;
  month = 11;
  day = 26;
  hour = 12;
  minute = 0;
  second = 5;
  negative = false;
  quarters = 4;
}

known : is_gsm7 (codes "a{@") ≡ true
unfolding is_gsm7 rune_to_gsm7 code_of
known = refl

-- From the service centre +491722270333, with more messages to come.
abbrev frame : Frame
frame = record {
  centre = 0x91 ∷ 0x94 ∷ 0x71 ∷ 0x22 ∷ 0x72 ∷ 0x30 ∷ 0x33 ∷ [];
  first = 0x24;
  pid = 0x00;
  stamp = noon;
}

frame-IsDeliver : IsDeliver frame
frame-IsDeliver = record { mti = refl; no_header = refl }

decode_raw-deliver_gsm7_example :
    let text = codes "a{@" in
    let septets = encode_gsm7_text text in
    let user_data = pack_gsm7 septets in
    (decode_raw []
        (deliver frame (encode_bcd_address (codes "491")) 0x00 (length septets) user_data)
      ≡ decoded (message [] frame (codes "491") text))
    × (decode_raw []
          (deliver frame (encode_bcd_address (b'+' ∷ codes "491")) 0x00 (length septets) user_data)
        ≡ decoded (message [] frame (b'+' ∷ codes "491") text))
decode_raw-deliver_gsm7_example =
    decode_raw-deliver_gsm7 [] (codes "491") (codes "a{@") frame frame-IsDeliver (omega arith) known
      ((λ e. omega arith), ((λ e. omega arith), ((λ e. omega arith), tt)))

-- U+20AC and U+1F600
abbrev euro_smile : List ℕ
euro_smile = 0x20ac ∷ 0x1f600 ∷ []

three_units : Counts (encode_ucs2 euro_smile) (0xff ∷ []) 3
unfolding encode_ucs2 utf16_units
three_units = inl refl

decode_raw-deliver_ucs2_example :
    let user_data = encode_ucs2 euro_smile ++ 0xff ∷ [] in
    (decode_raw [] (deliver frame (encode_bcd_address (codes "491")) 0x08 3 user_data)
      ≡ decoded (message [] frame (codes "491") euro_smile))
    × (decode_raw [] (deliver frame (encode_bcd_address (b'+' ∷ codes "491")) 0x08 3 user_data)
        ≡ decoded (message [] frame (b'+' ∷ codes "491") euro_smile))
decode_raw-deliver_ucs2_example =
    decode_raw-deliver_ucs2 [] (codes "491") euro_smile (0xff ∷ []) 3 frame frame-IsDeliver
      (omega arith) (inl (omega arith), (inr (omega arith, omega arith), tt)) three_units

abbrev he : List ℕ
he = 104 ∷ 101 ∷ []

-- The second of two parts, with the septets of `he`.
decode_raw-part_example :
    let f = record frame { first = 0x64 } in
    let unpacked = unpack_gsm7 (repack_with_fill (he) 1) (length (he)) in
    (decode_raw [] (
        deliver f
          (encode_bcd_address (codes "491"))
          0x00
          (length (he) + 7)
          (part_data 0x42 2 2 (he)))
      ≡ decoded (message [] f (codes "491") (decode_gsm7_text unpacked)))
    × (unpacked ≢ he)
decode_raw-part_example =
    decode_raw-part [] (codes "491") (record frame { first = 0x64 }) 0x42 2 2 104 (101 ∷ [])
      (record { mti = refl; with_header = refl }) (omega arith) (omega arith) (omega arith)
