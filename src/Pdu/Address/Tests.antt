-- ===== src/Pdu/Address/Tests.antt =====
-- Runs of the address routines, and the theorems at concrete inputs.
use sms_gate.Prelude.{◌+◌, ◌*◌, ◌≡◌, refl, true, [], ◌∷◌, arith}
use sms_gate.Prelude.Text.{codes}
use sms_gate.Pdu.Septets.{unpack_gsm7}
use sms_gate.Pdu.Alphabet.{decode_gsm7_text}
use sms_gate.Prelude.{some}
use sms_gate.Pdu.Address.Indexed.{decode_smsc}
use sms_gate.Pdu.Address.{
  decode_bcd_address, pair_octet, encode_bcd_address, signed, date, zero_time, decode_scts,
  eight_bit, dcs_encoding,
}
use sms_gate.Pdu.Address.SemiOctets.{Fields, scts, excess, decode_scts-scts}

encoded_run :
    encode_bcd_address (codes "+491")
    ≡ record { num_digits = 3; addr_type = 0x91; octets = 0x94 ∷ 0xf1 ∷ [] }
unfolding encode_bcd_address pair_octet
encoded_run = refl

centre : decode_smsc (0x03 ∷ 0x91 ∷ 0x94 ∷ 0xf1 ∷ 0x04 ∷ []) ≡ some (codes "+491", 4)
unfolding decode_smsc
centre = refl

alphanumeric : decode_bcd_address (0xe8 ∷ 0x32 ∷ []) 4 0xd0 ≡ codes "he"
unfolding decode_bcd_address unpack_gsm7 decode_gsm7_text
alphanumeric = refl

too_short : decode_scts (0x62 ∷ []) ≡ zero_time
unfolding decode_scts
too_short = refl

classes : dcs_encoding 0x04 ≡ eight_bit
unfolding dcs_encoding
classes = refl

-- 26-11-25 03:48:32, two quarters of an hour west of Greenwich
abbrev november : Fields
november = record {
  year = 26;
  month = 11;
  day = 25;
  hour = 3;
  minute = 48;
  second = 32;
  negative = true;
  quarters = 2;
}

decode_scts-scts_example :
    decode_scts (scts november)
    ≡ date (record {
      year = 2000 + (26 + excess 26);
      month = 11 + excess 11;
      day = 25 + excess 25;
      hour = 3 + excess 3;
      minute = 48 + excess 48;
      second = 32 + excess 32;
      offset = signed true ((2 + excess 2) * 15 * 60);
    })
decode_scts-scts_example = decode_scts-scts november (omega arith)
