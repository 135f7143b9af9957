-- ===== src/Pdu/Submit/Tests.antt =====
-- Runs of EncodePDU, and the theorems at concrete inputs.
use sms_gate.Prelude.{
  ℕ, suc, zero, ◌<◌, ◌≡◌, refl, List, [], ◌∷◌, length, leb, All, arith, if◌then◌else◌,
}
use sms_gate.Prelude.Text.{codes, encode_hex}
use sms_gate.Pdu.Septets.{pack_gsm7}
use sms_gate.Pdu.Address.{encode_bcd_address, pair_octet}
use sms_gate.Pdu.Alphabet.{encode_gsm7_text, rune_to_gsm7, code_of, encode_rune}
use sms_gate.Pdu.Submit.{encode_ucs2_pdus, encoded, single, build_gsm7_pdu, encode_gsm7_pdus}
use sms_gate.Pdu.Submit.Segments.{Splits, part_count, encode_gsm7_pdus-Splits}
use sms_gate.Pdu.Submit.Sizes.{Supplementary, ucs2_message, encode_ucs2_pdus_too_long}
use sms_gate.Pdu.Ucs2.{encode_ucs2}
use sms_gate.Prelude.{◌-◌}

abbrev repeated : ℕ → ℕ → List ℕ
repeated zero c = []
repeated (suc n) c = c ∷ repeated n c

abbrev to : List ℕ
to = codes "+49170"

-- An SMS-SUBMIT of one part.
hello : (build_gsm7_pdu to (codes "hi") single).hex_str ≡ codes "00110005919471F00000AA02E834"
unfolding build_gsm7_pdu encode_hex encode_bcd_address pair_octet pack_gsm7
hello = refl

-- U+20AC and U+1F600
abbrev euro : ℕ
euro = 0x20ac

abbrev smile : ℕ
smile = 0x1f600

repeated-All {ℓ} : (P : ℕ → Type ℓ) (n c : ℕ) → P c → All P (repeated n c)
repeated-All P zero c p = tt
repeated-All P (suc n) c p = (p, repeated-All P n c p)

encode_ucs2_pdus_too_long_example :
    let runes = repeated 64 smile in
    (140 < length (encode_ucs2 runes))
    × (encode_ucs2_pdus (codes "491") runes
        ≡ encoded
            (ucs2_message
              (codes "491")
              runes
              (length (encode_ucs2 runes) - (if leb 64 (length runes) then 256 else 0)))
            single
          ∷ [])
encode_ucs2_pdus_too_long_example =
    encode_ucs2_pdus_too_long (codes "491") (repeated 64 smile)
      (repeated-All Supplementary 64 smile (omega arith, omega arith)) (omega arith) (omega arith)

long_text : 160 < length (encode_gsm7_text (repeated 161 b'a'))
unfolding encode_gsm7_text encode_rune rune_to_gsm7 code_of
long_text = omega arith

encode_gsm7_pdus-Splits_example :
    let body = repeated 161 b'a' in
    let n = part_count 153 (length (encode_gsm7_text body)) in
    Splits (build_gsm7_pdu to) 153 n 0 n (encode_gsm7_text body) (encode_gsm7_pdus to body)
    × (leb n 255 ≡ leb (length (encode_gsm7_text body)) 39015)
encode_gsm7_pdus-Splits_example = encode_gsm7_pdus-Splits to (repeated 161 b'a') long_text
