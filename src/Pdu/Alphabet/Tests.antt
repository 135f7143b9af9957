-- ===== src/Pdu/Alphabet/Tests.antt =====
-- Runs of the alphabet, and the theorem at a concrete input.
use sms_gate.Prelude.{◌≡◌, refl, true, false, [], ◌∷◌, length, All, arith}
use sms_gate.Prelude.Text.{codes}
use sms_gate.Pdu.Septets.{pack_gsm7, unpack_gsm7}
use sms_gate.Pdu.Septets.Pack.{IsSeptet}
use sms_gate.Pdu.Alphabet.{
  rune_to_gsm7, code_of, rune_of, is_gsm7, encode_rune, encode_gsm7_text, extension_rune,
  decode_gsm7_text,
}
use sms_gate.Pdu.Alphabet.RoundTrip.{decode_gsm7_text-encode_gsm7_text}

encoded_run : encode_gsm7_text (codes "a{@") ≡ 0x61 ∷ 0x1b ∷ 0x28 ∷ 0x00 ∷ []
unfolding encode_gsm7_text encode_rune rune_to_gsm7 code_of
encoded_run = refl

decoded_run : decode_gsm7_text (0x61 ∷ 0x1b ∷ 0x28 ∷ 0x1b ∷ 0x01 ∷ 0x1b ∷ []) ≡ codes "a{ "
unfolding decode_gsm7_text extension_rune rune_of
decoded_run = refl

accepted : is_gsm7 (codes "a{@") ≡ true
unfolding is_gsm7 rune_to_gsm7 code_of
accepted = refl

-- U+4E2D
refused : is_gsm7 (0x4e2d ∷ []) ≡ false
unfolding is_gsm7 rune_to_gsm7 code_of
refused = refl

decode_gsm7_text-encode_gsm7_text_example :
    let s = codes "a{@" in
    let septets = encode_gsm7_text s in
    (decode_gsm7_text (unpack_gsm7 (pack_gsm7 septets) (length septets)) ≡ s) × All IsSeptet septets
decode_gsm7_text-encode_gsm7_text_example =
    decode_gsm7_text-encode_gsm7_text (codes "a{@") accepted
      ((λ e. omega arith), ((λ e. omega arith), ((λ e. omega arith), tt)))
