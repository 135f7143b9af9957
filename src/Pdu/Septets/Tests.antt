-- ===== src/Pdu/Septets/Tests.antt =====
-- Runs of the septet routines, and the theorems at concrete inputs.
use sms_gate.Prelude.{ℕ, ◌*◌, ◌/◌, ◌≡◌, refl, List, [], ◌∷◌, length, min, arith}
use sms_gate.Pdu.Septets.{unpack_gsm7, pack_gsm7, repack_with_fill}
use sms_gate.Pdu.Septets.RoundTrip.{length-unpack_gsm7}

-- "hellohello"
abbrev hello : List ℕ
hello = 104 ∷ 101 ∷ 108 ∷ 108 ∷ 111 ∷ 104 ∷ 101 ∷ 108 ∷ 108 ∷ 111 ∷ []

packed_hello : pack_gsm7 hello ≡ 0xe8 ∷ 0x32 ∷ 0x9b ∷ 0xfd ∷ 0x46 ∷ 0x97 ∷ 0xd9 ∷ 0xec ∷ 0x37 ∷ []
unfolding pack_gsm7
packed_hello = refl

unpacked_hello : unpack_gsm7 (pack_gsm7 hello) 10 ≡ hello
unfolding pack_gsm7 unpack_gsm7
unpacked_hello = refl

clamped : unpack_gsm7 (0xff ∷ 0xff ∷ []) 200 ≡ 127 ∷ 127 ∷ []
unfolding unpack_gsm7
clamped = refl

filled : repack_with_fill (104 ∷ 101 ∷ []) 1 ≡ 0xd0 ∷ 0x65 ∷ []
unfolding repack_with_fill
filled = refl

length-unpack_gsm7_example :
    length (unpack_gsm7 (0xe8 ∷ 0x32 ∷ []) 200)
    ≡ min 200 (length {A = ℕ} (0xe8 ∷ 0x32 ∷ []) * 8 / 7)
length-unpack_gsm7_example = length-unpack_gsm7 (0xe8 ∷ 0x32 ∷ []) 200 (omega arith)
