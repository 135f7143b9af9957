-- ===== src/Pdu/Ucs2/Tests.antt =====
-- A run through UCS2, and the theorem at a concrete input.
use sms_gate.Prelude.{ℕ, ◌≡◌, refl, List, [], ◌∷◌}
use sms_gate.Pdu.Ucs2.{encode_ucs2, decode_ucs2}

abbrev euro_smile : List ℕ
euro_smile = 0x20ac ∷ 0x1f600 ∷ []

octets : encode_ucs2 euro_smile ≡ 0x20 ∷ 0xac ∷ 0xd8 ∷ 0x3d ∷ 0xde ∷ 0x00 ∷ []
unfolding encode_ucs2
octets = refl

-- Half a surrogate pair, and an odd octet.
lone : decode_ucs2 (0xd8 ∷ 0x3d ∷ 0x00 ∷ 0x41 ∷ 0x07 ∷ []) ≡ 0xfffd ∷ 0x41 ∷ []
unfolding decode_ucs2
lone = refl
