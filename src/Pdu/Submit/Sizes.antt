-- ===== src/Pdu/Submit/Sizes.antt =====
-- The size of the user data.
use sms_gate.Prelude.{
  true, ◌++◌, ◌-◌, ℕ, suc, ◌+◌, ◌*◌, ◌%◌, ◌≤◌, ◌<◌, ◌≡◌, refl, ap, List, [], ◌∷◌, map, ltb, leb,
  length, All, arith, if◌then◌else◌,
}
use sms_gate.Prelude.Text.{encode_hex}
use sms_gate.Pdu.Septets.Pack.{IsSeptet, length-pack_gsm7}
use sms_gate.Pdu.Septets.Fill.{length-repack_with_fill}
use sms_gate.Pdu.Ucs2.{utf16_units, encode_ucs2}
use sms_gate.Pdu.Address.{encode_bcd_address}
use sms_gate.Pdu.Ucs2.RoundTrip.{length-encode_ucs2}
use sms_gate.Pdu.Submit.{
  encode_parts, encode_ucs2_pdus, Part, single, gsm7_user_data, ucs2_user_data, submit_octets,
  to_upper, encoded, build_gsm7_pdu, build_ucs2_pdu,
}

-- The user data of a GSM 7-bit message, alone or a part of a longer one, fits the 140 octets of a
-- TPDU, and its length field counts at most 160 septets, so that it fits a byte.
pub gsm7_user_data-le :
    (chars : List ℕ) (p : Part)
    → All IsSeptet chars
    → length chars ≤ (if ltb 0 p.total then 153 else 160)
    → (length (gsm7_user_data chars p).octets ≤ 140) × ((gsm7_user_data chars p).udl ≤ 160)
unfolding gsm7_user_data
gsm7_user_data-le chars p s h =
    ground (arith, length-pack_gsm7 chars, length-repack_with_fill chars 1 s)

-- A rune of the basic plane, and one above it.
abbrev pub Basic : ℕ → Type 0
Basic r = r < 0x10000

abbrev pub Supplementary : ℕ → Type 0
Supplementary r = (0x10000 ≤ r) × (r ≤ 0x10ffff)

one_unit : (s : List ℕ) → All Basic s → All (λ r. length (utf16_units r) ≡ 1) s
unfolding utf16_units
one_unit [] h = tt
one_unit (r ∷ s) (hr, h) = (ground arith, one_unit s h)

two_units : (s : List ℕ) → All Supplementary s → All (λ r. length (utf16_units r) ≡ 2) s
unfolding utf16_units
two_units [] h = tt
two_units (r ∷ s) (hr, h) = (ground arith, two_units s h)

-- The same of a UCS2 message whose runes are all in the basic plane.
pub ucs2_user_data-le :
    (runes : List ℕ) (p : Part)
    → All Basic runes
    → length runes ≤ (if ltb 0 p.total then 67 else 70)
    → (length (ucs2_user_data runes p).octets ≤ 140) × ((ucs2_user_data runes p).udl ≤ 140)
unfolding ucs2_user_data
ucs2_user_data-le runes p s h = ground (arith, length-encode_ucs2 1 runes (one_unit runes s))

-- The octets of a UCS2 message of one part, with `udl` as the length of its user data.
abbrev pub ucs2_message : List ℕ → List ℕ → ℕ → List ℕ
ucs2_message to runes udl =
    let da = encode_bcd_address to in
    0x00
    ∷ 0x11
    ∷ 0x00
    ∷ (da.num_digits % 256)
    ∷ da.addr_type
    ∷ (da.octets ++ 0x00 ∷ 0x08 ∷ 0xaa ∷ udl ∷ encode_ucs2 runes)

-- A UCS2 message is split by runes, and a rune above the basic plane takes two units: of 36 to 70 such
-- runes `encodeUCS2PDUs` makes one PDU, with more than the 140 octets of user data that a TPDU holds, and
-- from 64 of them on the octet that gives the length of the user data is 256 less than that length.
pub encode_ucs2_pdus_too_long :
    (to runes : List ℕ)
    → All Supplementary runes
    → 36 ≤ length runes
    → length runes ≤ 70
    → (140 < length (encode_ucs2 runes))
      × (encode_ucs2_pdus to runes
          ≡ encoded
              (ucs2_message to runes
                (length (encode_ucs2 runes) - (if leb 64 (length runes) then 256 else 0)))
              single
            ∷ [])
unfolding encode_ucs2_pdus encode_parts build_ucs2_pdu submit_octets ucs2_user_data
encode_ucs2_pdus_too_long to runes s lo hi =
    let octets = length-encode_ucs2 2 runes (two_units runes s) in
    let one : leb (length runes) 70 ≡ true = ground arith in
    let byte : (length (encode_ucs2 runes) + 0) % 256
        ≡ length (encode_ucs2 runes) - (if leb 64 (length runes) then 256 else 0) =
      ground (arith, octets) in
    (omega (arith, octets), rw (one, byte))

length-map {ℓ κ} :
    {A : Type ℓ} {B : Type κ} (f : A → B) (xs : List A) → length (map f xs) ≡ length xs
length-map f [] = refl
length-map f (x ∷ xs) = ap suc (length-map f xs)

length-encode_hex : (bs : List ℕ) → length (encode_hex bs) ≡ 2 * length bs
unfolding encode_hex
length-encode_hex [] = refl
length-encode_hex (b ∷ bs) = omega (arith, length-encode_hex bs)

encoded_length :
    (pdu : List ℕ) (p : Part)
    → 0 < length pdu
    → length (encoded pdu p).hex_str ≡ 2 * ((encoded pdu p).length + 1)
unfolding encoded
encoded_length pdu p h = omega (arith, length-map to_upper (encode_hex pdu), length-encode_hex pdu)

-- The length that is announced by AT+CMGS counts the octets of the PDU without the one for the service
-- centre: the hexadecimal string has two digits for each of them and two more. `NumParts` is the
-- number in the header, which is 0 for a message of one part.
pub length-hex_str :
    (to text : List ℕ) (p : Part)
    → let g = build_gsm7_pdu to text p in
      let u = build_ucs2_pdu to text p in
      (length g.hex_str ≡ 2 * (g.length + 1))
      × (length u.hex_str ≡ 2 * (u.length + 1))
      × (g.num_parts ≡ p.total)
      × (u.num_parts ≡ p.total)
unfolding build_gsm7_pdu build_ucs2_pdu
length-hex_str to text p = (
  encoded_length (submit_octets to 0x00 p (gsm7_user_data text p)) p (omega arith),
  encoded_length (submit_octets to 0x08 p (ucs2_user_data text p)) p (omega arith),
  refl,
  refl,
)
