-- ===== src/Pdu/Address/RoundTrip.antt =====
-- Phone numbers through the BCD form.
use sms_gate.Prelude.{
  ℕ, zero, suc, ◌+◌, ◌-◌, ◌*◌, ◌/◌, ◌%◌, ◌^◌, ◌≤◌, ◌<◌, ◌≡◌, refl, ap, false, List, [], ◌∷◌, ◌==◌,
  length, All, arith,
}
use sms_gate.Prelude.Bits.{bit_or_disjoint, bit_and-0x0f}
use sms_gate.Pdu.Septets.{shl8}
use sms_gate.Pdu.Address.{
  nibble_at, decode_digits, decode_bcd_address, minus_zero, pair_octet, encode_digits, pad, Address,
  encode_number, encode_bcd_address,
}

abbrev pub IsDigit : ℕ → Type 0
IsDigit d = (b'0' ≤ d) × (d ≤ b'9')

-- One octet: the first digit in the low nibble, the second or the padding in the high one.
pair_octet_digits :
    (lo hi : ℕ) → IsDigit lo → IsDigit hi → pair_octet lo hi ≡ (lo - b'0') + (hi - b'0') * 16
unfolding pair_octet
pair_octet_digits lo hi l h =
    let not_padding : (hi == b'F') ≡ false = ground arith in
    let low : minus_zero lo ≡ lo - b'0' = omega arith in
    let high : shl8 (minus_zero hi) 4 ≡ (hi - b'0') * 2 ^ 4 = omega arith in
    rw (not_padding, low, high) (bit_or_disjoint 4 (lo - b'0') (hi - b'0') (omega arith))

pair_octet_padded : (lo : ℕ) → IsDigit lo → pair_octet lo b'F' ≡ (lo - b'0') + 15 * 16
unfolding pair_octet
pair_octet_padded lo l =
    let low : minus_zero lo ≡ lo - b'0' = omega arith in
    rw low (bit_or_disjoint 4 (lo - b'0') 15 (omega arith))

low_nibble : (x y : ℕ) (octets : List ℕ) → x < 16 → y < 16 → nibble_at ((x + y * 16) ∷ octets) 0 ≡ x
unfolding nibble_at
low_nibble x y octets h k = omega (arith, bit_and-0x0f (x + y * 16) (omega arith))

high_nibble :
    (x y : ℕ) (octets : List ℕ) → x < 16 → y < 16 → nibble_at ((x + y * 16) ∷ octets) 1 ≡ y
unfolding nibble_at
high_nibble x y octets h k = omega (arith, bit_and-0x0f ((x + y * 16) / 2 ^ 4) (omega arith))

-- The loop past the first octet is the loop on the others.
nibble_at-shift :
    (octet : ℕ) (octets : List ℕ) (i : ℕ) → nibble_at (octet ∷ octets) (i + 2) ≡ nibble_at octets i
unfolding nibble_at
nibble_at-shift octet octets i =
    let index : (i + 2) / 2 ≡ suc (i / 2) = omega arith in
    let parity : (i + 2) % 2 ≡ i % 2 = omega arith in rw (index, parity)

decode_digits-shift :
    (n i octet : ℕ) (octets : List ℕ)
    → decode_digits (octet ∷ octets) (i + 2) n ≡ decode_digits octets i n
unfolding decode_digits
decode_digits-shift zero i octet octets = refl
decode_digits-shift (suc n) i octet octets =
    let index : (i + 2) / 2 ≡ suc (i / 2) = omega arith in
    let next : i + 2 + 1 ≡ i + 1 + 2 = omega arith in
    rw (nibble_at-shift octet octets i, next, decode_digits-shift n (i + 1) octet octets, index)
      (ground arith)

-- The first octet gives its two digits, or its one digit if no more is asked for.
two_digits :
    (x y n : ℕ) (octets : List ℕ)
    → x < 10
    → y < 10
    → decode_digits ((x + y * 16) ∷ octets) 0 (suc (suc n))
      ≡ (b'0' + x) ∷ (b'0' + y) ∷ decode_digits octets 0 n
unfolding decode_digits
two_digits x y n octets h k =
    let not_pad : (x == 15) ≡ false = ground arith in
    let not_pad' : (y == 15) ≡ false = ground arith in
    rw
      (
        low_nibble x y octets (omega arith) (omega arith),
        high_nibble x y octets (omega arith) (omega arith),
        not_pad,
        not_pad',
        decode_digits-shift n 0 (x + y * 16) octets,
      )
      (ground arith)

one_digit : (x y : ℕ) → x < 10 → y < 16 → decode_digits ((x + y * 16) ∷ []) 0 1 ≡ (b'0' + x) ∷ []
unfolding decode_digits
one_digit x y h k =
    let not_pad : (x == 15) ≡ false = ground arith in
    rw (low_nibble x y [] (omega arith) k, not_pad) (ground arith)

pad_two : (a b : ℕ) (digits : List ℕ) → pad (a ∷ b ∷ digits) ≡ a ∷ b ∷ pad digits
pad_two a b digits = ground arith

digit_back : (d : ℕ) → IsDigit d → b'0' + (d - b'0') ≡ d
digit_back d h = omega arith

decode_digits-encode_digits :
    (digits : List ℕ)
    → All IsDigit digits
    → decode_digits (encode_digits (pad digits)) 0 (length digits) ≡ digits
unfolding encode_digits
decode_digits-encode_digits [] h = unfold decode_digits in refl
decode_digits-encode_digits (a ∷ []) (ha, h) =
    rw
      (pair_octet_padded a ha, one_digit (a - b'0') 15 (omega arith) (omega arith), digit_back a ha)
decode_digits-encode_digits (a ∷ b ∷ digits) (ha, (hb, h)) = rw (
  pad_two a b digits,
  pair_octet_digits a b ha hb,
  two_digits (a - b'0') (b - b'0') (length digits) (encode_digits (pad digits)) (omega arith)
      (omega arith),
  digit_back a ha,
  digit_back b hb,
  decode_digits-encode_digits digits h,
)

-- What is decoded of an encoded address.
abbrev pub decoded : Address → List ℕ
decoded a = decode_bcd_address a.octets a.num_digits a.addr_type

national : (digits : List ℕ) → All IsDigit digits → decoded (encode_number 0x81 digits) ≡ digits
unfolding decode_bcd_address encode_number
national digits h = decode_digits-encode_digits digits h

international :
    (digits : List ℕ) → All IsDigit digits → decoded (encode_number 0x91 digits) ≡ b'+' ∷ digits
unfolding decode_bcd_address encode_number
international digits h = ap (◌∷◌ b'+') (decode_digits-encode_digits digits h)

-- A number of decimal digits, of even or odd length and with or without a leading plus, is decoded
-- from its encoded form as it was, and the length that is sent counts its digits.
pub decoded-encode_bcd_address :
    (digits : List ℕ)
    → All IsDigit digits
    → (decoded (encode_bcd_address digits) ≡ digits)
      × (decoded (encode_bcd_address (b'+' ∷ digits)) ≡ b'+' ∷ digits)
      × ((encode_bcd_address digits).num_digits ≡ length digits)
      × ((encode_bcd_address (b'+' ∷ digits)).num_digits ≡ length digits)
unfolding encode_bcd_address encode_number
decoded-encode_bcd_address [] h = (national [] h, international [] h, refl, refl)
decoded-encode_bcd_address (d ∷ digits) h =
    let digit : (d == b'+') ≡ false = ground arith in
    (rw digit (national (d ∷ digits) h), international (d ∷ digits) h, rw digit, refl)
