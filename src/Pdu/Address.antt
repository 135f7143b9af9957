-- ===== src/Pdu/Address.antt =====
-- Addresses and the time stamp (internal/at/pdu.go: swapNibbles, decodeBCDAddress,
-- encodeBCDAddress, decodeSCTS, dcsEncoding; decodeSMSC is in Indexed, with decodeBCDAddress as it is
-- when every index is checked). A number is given as its bytes. `d - '0'` on a byte wraps.
pub mod Indexed
pub mod RoundTrip
pub mod SemiOctets
mod Tests
use Prim.Native.Nat.{bit_and, bit_or}
use sms_gate.Prelude.{
  ℕ, zero, suc, ◌+◌, ◌-◌, ◌*◌, ◌/◌, ◌%◌, ◌^◌, Bool, true, false, ◌&&◌, ◌||◌, List, [], ◌∷◌, ◌++◌,
  ltb, leb, ◌==◌, length, get_or, take, drop, if◌then◌else◌,
}
use sms_gate.Prelude.Int.{ℤ, pos, negsuc}
use sms_gate.Pdu.Septets.{shl8, shr8, unpack_gsm7}
use sms_gate.Pdu.Alphabet.{decode_gsm7_text}

unfoldable pub swap_nibbles : ℕ → ℕ
swap_nibbles b = bit_or (bit_and (shr8 b 4) 0x0f) (shl8 (bit_and b 0x0f) 4)

-- The digit at index `i`.
unfoldable pub nibble_at : List ℕ → ℕ → ℕ
nibble_at octets i =
    if i % 2 == 0
    then bit_and (get_or octets (i / 2) 0) 0x0f
    else bit_and (shr8 (get_or octets (i / 2) 0) 4) 0x0f

-- The loop from `i` with `n` rounds left; both `break`s end it.
unfoldable pub decode_digits : List ℕ → ℕ → ℕ → List ℕ
decode_digits octets i zero = []
decode_digits octets i (suc n) =
    let rest = decode_digits octets (i + 1) n in
    if leb (length octets) (i / 2)
    then []
    else (if nibble_at octets i == 0x0f then [] else (b'0' + nibble_at octets i) ∷ rest)

unfoldable pub decode_bcd_address : List ℕ → ℕ → ℕ → List ℕ
unfolding decode_digits
decode_bcd_address octets num_digits addr_type =
    if addr_type == 0xd0
    then decode_gsm7_text (unpack_gsm7 octets num_digits)
    else (if addr_type == 0x91
        then b'+' ∷ decode_digits octets 0 num_digits
        else decode_digits octets 0 num_digits)

-- `d - '0'` on a byte.
abbrev pub minus_zero : ℕ → ℕ
minus_zero d = (d + 256 - b'0') % 256

unfoldable pub pair_octet : ℕ → ℕ → ℕ
pair_octet lo hi = bit_or (minus_zero lo) (shl8 (if hi == b'F' then 0x0f else minus_zero hi) 4)

-- The digits in pairs. The length is even when this is called.
unfoldable pub encode_digits : List ℕ → List ℕ
encode_digits [] = []
encode_digits (lo ∷ []) = []
encode_digits (lo ∷ hi ∷ digits) = pair_octet lo hi ∷ encode_digits digits

pub record Address : Type 0 where
  pub num_digits : ℕ
  pub addr_type : ℕ
  pub octets : List ℕ

-- Padded to an even length with an F.
abbrev pub pad : List ℕ → List ℕ
pad digits = if length digits % 2 == 0 then digits else digits ++ b'F' ∷ []

unfoldable pub encode_number : ℕ → List ℕ → Address
unfolding encode_digits
encode_number addr_type digits = record {
  num_digits = length digits;
  addr_type = addr_type;
  octets = encode_digits (pad digits);
}

-- `+` makes the number international and is cut off.
unfoldable pub encode_bcd_address : List ℕ → Address
unfolding encode_number
encode_bcd_address [] = encode_number 0x81 []
encode_bcd_address (d ∷ msisdn) =
    if d == b'+' then encode_number 0x91 msisdn else encode_number 0x81 (d ∷ msisdn)

-- The arguments that `decodeSCTS` gives to `time.Date`, the offset of the zone in seconds.
pub record Timestamp : Type 0 where
  pub year : ℕ
  pub month : ℕ
  pub day : ℕ
  pub hour : ℕ
  pub minute : ℕ
  pub second : ℕ
  pub offset : ℤ

-- `tzSign * n`
unfoldable pub signed : Bool → ℕ → ℤ
signed false n = pos n
signed true zero = pos 0
signed true (suc n) = negsuc n

pub data Stamp : Type 0 where
  zero_time : Stamp
  date : Timestamp → Stamp

pub not_zero : ℕ → Bool
not_zero n = if n == 0 then false else true

unfoldable pub decode_scts : List ℕ → Stamp
decode_scts octets =
    if ltb (length octets) 7
    then zero_time
    else date (record {
      year = 2000 + swap_nibbles (get_or octets 0 0);
      month = swap_nibbles (get_or octets 1 0);
      day = swap_nibbles (get_or octets 2 0);
      hour = swap_nibbles (get_or octets 3 0);
      minute = swap_nibbles (get_or octets 4 0);
      second = swap_nibbles (get_or octets 5 0);
      offset =
          signed (not_zero (bit_and (swap_nibbles (get_or octets 6 0)) 0x80))
            (bit_and (swap_nibbles (get_or octets 6 0)) 0x7f * 15 * 60);
    })

pub data Encoding : Type 0 where
  gsm7 eight_bit ucs2 : Encoding

-- `switch enc`: the value 3 falls through to the last `return`.
unfoldable pub general_encoding : ℕ → Encoding
general_encoding enc =
    if enc == 0 then gsm7 else (if enc == 1 then eight_bit else (if enc == 2 then ucs2 else gsm7))

unfoldable pub dcs_encoding : ℕ → Encoding
unfolding general_encoding
dcs_encoding dcs =
    let class = bit_and (shr8 dcs 4) 0x0f in
    if class == 0 || class == 0x0f
    then general_encoding (bit_and (shr8 dcs 2) 0x03)
    else (if leb 4 class && leb class 7
        then gsm7
        else (if leb 8 class && leb class 0x0b
            then ucs2
            else (if class == 0x0c || class == 0x0d
                then gsm7
                else (if class == 0x0e
                    then (if bit_and dcs 0x04 == 0 then gsm7 else ucs2)
                    else gsm7))))
