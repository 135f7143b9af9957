-- ===== src/Pdu/Address/SemiOctets.antt =====
-- The time stamp in semi-octets.
use Prim.Native.Nat.{bit_and}
use sms_gate.Prelude.{
  ℕ, ◌+◌, ◌*◌, ◌/◌, ◌%◌, ◌^◌, ◌<◌, ◌≡◌, ◌∙◌, Bool, true, false, List, [], ◌∷◌, arith, if◌then◌else◌,
}
use sms_gate.Prelude.Bits.{bit_or_disjoint, bit_and-0x0f, bit_and-0x7f, bit_and-0x80}
use sms_gate.Pdu.Address.{swap_nibbles, signed, date, decode_scts, not_zero}

swap_nibbles_lem : (b : ℕ) → b < 256 → swap_nibbles b ≡ b / 16 + b % 16 * 16
unfolding swap_nibbles
swap_nibbles_lem b h =
    let whole : b / 16 % 16 ≡ b / 16 = omega arith in
    let high : b % 16 * 2 ^ 4 % 256 ≡ b % 16 * 2 ^ 4 = omega arith in
    rw (bit_and-0x0f (b / 2 ^ 4) (omega arith), bit_and-0x0f b h, whole, high)
      (bit_or_disjoint 4 (b / 16) (b % 16) (omega arith))

-- A number below 100 as 3GPP TS 23.040 writes it: the tens in the low nibble, the units in the high
-- one.
abbrev pub semi_octet : ℕ → ℕ
semi_octet v = v / 10 + v % 10 * 16

-- The zone in quarters of an hour, with its sign above the tens.
abbrev pub zone_octet : Bool → ℕ → ℕ
zone_octet negative quarters = (if negative then 8 else 0) + semi_octet quarters

-- What the code reads out of a semi-octet: the tens count 16.
swap_nibbles-semi_octet : (v : ℕ) → v < 100 → swap_nibbles (semi_octet v) ≡ v + 6 * (v / 10)
swap_nibbles-semi_octet v h = omega (arith, swap_nibbles_lem (semi_octet v) (omega arith))

swap_nibbles-zone_octet :
    (negative : Bool) (quarters : ℕ)
    → quarters < 80
    → swap_nibbles (zone_octet negative quarters)
      ≡ (if negative then 128 else 0) + (quarters + 6 * (quarters / 10))
swap_nibbles-zone_octet true q h = omega (arith, swap_nibbles_lem (zone_octet true q) (omega arith))
swap_nibbles-zone_octet false q h =
    omega (arith, swap_nibbles_lem (zone_octet false q) (omega arith))

zone_sign :
    (negative : Bool) (n : ℕ)
    → n < 128
    → not_zero (bit_and ((if negative then 128 else 0) + n) 0x80) ≡ negative
unfolding not_zero
zone_sign true n h =
    let e : (128 + n) / 128 * 128 ≡ 128 = omega arith in
    rw (bit_and-0x80 (128 + n) (omega arith), e)
zone_sign false n h =
    let e : (0 + n) / 128 * 128 ≡ 0 = omega arith in rw (bit_and-0x80 (0 + n) (omega arith), e)

zone_size :
    (negative : Bool) (n : ℕ) → n < 128 → bit_and ((if negative then 128 else 0) + n) 0x7f ≡ n
zone_size true n h = bit_and-0x7f (128 + n) (omega arith) ∙ omega arith
zone_size false n h = bit_and-0x7f (0 + n) (omega arith) ∙ omega arith

pub record Fields : Type 0 where
  pub year : ℕ
  pub month : ℕ
  pub day : ℕ
  pub hour : ℕ
  pub minute : ℕ
  pub second : ℕ
  pub negative : Bool
  pub quarters : ℕ

-- The seven octets that a service centre writes for a time of this century.
abbrev pub scts : Fields → List ℕ
scts t =
    semi_octet t.year
    ∷ semi_octet t.month
    ∷ semi_octet t.day
    ∷ semi_octet t.hour
    ∷ semi_octet t.minute
    ∷ semi_octet t.second
    ∷ zone_octet t.negative t.quarters
    ∷ []

-- The excess of what is read over what was written.
abbrev pub excess : ℕ → ℕ
excess v = 6 * (v / 10)

pub record TwoDigits (t : Fields) : Type 0 where
  pub year : t.year < 100
  pub month : t.month < 100
  pub day : t.day < 100
  pub hour : t.hour < 100
  pub minute : t.minute < 100
  pub second : t.second < 100
  pub quarters : t.quarters < 80

-- `decodeSCTS` takes the two digits of a field as hexadecimal: of the octets that stand for a time it
-- gives each field, the zone's quarters included, too large by 6 for every ten.
pub decode_scts-scts :
    (t : Fields)
    → TwoDigits t
    → decode_scts (scts t)
      ≡ date (record {
        year = 2000 + (t.year + excess t.year);
        month = t.month + excess t.month;
        day = t.day + excess t.day;
        hour = t.hour + excess t.hour;
        minute = t.minute + excess t.minute;
        second = t.second + excess t.second;
        offset = signed t.negative ((t.quarters + excess t.quarters) * 15 * 60);
      })
unfolding decode_scts
decode_scts-scts t h = rw (
  swap_nibbles-semi_octet t.year h.year,
  swap_nibbles-semi_octet t.month h.month,
  swap_nibbles-semi_octet t.day h.day,
  swap_nibbles-semi_octet t.hour h.hour,
  swap_nibbles-semi_octet t.minute h.minute,
  swap_nibbles-semi_octet t.second h.second,
  swap_nibbles-zone_octet t.negative t.quarters h.quarters,
  zone_sign t.negative (t.quarters + excess t.quarters) (omega (arith, h.quarters)),
  zone_size t.negative (t.quarters + excess t.quarters) (omega (arith, h.quarters)),
)
